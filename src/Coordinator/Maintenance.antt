-- ===== src/Coordinator/Maintenance.antt =====
-- The maintenance commands of the bundle.
use pass_hub.Base.{ℕ, Bool, true, not, ◌&&◌, List, [], ◌∷◌, if◌then◌else◌, ok, err}
use pass_hub.Coordinator.{
  Coordinator, Operation, Value, Replies, type_error, cleanup_failed, Returns, is_given, is_queued,
  is_ready, is_waiting, remove, set,
}
use pass_hub.Coordinator.Provisional.{finalize_maintenance_known_no_effect}

-- The snapshot of the queue that `settleReadyKnownNoEffect` takes first.
unfoldable pub ready_of : List ℕ → (ℕ → Operation) → List ℕ
ready_of [] operations = []
ready_of (id ∷ ids) operations =
    let rest = ready_of ids operations in
    if not (operations id).finalized && is_ready (operations id).validation_state
    then id ∷ rest
    else rest

abbrev still_ready : ℕ → Coordinator → Bool
still_ready id s =
    is_queued id s.queue
    && not (s.operations id).finalized
    && is_ready (s.operations id).validation_state

-- `cleanup_ok` tells whether the cleanup of an operation returns. It does not call back here, so that
-- the second of the two looks at the queue finds what the first found.
unfoldable pub settle_each : Replies → (ℕ → Bool) → List ℕ → Coordinator → Returns (Unit {0})
settle_each e cleanup_ok [] s = (s, ok tt)
settle_each e cleanup_ok (id ∷ ids) s =
    let settled =
      finalize_maintenance_known_no_effect e id (record s { queue = remove id s.queue }) in
    let after = settle_each e cleanup_ok ids settled.0 in
    let skipped = settle_each e cleanup_ok ids s in
    if not (still_ready id s)
    then skipped
    else if not (cleanup_ok id)
    then (s, err cleanup_failed)
    else (elim settled.1 [ ok done ↦ after | err code ↦ (settled.0, err code) ])

unfoldable pub settle_ready_known_no_effect :
    Replies → (ℕ → Bool) → Value → Coordinator → Returns (Unit {0})
unfolding settle_each ready_of
settle_ready_known_no_effect e cleanup_ok error s =
    if not (is_given error)
    then (s, err type_error)
    else settle_each e cleanup_ok (ready_of s.queue s.operations) s

unfoldable pub mark_all : List ℕ → (ℕ → Operation) → ℕ → Operation
mark_all [] operations = operations
mark_all (id ∷ ids) operations = mark_all ids (
    if not (operations id).finalized && is_waiting (operations id).validation_state
    then set id (record (operations id) { maintenance_validation_canceled = true }) operations
    else operations)

unfoldable pub mark_waiting_validation_maintenance_canceled : Coordinator → Coordinator
unfolding mark_all
mark_waiting_validation_maintenance_canceled s = record s {
  operations = mark_all s.queue s.operations;
}
