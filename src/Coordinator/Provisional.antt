-- ===== src/Coordinator/Provisional.antt =====
-- Registration of an operation and its provisional handle.
use pass_hub.Base.{
  if-cases, if-elim, ◌≡◌, ℕ, zero, suc, ◌+◌, Bool, true, false, not, ◌&&◌, ◌||◌, Option, none, some,
  List, [], ◌∷◌, ◌++◌, String, ℤ, is_safe_integer, if◌then◌else◌, ok, err, String-discrete,
}
use mathlib.Core.Logic.{ite}
use pass_hub.Quiescence.{prestart_rejected, known_no_effect}
use pass_hub.Coordinator.{
  Coordinator, WriteOperationKind, Value, ready, rejected, failed, registered, queued, settled,
  Replies, type_error, already_decided, lifecycle_failed, coordinator_blocked, no_longer_queued,
  clock_invalid, no_unique_id, Returns, update, note, set, new_operation, is_given, is_queued,
  remove, is_waiting, head_ready, schedule_drain,
}
use pass_hub.Coordinator.Settling.{fail_closed, finalize, finished, complete}

-- What the clocks and `randomUUID` answer at a registration: the draws in their order.
pub record Registration : Type 0 where
  pub clock : Option ℤ
  pub monotonic_ok : Bool
  pub draws : ℕ → String

issued : String → List String → Bool
issued id [] = false
issued id (k ∷ ks) = ite (String-discrete k id) true (issued id ks)

-- Up to eight draws.
draw : ℕ → ℕ → (ℕ → String) → List String → Option String
draw zero attempt draws ids = none
draw (suc left) attempt draws ids =
    let next = draw left (attempt + 1) draws ids in
    if issued (draws attempt) ids then next else some (draws attempt)

unfoldable pub create_unique_operation_id : (ℕ → String) → List String → Option String
unfolding draw issued
create_unique_operation_id draws ids = draw 8 0 draws ids

unfoldable pub add_operation : Replies → WriteOperationKind → ℤ → String → Coordinator → Returns ℕ
add_operation e kind received_at_ms operation_id s =
    let id = s.minted in
    let added = note (registered id) (record s {
      queue = s.queue ++ (id ∷ []);
      operations =
          set id (new_operation kind operation_id s.next_sequence received_at_ms) s.operations;
      issued_operation_ids = operation_id ∷ s.issued_operation_ids;
      minted = s.minted + 1;
    }) in
    if not e.registered_ok then (fail_closed id added, err lifecycle_failed) else (
      schedule_drain (
          update id (λ o. record o { decided = false })
            (record added { next_sequence = s.next_sequence + 1 })),
      ok id,
    )

with_id : Replies → WriteOperationKind → ℤ → Option String → Coordinator → Returns ℕ
unfolding add_operation
with_id e kind received_at_ms none s = (s, err no_unique_id)
with_id e kind received_at_ms (some operation_id) s =
    add_operation e kind received_at_ms operation_id s

with_clock : Replies → Registration → WriteOperationKind → Option ℤ → Coordinator → Returns ℕ
unfolding with_id create_unique_operation_id
with_clock e r kind none s = (s, err clock_invalid)
with_clock e r kind (some received_at_ms) s =
    if not (is_safe_integer received_at_ms)
    then (s, err clock_invalid)
    else if not r.monotonic_ok
    then (s, err clock_invalid)
    else with_id e kind received_at_ms (create_unique_operation_id r.draws s.issued_operation_ids) s

unfoldable pub register_provisional :
    Replies → Registration → WriteOperationKind → Coordinator → Returns ℕ
unfolding with_clock
register_provisional e r kind s =
    if s.blocked then (s, err coordinator_blocked) else with_clock e r kind r.clock s

unfoldable pub activate : Replies → ℕ → Value → Coordinator → Returns (Unit {0})
activate e id input s =
    if (s.operations id).decided
    then (s, err already_decided)
    else (let now = note (queued id) (
          update id (λ o. record o { decided = true; input = input; validation_state = ready })
            s) in
        if not e.queued_ok
        then (fail_closed id now, err lifecycle_failed)
        else (schedule_drain now, ok tt))

-- After an operation has left the queue from its middle or its head.
abbrev pub resume : Coordinator → Coordinator
resume s = if not s.blocked && head_ready s.queue s.operations then schedule_drain s else s

unfoldable pub reject_before_start : Replies → ℕ → Value → Coordinator → Returns (Unit {0})
reject_before_start e id error s =
    if (s.operations id).decided
    then (s, err already_decided)
    else if not (is_given error)
    then (s, err type_error)
    else (let now = update id (λ o. record o { decided = true; validation_state = rejected }) s in
        if not (is_queued id s.queue) then (now, err no_longer_queued) else (
          resume (finalize e id prestart_rejected (record now { queue = remove id s.queue })),
          ok tt,
        ))

unfoldable pub consume_maintenance_validation_cancellation : ℕ → Coordinator → Returns Bool
consume_maintenance_validation_cancellation id s =
    if not (s.operations id).maintenance_validation_canceled
    then (s, ok false)
    else (update id (λ o. record o { maintenance_validation_canceled = false }) s, ok true)

-- A hook that fails here is thrown to the caller, and nothing else is rejected.
unfoldable pub finalize_maintenance_known_no_effect : Replies → ℕ → Coordinator → Returns (Unit {0})
finalize_maintenance_known_no_effect e id s =
    if (s.operations id).finalized
    then (s, ok tt)
    else (let now = complete id failed (note (settled id known_no_effect) (finished id false s)) in
        if e.settled_ok id then (now, ok tt) else (now, err lifecycle_failed))

abbrev pub resume_if_ok : Returns (Unit {0}) → Returns (Unit {0})
resume_if_ok (s, ok done) = (resume s, ok done)
resume_if_ok (s, err code) = (s, err code)

unfoldable pub settle_maintenance_known_no_effect :
    Replies → ℕ → Value → Coordinator → Returns (Unit {0})
unfolding finalize_maintenance_known_no_effect
settle_maintenance_known_no_effect e id error s =
    let o = s.operations id in
    if o.decided
    then (s, err already_decided)
    else if not (is_given error)
    then (s, err type_error)
    else (let now = update id (λ o. record o { decided = true }) s in
        if not (is_queued id s.queue) || o.finalized || not (is_waiting o.validation_state)
        then (now, err no_longer_queued)
        else resume_if_ok
            (finalize_maintenance_known_no_effect e id (record now { queue = remove id s.queue })))

-- What a registration that throws before it adds an operation keeps, and what the addition keeps.
module _ (P : Coordinator → Type 0) (e : Replies) (kind : WriteOperationKind) (s : Coordinator)
    (v : P s)
    (added : s.blocked ≡ false → (at : ℤ) (id : String) → P (add_operation e kind at id s).0) where
  with_id-keeps : s.blocked ≡ false → (at : ℤ) (id : Option String) → P (with_id e kind at id s).0
  unfolding with_id
  with_id-keeps open_now at none = v
  with_id-keeps open_now at (some id) = added open_now at id

  with_clock-keeps :
      s.blocked ≡ false → (r : Registration) (clock : Option ℤ) → P (with_clock e r kind clock s).0
  unfolding with_clock
  with_clock-keeps open_now r none = v
  with_clock-keeps open_now r (some at) =
      if-cases {A = Returns ℕ} (λ x. P x.0) (not (is_safe_integer at)) _ _ v
        (if-cases {A = Returns ℕ} (λ x. P x.0) (not r.monotonic_ok) _ _ v
          (with_id-keeps open_now at (create_unique_operation_id r.draws s.issued_operation_ids)))

  pub register_provisional-keeps : (r : Registration) → P (register_provisional e r kind s).0
  unfolding register_provisional
  register_provisional-keeps r =
      if-elim {A = Returns ℕ} (λ x. P x.0) s.blocked _ _ (λ _. v) λ h. with_clock-keeps h r r.clock
