-- ===== src/Coordinator/Order/Methods/Handles.antt =====
-- The order of the queue, over registration, the handles, recovery and maintenance.
use pass_hub.Coordinator.Order.{
  IsOrdered, update-IsOrdered, complete-IsOrdered, told-IsOrdered, removed-IsOrdered,
  flags-IsOrdered, notice_failed-IsOrdered, fail_closed-IsOrdered, finalize-IsOrdered,
  finalize_unknown-IsOrdered, schedule_drain-IsOrdered,
}
use pass_hub.Base.{
  String, ℤ, not, ℕ, ◌+◌, Bool, true, false, List, [], ◌∷◌, arith, if-cases, ok, err,
}
use pass_hub.Quiescence.{business_result_persisted, prestart_rejected, known_no_effect}
use pass_hub.Coordinator.{
  Coordinator, Operation, Value, WriteOperationKind, queued, Replies, remove, failed, fulfilled,
  Returns, ready, rejected, set, new_operation,
}
use pass_hub.Coordinator.Provisional.{
  Registration, register_provisional, register_provisional-keeps, add_operation, activate,
  reject_before_start, consume_maintenance_validation_cancellation,
  settle_maintenance_known_no_effect, finalize_maintenance_known_no_effect, resume, resume_if_ok,
}
use pass_hub.Coordinator.Recovering.{
  adopt, business_result_persisted_by_handle, fail_closed_by_handle,
}
use pass_hub.Coordinator.Maintenance.{
  ready_of, settle_each, settle_ready_known_no_effect, mark_waiting_validation_maintenance_canceled,
}
use pass_hub.Coordinator.Order.Methods.{added-IsOrdered}

add_operation-IsOrdered :
    (e : Replies) (kind : WriteOperationKind) (at : ℤ) (operation_id : String) (s : Coordinator)
    → IsOrdered s
    → IsOrdered (add_operation e kind at operation_id s).0
unfolding add_operation
add_operation-IsOrdered e kind at operation_id s v =
    let added =
      added-IsOrdered
        (set s.minted (new_operation kind operation_id s.next_sequence at) s.operations)
        (operation_id ∷ s.issued_operation_ids) s v in
    if-cases {A = Returns ℕ} (λ r. IsOrdered r.0) (not e.registered_ok) _ _
      (fail_closed-IsOrdered _ _ added)
      (schedule_drain-IsOrdered _ (
        update-IsOrdered _ _ (
          flags-IsOrdered s.blocked s.drain_scheduled s.deferred_by_gate s.running
            (s.next_sequence + 1) s.current _ added)))

pub register_provisional-IsOrdered :
    (e : Replies) (r : Registration) (kind : WriteOperationKind) (s : Coordinator)
    → IsOrdered s
    → IsOrdered (register_provisional e r kind s).0
register_provisional-IsOrdered e r kind s v =
    register_provisional-keeps IsOrdered e kind s v
      (λ _ at id. add_operation-IsOrdered e kind at id s v) r

queued-IsOrdered :
    (id : ℕ) (operations : ℕ → Operation) (s : Coordinator)
    → IsOrdered s
    → IsOrdered (record s { operations = operations; notices = queued id ∷ s.notices })
unfolding IsOrdered
queued-IsOrdered id operations s v = v

pub activate-IsOrdered :
    (e : Replies) (id : ℕ) (input : Value) (s : Coordinator)
    → IsOrdered s
    → IsOrdered (activate e id input s).0
unfolding activate
activate-IsOrdered e id input s v =
    let now =
      queued-IsOrdered id
        (set id
          (record (s.operations id) { decided = true; input = input; validation_state = ready })
          s.operations)
        s v in
    ground (arith, fail_closed-IsOrdered id _ now, schedule_drain-IsOrdered _ now)

resume-IsOrdered : (s : Coordinator) → IsOrdered s → IsOrdered (resume s)
resume-IsOrdered s v = ground (arith, schedule_drain-IsOrdered s v)

pub reject_before_start-IsOrdered :
    (e : Replies) (id : ℕ) (error : Value) (s : Coordinator)
    → IsOrdered s
    → IsOrdered (reject_before_start e id error s).0
unfolding reject_before_start
reject_before_start-IsOrdered e id error s v =
    let now =
      update-IsOrdered
        (set id (record (s.operations id) { decided = true; validation_state = rejected })
          s.operations)
        s v in
    ground (
      arith,
      now,
      resume-IsOrdered _ (finalize-IsOrdered e id prestart_rejected _ (removed-IsOrdered id _ now)),
    )

pub consume-IsOrdered :
    (id : ℕ) (s : Coordinator)
    → IsOrdered s
    → IsOrdered (consume_maintenance_validation_cancellation id s).0
unfolding consume_maintenance_validation_cancellation IsOrdered
consume-IsOrdered id s v = ground arith

finalize_maintenance-IsOrdered :
    (e : Replies) (id : ℕ) (s : Coordinator)
    → IsOrdered s
    → IsOrdered (finalize_maintenance_known_no_effect e id s).0
unfolding finalize_maintenance_known_no_effect
finalize_maintenance-IsOrdered e id s v =
    ground (arith, complete-IsOrdered id failed _ (told-IsOrdered id known_no_effect false s v))

resume_if_ok-IsOrdered : (r : Returns (Unit {0})) → IsOrdered r.0 → IsOrdered (resume_if_ok r).0
resume_if_ok-IsOrdered (s, ok done) v = resume-IsOrdered s v
resume_if_ok-IsOrdered (s, err code) v = v

pub settle_maintenance-IsOrdered :
    (e : Replies) (id : ℕ) (error : Value) (s : Coordinator)
    → IsOrdered s
    → IsOrdered (settle_maintenance_known_no_effect e id error s).0
unfolding settle_maintenance_known_no_effect
settle_maintenance-IsOrdered e id error s v =
    let now =
      update-IsOrdered (set id (record (s.operations id) { decided = true }) s.operations) s v in
    ground (
      arith,
      now,
      resume_if_ok-IsOrdered
          (finalize_maintenance_known_no_effect e id (record s {
            operations = set id (record (s.operations id) { decided = true }) s.operations;
            queue = remove id s.queue;
          }))
          (finalize_maintenance-IsOrdered e id _ (removed-IsOrdered id _ now)),
    )

pub adopt-IsOrdered : (id : ℕ) (s : Coordinator) → IsOrdered s → IsOrdered (adopt id s).0
unfolding adopt IsOrdered
adopt-IsOrdered id s v = ground arith

reopened-IsOrdered :
    (b : Bool) (s : Coordinator) → IsOrdered s → IsOrdered (record s { blocked = b })
unfolding IsOrdered
reopened-IsOrdered b s v = v

pub recover-IsOrdered :
    (e : Replies) (id : ℕ) (result : Value) (s : Coordinator)
    → IsOrdered s
    → IsOrdered (business_result_persisted_by_handle e id result s).0
unfolding business_result_persisted_by_handle
recover-IsOrdered e id result s v =
    let told = told-IsOrdered id business_result_persisted false s v in
    ground (
      arith,
      notice_failed-IsOrdered id _ told,
      schedule_drain-IsOrdered _
          (complete-IsOrdered id fulfilled _ (reopened-IsOrdered false _ told)),
    )

pub fail_closed_by_handle-IsOrdered :
    (e : Replies) (id : ℕ) (error : Value) (s : Coordinator)
    → IsOrdered s
    → IsOrdered (fail_closed_by_handle e id error s).0
unfolding fail_closed_by_handle
fail_closed_by_handle-IsOrdered e id error s v = ground (arith, finalize_unknown-IsOrdered e id s v)

settle_each-IsOrdered :
    (e : Replies) (cleanup_ok : ℕ → Bool) (ids : List ℕ) (s : Coordinator)
    → IsOrdered s
    → IsOrdered (settle_each e cleanup_ok ids s).0
unfolding settle_each
settle_each-IsOrdered e cleanup_ok [] s v = v
settle_each-IsOrdered e cleanup_ok (id ∷ ids) s v =
    let after = finalize_maintenance-IsOrdered e id _ (removed-IsOrdered id s v) in
    ground (
      arith,
      after,
      settle_each-IsOrdered e cleanup_ok ids s v,
      settle_each-IsOrdered e cleanup_ok ids _ after,
    )

pub settle_ready-IsOrdered :
    (e : Replies) (cleanup_ok : ℕ → Bool) (error : Value) (s : Coordinator)
    → IsOrdered s
    → IsOrdered (settle_ready_known_no_effect e cleanup_ok error s).0
unfolding settle_ready_known_no_effect
settle_ready-IsOrdered e cleanup_ok error s v =
    ground (arith, settle_each-IsOrdered e cleanup_ok (ready_of s.queue s.operations) s v)

pub mark-IsOrdered :
    (s : Coordinator) → IsOrdered s → IsOrdered (mark_waiting_validation_maintenance_canceled s)
unfolding mark_waiting_validation_maintenance_canceled
mark-IsOrdered s v = update-IsOrdered _ s v
