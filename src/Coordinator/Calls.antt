-- ===== src/Coordinator/Calls.antt =====
-- The coordinator over any events: calls of its ports and handles, settlements, scheduled drains and
-- executors that are done.
use pass_hub.Base.{ℕ, Bool, List, [], ◌∷◌, ok, err}
use pass_hub.Coordinator.{Coordinator, WriteOperationKind, Candidate, Value, Replies, Returns}
use pass_hub.Coordinator.Settling.{record_candidate}
use pass_hub.Coordinator.Draining.{
  drain, executed, resume_drain, request_post_commit_unknown_pause, wake,
}
use pass_hub.Coordinator.Provisional.{
  Registration, register_provisional, activate, reject_before_start,
  consume_maintenance_validation_cancellation, settle_maintenance_known_no_effect,
}
use pass_hub.Coordinator.Recovering.{
  adopt, business_result_persisted_by_handle, fail_closed_by_handle,
}
use pass_hub.Coordinator.Maintenance.{
  settle_ready_known_no_effect, mark_waiting_validation_maintenance_canceled,
}

-- `enqueue`, where the completion is what the operation holds.
unfoldable pub then_activate : Replies → Value → Returns ℕ → Coordinator
then_activate e input (s, err code) = s
then_activate e input (s, ok id) = (activate e id input s).0

unfoldable pub enqueue :
    Replies → Registration → WriteOperationKind → Value → Coordinator → Coordinator
unfolding then_activate
enqueue e r kind input s = then_activate e input (register_provisional e r kind s)

-- The methods of the handles take the number of an operation that was registered.
pub data Event : Type 0 where
  enqueues : Registration → WriteOperationKind → Value → Event
  registers : Registration → WriteOperationKind → Event
  activates rejects_before_start settles_maintenance : ℕ → Value → Event
  consumes_cancellation adopts : ℕ → Event
  drains resumes wakes marks_canceled : Event
  records : ℕ → Candidate → Event
  pauses recovers fails_closed : ℕ → Value → Event
  completes : Bool → Event
  settles_ready : (ℕ → Bool) → Value → Event

unfoldable pub step : Coordinator → Replies × Event → Coordinator
unfolding enqueue
step s (e, enqueues r kind input) = enqueue e r kind input s
step s (e, registers r kind) = (register_provisional e r kind s).0
step s (e, activates id input) = (activate e id input s).0
step s (e, rejects_before_start id error) = (reject_before_start e id error s).0
step s (e, settles_maintenance id error) = (settle_maintenance_known_no_effect e id error s).0
step s (e, consumes_cancellation id) = (consume_maintenance_validation_cancellation id s).0
step s (e, adopts id) = (adopt id s).0
step s (e, drains) = drain e s
step s (e, resumes) = resume_drain e s
step s (e, wakes) = wake s
step s (e, marks_canceled) = mark_waiting_validation_maintenance_canceled s
step s (e, records id candidate) = record_candidate id candidate s
step s (e, pauses id error) = (request_post_commit_unknown_pause id error s).0
step s (e, recovers id result) = (business_result_persisted_by_handle e id result s).0
step s (e, fails_closed id error) = (fail_closed_by_handle e id error s).0
step s (e, completes failed) = executed e failed s
step s (e, settles_ready cleanup_ok error) = (settle_ready_known_no_effect e cleanup_ok error s).0

unfoldable pub run : Coordinator → List (Replies × Event) → Coordinator
unfolding step
run s [] = s
run s (x ∷ xs) = run (step s x) xs
