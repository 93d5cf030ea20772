-- ===== src/Coordinator/Wakes/Runs.antt =====
-- When a drain is scheduled, over events in which the observer accepts what the maintenance tells it.
use pass_hub.Coordinator.Calls.{
  Event, enqueues, registers, activates, rejects_before_start, settles_maintenance,
  consumes_cancellation, adopts, drains, resumes, wakes, marks_canceled, records, pauses, recovers,
  fails_closed, completes, settles_ready, enqueue, then_activate, step, run,
}
use pass_hub.Base.{All, ℕ, true, List, [], ◌∷◌, ◌≡◌, arith, ok, err}
use pass_hub.Coordinator.{Coordinator, Value, Replies, create, Returns}
use pass_hub.Coordinator.Provisional.{register_provisional}
use pass_hub.Coordinator.Wakes.{IsAwake, executed-IsAwake, resume_drain-IsAwake, drain-IsAwake}
use pass_hub.Coordinator.Wakes.Methods.{
  pause-IsAwake, record_candidate-IsAwake, wake-IsAwake, register_provisional-IsAwake,
  activate-IsAwake, reject_before_start-IsAwake, consume-IsAwake, adopt-IsAwake, recover-IsAwake,
  fail_closed_by_handle-IsAwake, settle_maintenance-IsAwake, settle_ready-IsAwake, mark-IsAwake,
}

then_activate-IsAwake :
    (e : Replies) (input : Value) (r : Returns ℕ) → IsAwake r.0 → IsAwake (then_activate e input r)
unfolding then_activate
then_activate-IsAwake e input (s, ok id) v = activate-IsAwake e id input s v
then_activate-IsAwake e input (s, err code) v = v

-- The observer accepts what it is told of an operation that the maintenance ends before its
-- validation.
abbrev pub IsTold : Replies × Event → Type 0
IsTold (e, settles_maintenance id error) = e.settled_ok id ≡ true
IsTold _ = Unit {0}

step-IsAwake : (s : Coordinator) (x : Replies × Event) → IsTold x → IsAwake s → IsAwake (step s x)
unfolding step enqueue
step-IsAwake s (e, enqueues r kind input) h v =
    then_activate-IsAwake e input (register_provisional e r kind s)
      (register_provisional-IsAwake e r kind s v)
step-IsAwake s (e, registers r kind) h v = register_provisional-IsAwake e r kind s v
step-IsAwake s (e, activates id input) h v = activate-IsAwake e id input s v
step-IsAwake s (e, rejects_before_start id error) h v = reject_before_start-IsAwake e id error s v
step-IsAwake s (e, settles_maintenance id error) h v = settle_maintenance-IsAwake e id error s h v
step-IsAwake s (e, consumes_cancellation id) h v = consume-IsAwake id s v
step-IsAwake s (e, adopts id) h v = adopt-IsAwake id s v
step-IsAwake s (e, drains) h v = drain-IsAwake e s v
step-IsAwake s (e, resumes) h v = resume_drain-IsAwake e s v
step-IsAwake s (e, wakes) h v = wake-IsAwake s
step-IsAwake s (e, marks_canceled) h v = mark-IsAwake s v
step-IsAwake s (e, records id candidate) h v = record_candidate-IsAwake id candidate s v
step-IsAwake s (e, pauses id error) h v = pause-IsAwake id error s v
step-IsAwake s (e, recovers id result) h v = recover-IsAwake e id result s v
step-IsAwake s (e, fails_closed id error) h v = fail_closed_by_handle-IsAwake e id error s v
step-IsAwake s (e, completes threw) h v = executed-IsAwake e threw s v
step-IsAwake s (e, settles_ready cleanup_ok error) h v = settle_ready-IsAwake e cleanup_ok error s v

run-IsAwake :
    (s : Coordinator) (xs : List (Replies × Event)) → All IsTold xs → IsAwake s → IsAwake (run s xs)
unfolding run
run-IsAwake s [] h v = v
run-IsAwake s (x ∷ xs) h v = run-IsAwake (step s x) xs h.1 (step-IsAwake s x h.0 v)

-- After any events of a new coordinator, where the observer accepts what it is told of the operations
-- that the maintenance ends before their validation, an operation that is ready at the head of the
-- queue has its drain scheduled, unless a drain is running, which may wait for another operation, or
-- the coordinator is blocked or was deferred by its gate.
pub coordinator-IsAwake : (xs : List (Replies × Event)) → All IsTold xs → IsAwake (run create xs)
unfolding create IsAwake
coordinator-IsAwake xs h = run-IsAwake create xs h (ground arith)
