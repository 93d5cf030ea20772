-- ===== src/Coordinator/Order/Runs.antt =====
-- The order of the queue, over any events.
use pass_hub.Base.{ℕ, List, [], ◌∷◌, ok, err, arith}
use pass_hub.Coordinator.{Coordinator, Value, Replies, Returns, create}
use pass_hub.Coordinator.Provisional.{register_provisional}
use pass_hub.Coordinator.Calls.{
  Event, enqueues, registers, activates, rejects_before_start, settles_maintenance,
  consumes_cancellation, adopts, drains, resumes, wakes, marks_canceled, records, pauses, recovers,
  fails_closed, completes, settles_ready, enqueue, then_activate, step, run,
}
use pass_hub.Coordinator.Order.{IsOrdered}
use pass_hub.Coordinator.Order.Methods.{
  drain-IsOrdered, executed-IsOrdered, resume_drain-IsOrdered, pause-IsOrdered,
  record_candidate-IsOrdered, wake-IsOrdered,
}
use pass_hub.Coordinator.Order.Methods.Handles.{
  register_provisional-IsOrdered, activate-IsOrdered, reject_before_start-IsOrdered,
  consume-IsOrdered, settle_maintenance-IsOrdered, adopt-IsOrdered, recover-IsOrdered,
  fail_closed_by_handle-IsOrdered, settle_ready-IsOrdered, mark-IsOrdered,
}

then_activate-IsOrdered :
    (e : Replies) (input : Value) (r : Returns ℕ)
    → IsOrdered r.0
    → IsOrdered (then_activate e input r)
unfolding then_activate
then_activate-IsOrdered e input (s, ok id) v = activate-IsOrdered e id input s v
then_activate-IsOrdered e input (s, err code) v = v

step-IsOrdered : (s : Coordinator) (x : Replies × Event) → IsOrdered s → IsOrdered (step s x)
unfolding step enqueue
step-IsOrdered s (e, enqueues r kind input) v =
    then_activate-IsOrdered e input (register_provisional e r kind s)
      (register_provisional-IsOrdered e r kind s v)
step-IsOrdered s (e, registers r kind) v = register_provisional-IsOrdered e r kind s v
step-IsOrdered s (e, activates id input) v = activate-IsOrdered e id input s v
step-IsOrdered s (e, rejects_before_start id error) v = reject_before_start-IsOrdered e id error s v
step-IsOrdered s (e, settles_maintenance id error) v = settle_maintenance-IsOrdered e id error s v
step-IsOrdered s (e, consumes_cancellation id) v = consume-IsOrdered id s v
step-IsOrdered s (e, adopts id) v = adopt-IsOrdered id s v
step-IsOrdered s (e, drains) v = drain-IsOrdered e s v
step-IsOrdered s (e, resumes) v = resume_drain-IsOrdered e s v
step-IsOrdered s (e, wakes) v = wake-IsOrdered s v
step-IsOrdered s (e, marks_canceled) v = mark-IsOrdered s v
step-IsOrdered s (e, records id candidate) v = record_candidate-IsOrdered id candidate s v
step-IsOrdered s (e, pauses id error) v = pause-IsOrdered id error s v
step-IsOrdered s (e, recovers id result) v = recover-IsOrdered e id result s v
step-IsOrdered s (e, fails_closed id error) v = fail_closed_by_handle-IsOrdered e id error s v
step-IsOrdered s (e, completes threw) v = executed-IsOrdered e threw s v
step-IsOrdered s (e, settles_ready cleanup_ok error) v =
    settle_ready-IsOrdered e cleanup_ok error s v

run-IsOrdered : (s : Coordinator) (xs : List (Replies × Event)) → IsOrdered s → IsOrdered (run s xs)
unfolding run
run-IsOrdered s [] v = v
run-IsOrdered s (x ∷ xs) v = run-IsOrdered (step s x) xs (step-IsOrdered s x v)

-- Operations start in the order of their registration, and each at most once: after any events of
-- a new coordinator, with any replies of its hooks and its gate, the numbers of the operations that
-- were started ascend with the time of their start, those in the queue ascend from its head, and
-- every one that was started is below every one that is still queued.
pub operations-IsOrdered : (xs : List (Replies × Event)) → IsOrdered (run create xs)
unfolding create IsOrdered
operations-IsOrdered xs = run-IsOrdered create xs (omega arith, tt)
