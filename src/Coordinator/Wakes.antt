-- ===== src/Coordinator/Wakes.antt =====
-- When a drain is scheduled for the operation at the head of the queue.
pub mod Methods
pub mod Runs
use pass_hub.Base.{
  All, if-elim, ◌∙◌, String, ℤ, not, Bool-cases, inl, inr, is_some, ◌||◌, ◌&&◌, ℕ, zero, suc, ◌+◌,
  ◌≤◌, Bool, true, false, Option, none, some, List, [], ◌∷◌, ◌++◌, ◌≡◌, refl, arith, ◌==◌,
  if◌then◌else◌, if-cases, ok, err,
}
use pass_hub.Quiescence.{
  Disposition, unknown_effect, business_result_persisted, prestart_rejected, known_no_effect,
}
use pass_hub.Coordinator.{
  Coordinator, Operation, Candidate, Value, WriteOperationKind, Notice, registered, queued, started,
  blocked, settled, Replies, remove, schedule_drain, note, update, Completion, failed, fulfilled,
  terminal, GateReply, allows, defers, fails, is_waiting, is_ready, is_queued, is_given, create,
  Returns, ready, paused, is_rejected, rejected, head_ready, set, new_operation,
}
use pass_hub.Coordinator.Settling.{
  reject_all, notices_of_all, reject_queued, fail_closed, finalize, finalize_unknown,
  record_candidate, notice_failed, finished, complete, failed_operation, uncurrent, is_unknown,
  is_persisted,
}
use pass_hub.Coordinator.Draining.{
  end_drain, start_operation, drain_from, continue_drain, drain, settle_run, kind_of, executed,
  resume_drain, request_post_commit_unknown_pause, wake,
}
use pass_hub.Coordinator.Provisional.{
  Registration, register_provisional, register_provisional-keeps, add_operation, activate,
  reject_before_start, consume_maintenance_validation_cancellation,
  settle_maintenance_known_no_effect, finalize_maintenance_known_no_effect, resume, resume_if_ok,
}
use pass_hub.Coordinator.Recovering.{
  adopt, business_result_persisted_by_handle, fail_closed_by_handle,
}
use pass_hub.Coordinator.Maintenance.{
  mark_all, ready_of, settle_each, settle_ready_known_no_effect,
  mark_waiting_validation_maintenance_canceled,
}
use pass_hub.Coordinator.Calls.{
  Event, enqueues, registers, activates, rejects_before_start, settles_maintenance,
  consumes_cancellation, adopts, drains, wakes, marks_canceled, records, pauses, recovers,
  fails_closed, completes, settles_ready, enqueue, then_activate, step, run,
}

-- Where nothing runs, blocks or defers, and the operation at the head is ready, a drain is
-- scheduled.
unfoldable pub IsAwake : Coordinator → Type 0
IsAwake s =
    s.blocked ≡ false
    → s.running ≡ false
    → s.deferred_by_gate ≡ false
    → head_ready s.queue s.operations ≡ true
    → s.drain_scheduled ≡ true

pub schedule_drain-IsAwake : (s : Coordinator) → IsAwake (schedule_drain s)
unfolding schedule_drain IsAwake
schedule_drain-IsAwake s = ground arith

pub end_drain-IsAwake : (s : Coordinator) → IsAwake (end_drain s)
unfolding end_drain IsAwake schedule_drain
end_drain-IsAwake s = ground arith

pub resume-IsAwake : (s : Coordinator) → IsAwake (resume s)
unfolding IsAwake schedule_drain
resume-IsAwake s = ground arith

pub fail_closed-IsAwake : (id : ℕ) (s : Coordinator) → IsAwake (fail_closed id s)
unfolding fail_closed IsAwake reject_queued
fail_closed-IsAwake id s = ground arith

pub running-IsAwake : (s : Coordinator) → s.running ≡ true → IsAwake s
unfolding IsAwake
running-IsAwake s h = ground arith

pub finalize-running :
    (e : Replies) (id : ℕ) (kind : Disposition) (s : Coordinator)
    → (finalize e id kind s).running ≡ s.running
unfolding finalize reject_queued
finalize-running e id kind s = ground arith

settled-IsAwake : (b : Bool) (s : Coordinator) → IsAwake s → IsAwake (record s { run_settled = b })
unfolding IsAwake
settled-IsAwake b s v = v

pub start_operation-IsAwake :
    (e : Replies) (id : ℕ) (s : Coordinator) → s.running ≡ true → IsAwake (start_operation e id s)
unfolding start_operation
start_operation-IsAwake e id s h =
    if-elim IsAwake (e.started_ok id) _ _ (λ _. running-IsAwake _ h)
      λ _. settled-IsAwake true _ (fail_closed-IsAwake id _)

pub drain_from-IsAwake :
    (e : Replies) (q : List ℕ) (s : Coordinator) → s.running ≡ true → IsAwake (drain_from e q s)
unfolding drain_from
drain_from-IsAwake e [] s h = end_drain-IsAwake s
drain_from-IsAwake e (id ∷ ids) s h = ground (
  arith,
  end_drain-IsAwake s,
  end_drain-IsAwake (fail_closed id s),
  end_drain-IsAwake (record s { deferred_by_gate = true }),
  start_operation-IsAwake e id (record s { queue = ids }) h,
  end_drain-IsAwake (finalize e id prestart_rejected (record s { queue = ids })),
  finalize-running e id prestart_rejected (record s { queue = ids }),
  drain_from-IsAwake e ids (finalize e id prestart_rejected (record s { queue = ids })),
)

pub settle_run-running :
    (e : Replies) (id : ℕ) (threw : Bool) (s : Coordinator)
    → (settle_run e id threw s).running ≡ s.running
unfolding settle_run finalize_unknown reject_queued
settle_run-running e id threw s =
    ground (arith, finalize-running e id (kind_of (s.operations id).candidate) s)

pub continue_drain-IsAwake :
    (e : Replies) (s : Coordinator) → s.running ≡ true → IsAwake (continue_drain e s)
unfolding continue_drain
continue_drain-IsAwake e s h = ground (arith, end_drain-IsAwake s, drain_from-IsAwake e s.queue s h)

pub executed-IsAwake :
    (e : Replies) (threw : Bool) (s : Coordinator) → IsAwake s → IsAwake (executed e threw s)
unfolding executed
executed-IsAwake e threw s v =
    elim s.current
      as (λ c. IsAwake (elim c as (λ x. Coordinator) [
        | none ↦ s
        | some id ↦
            if s.running && not s.run_settled
            then record (settle_run e id threw s) { run_settled = true }
            else s
      ])) [
        | none ↦ v
        | some id ↦
            if-elim IsAwake (s.running && not s.run_settled) _ _
              (λ h. running-IsAwake _ (settle_run-running e id threw s ∙ ground arith)) (λ _. v)
      ]

pub resume_drain-IsAwake : (e : Replies) (s : Coordinator) → IsAwake s → IsAwake (resume_drain e s)
unfolding resume_drain
resume_drain-IsAwake e s v =
    if-elim IsAwake (s.running && s.run_settled) _ _
      (λ h. continue_drain-IsAwake e (record s { run_settled = false }) (ground arith)) (λ _. v)

pub busy-IsAwake :
    (s : Coordinator)
    → (s.running || s.blocked) ≡ true
    → IsAwake (record s { drain_scheduled = false })
unfolding IsAwake
busy-IsAwake s h = ground arith

pub drain-IsAwake : (e : Replies) (s : Coordinator) → IsAwake s → IsAwake (drain e s)
unfolding drain
drain-IsAwake e s v = ground (
  arith,
  drain_from-IsAwake e s.queue (record s { drain_scheduled = false; running = true }) refl,
  busy-IsAwake s,
)
