-- ===== src/Coordinator/Order/Methods.antt =====
-- The order of the queue, over the drain and what it runs.
pub mod Handles
use pass_hub.Base.{
  String, ℤ, not, Bool-cases, inl, inr, is_some, ◌||◌, ◌&&◌, ℕ, zero, suc, ◌+◌, ◌≤◌, Bool, true,
  false, Option, none, some, List, [], ◌∷◌, ◌++◌, ◌≡◌, refl, arith, ◌==◌, if◌then◌else◌, if-cases,
  ok, err,
}
use pass_hub.Quiescence.{
  Disposition, unknown_effect, business_result_persisted, prestart_rejected, known_no_effect,
}
use pass_hub.Coordinator.{
  Coordinator, Operation, Candidate, Value, WriteOperationKind, Notice, registered, queued, started,
  blocked, settled, Replies, remove, schedule_drain, note, update, Completion, failed, fulfilled,
  terminal, GateReply, allows, defers, fails, is_waiting, Returns, ready, paused, is_rejected,
  rejected, head_ready, set, new_operation,
}
use pass_hub.Coordinator.Settling.{
  reject_all, notices_of_all, reject_queued, fail_closed, finalize, finalize_unknown,
  record_candidate, notice_failed, finished, complete, failed_operation, uncurrent, is_unknown,
  is_persisted,
}
use pass_hub.Coordinator.Draining.{
  end_drain, start_operation, drain_from, continue_drain, drain, settle_run, kind_of, executed,
  resume_drain, request_post_commit_unknown_pause, wake,
}
use pass_hub.Coordinator.Provisional.{
  Registration, register_provisional, register_provisional-keeps, add_operation, activate,
  reject_before_start, consume_maintenance_validation_cancellation,
  settle_maintenance_known_no_effect, finalize_maintenance_known_no_effect, resume, resume_if_ok,
}
use pass_hub.Coordinator.Recovering.{
  adopt, business_result_persisted_by_handle, fail_closed_by_handle,
}
use pass_hub.Coordinator.Maintenance.{
  ready_of, settle_each, settle_ready_known_no_effect, mark_waiting_validation_maintenance_canceled,
}
use pass_hub.Coordinator.Order.{
  IsOrdered, next_after, Between-weaken, Between-append, Between-remove, reject_queued-IsOrdered,
  update-IsOrdered, complete-IsOrdered, told-IsOrdered, removed-IsOrdered, flags-IsOrdered,
  notice_failed-IsOrdered, fail_closed-IsOrdered, finalize-IsOrdered, finalize_unknown-IsOrdered,
  schedule_drain-IsOrdered,
}

pub end_drain-IsOrdered : (s : Coordinator) → IsOrdered s → IsOrdered (end_drain s)
unfolding end_drain
end_drain-IsOrdered s v =
    let stopped =
      flags-IsOrdered s.blocked s.drain_scheduled s.deferred_by_gate false s.next_sequence s.current
        s v in
    ground (arith, stopped, schedule_drain-IsOrdered _ stopped)

pub started-IsOrdered :
    (id : ℕ) (ids : List ℕ) (operations : ℕ → Operation) (s : Coordinator)
    → s.queue ≡ id ∷ ids
    → IsOrdered s
    → IsOrdered (record s {
      queue = ids;
      operations = operations;
      current = some id;
      notices = started id ∷ s.notices;
    })
unfolding IsOrdered
started-IsOrdered id ids operations s q v = ground arith

pub shifted-IsOrdered :
    (id : ℕ) (ids : List ℕ) (s : Coordinator)
    → s.queue ≡ id ∷ ids
    → IsOrdered s
    → IsOrdered (record s { queue = ids })
unfolding IsOrdered
shifted-IsOrdered id ids s q v =
    ground (arith, Between-weaken (suc id) (next_after s.notices) s.minted ids)

pub finalize-queue :
    (e : Replies) (id : ℕ) (kind : Disposition) (s : Coordinator)
    → (finalize e id kind s).blocked ≡ false
    → (finalize e id kind s).queue ≡ s.queue
unfolding finalize reject_queued
finalize-queue e id kind s h = ground arith

settled-IsOrdered :
    (b : Bool) (s : Coordinator) → IsOrdered s → IsOrdered (record s { run_settled = b })
unfolding IsOrdered
settled-IsOrdered b s v = v

pub start_operation-IsOrdered :
    (e : Replies) (id : ℕ) (ids : List ℕ) (s : Coordinator)
    → s.queue ≡ id ∷ ids
    → IsOrdered s
    → IsOrdered (start_operation e id (record s { queue = ids }))
unfolding start_operation
start_operation-IsOrdered e id ids s q v =
    let now =
      started-IsOrdered id ids (set id (record (s.operations id) { active = true }) s.operations) s
        q v in
    if-cases IsOrdered (e.started_ok id) _ _ now
      (settled-IsOrdered true _ (fail_closed-IsOrdered id _ now))

pub drain_from-IsOrdered :
    (e : Replies) (q : List ℕ) (s : Coordinator)
    → s.queue ≡ q
    → IsOrdered s
    → IsOrdered (drain_from e q s)
unfolding drain_from
drain_from-IsOrdered e [] s q v = end_drain-IsOrdered s v
drain_from-IsOrdered e (id ∷ ids) s q v =
    let refused = finalize-IsOrdered e id prestart_rejected _ (shifted-IsOrdered id ids s q v) in
    ground (
      arith,
      end_drain-IsOrdered s v,
      end_drain-IsOrdered _ (fail_closed-IsOrdered id s v),
      end_drain-IsOrdered _ (
          flags-IsOrdered s.blocked s.drain_scheduled true s.running s.next_sequence s.current s v),
      start_operation-IsOrdered e id ids s q v,
      end_drain-IsOrdered _ refused,
      finalize-queue e id prestart_rejected (record s { queue = ids }),
      λ (h : (finalize e id prestart_rejected (record s { queue = ids })).queue ≡ ids).
          drain_from-IsOrdered e ids (finalize e id prestart_rejected (record s { queue = ids })) h
            refused,
    )

pub continue_drain-IsOrdered :
    (e : Replies) (s : Coordinator) → IsOrdered s → IsOrdered (continue_drain e s)
unfolding continue_drain
continue_drain-IsOrdered e s v =
    ground (arith, end_drain-IsOrdered s v, drain_from-IsOrdered e s.queue s refl v)

pub drain-IsOrdered : (e : Replies) (s : Coordinator) → IsOrdered s → IsOrdered (drain e s)
unfolding drain
drain-IsOrdered e s v =
    let begun =
      flags-IsOrdered s.blocked false s.deferred_by_gate true s.next_sequence s.current s v in
    ground (
      arith,
      flags-IsOrdered s.blocked false s.deferred_by_gate s.running s.next_sequence s.current s v,
      drain_from-IsOrdered e s.queue (record s { drain_scheduled = false; running = true }) refl
          begun,
    )

pub paused-IsOrdered :
    (operations : ℕ → Operation) (s : Coordinator)
    → IsOrdered s
    → IsOrdered (record s { operations = operations; blocked = true })
unfolding IsOrdered
paused-IsOrdered operations s v = v

pub settle_run-IsOrdered :
    (e : Replies) (id : ℕ) (threw : Bool) (s : Coordinator)
    → IsOrdered s
    → IsOrdered (settle_run e id threw s)
unfolding settle_run
settle_run-IsOrdered e id threw s v = ground (
  arith,
  finalize_unknown-IsOrdered e id s v,
  finalize-IsOrdered e id (kind_of (s.operations id).candidate) s v,
  paused-IsOrdered (set id (record (s.operations id) { recovery_phase = paused }) s.operations) s v,
)

pub executed-IsOrdered :
    (e : Replies) (threw : Bool) (s : Coordinator) → IsOrdered s → IsOrdered (executed e threw s)
unfolding executed
executed-IsOrdered e threw s v =
    elim s.current
      as (λ c. IsOrdered (elim c as (λ x. Coordinator) [
        | none ↦ s
        | some id ↦
            if s.running && not s.run_settled
            then record (settle_run e id threw s) { run_settled = true }
            else s
      ])) [
        | none ↦ v
        | some id ↦
            if-cases IsOrdered (s.running && not s.run_settled) _ _
              (settled-IsOrdered true _ (settle_run-IsOrdered e id threw s v)) v
      ]

pub resume_drain-IsOrdered :
    (e : Replies) (s : Coordinator) → IsOrdered s → IsOrdered (resume_drain e s)
unfolding resume_drain
resume_drain-IsOrdered e s v =
    if-cases IsOrdered (s.running && s.run_settled) _ _
      (continue_drain-IsOrdered e _ (settled-IsOrdered false s v)) v

pub pause-IsOrdered :
    (id : ℕ) (error : Value) (s : Coordinator)
    → IsOrdered s
    → IsOrdered (request_post_commit_unknown_pause id error s).0
unfolding request_post_commit_unknown_pause IsOrdered
pause-IsOrdered id error s v = ground arith

pub record_candidate-IsOrdered :
    (id : ℕ) (c : Candidate) (s : Coordinator) → IsOrdered s → IsOrdered (record_candidate id c s)
unfolding record_candidate IsOrdered
record_candidate-IsOrdered id c s v = ground arith

pub wake-IsOrdered : (s : Coordinator) → IsOrdered s → IsOrdered (wake s)
unfolding wake
wake-IsOrdered s v =
    schedule_drain-IsOrdered _
      (flags-IsOrdered s.blocked s.drain_scheduled false s.running s.next_sequence s.current s v)

pub added-IsOrdered :
    (operations : ℕ → Operation) (ids : List String) (s : Coordinator)
    → IsOrdered s
    → IsOrdered (record s {
      queue = s.queue ++ (s.minted ∷ []);
      operations = operations;
      issued_operation_ids = ids;
      minted = s.minted + 1;
      notices = registered s.minted ∷ s.notices;
    })
unfolding IsOrdered
added-IsOrdered operations ids s v =
    ground (arith, Between-append (next_after s.notices) s.minted s.queue v.0)
