-- ===== src/Coordinator/Tests.antt =====
-- Two operations through the coordinator, the second behind a failure or a lost notice.
use pass_hub.Base.{true, false, some, ◌≡◌, refl, List, [], ◌∷◌, ℕ_discrete, String-discrete, pos}
use pass_hub.Quiescence.{known_no_effect}
use pass_hub.Coordinator.{
  Coordinator, management_create, recognition, value, Replies, allows, create, is_queued, remove,
  schedule_drain,
}
use pass_hub.Coordinator.Settling.{
  reject_queued, fail_closed, finalize, finalize_unknown, record_candidate,
}
use pass_hub.Coordinator.Draining.{
  end_drain, start_operation, drain_from, continue_drain, drain, settle_run, executed, resume_drain,
  request_post_commit_unknown_pause,
}
use pass_hub.Coordinator.Provisional.{
  Registration, register_provisional, activate, add_operation, create_unique_operation_id,
  finalize_maintenance_known_no_effect, settle_maintenance_known_no_effect,
}
use pass_hub.Coordinator.Recovering.{
  adopt, assert_handle_current, business_result_persisted_by_handle,
  finalize_recovered_business_result,
}
use pass_hub.Coordinator.Calls.{
  Event, registers, activates, settles_maintenance, adopts, drains, resumes, records, pauses,
  recovers, completes, enqueues, enqueue, then_activate, step, run,
}
use pass_hub.Coordinator.Order.{IsOrdered}
use pass_hub.Coordinator.Order.Runs.{operations-IsOrdered}
use pass_hub.Coordinator.Wakes.{IsAwake}
use pass_hub.Coordinator.Wakes.Runs.{coordinator-IsAwake}

abbrev fine : Replies
fine = record {
  registered_ok = true;
  queued_ok = true;
  started_ok = λ id. true;
  settled_ok = λ id. true;
  gate = λ id. allows;
}

abbrev unregistered : Replies
unregistered = record fine { registered_ok = false }

abbrev untold : Replies
untold = record fine { settled_ok = λ id. false }

abbrev with_id : Registration
with_id = record { clock = some (pos 7); monotonic_ok = true; draws = λ k. "a" }

abbrev with_other_id : Registration
with_other_id = record { clock = some (pos 8); monotonic_ok = true; draws = λ k. "b" }

abbrev two_operations : List (Replies × Event)
two_operations =
    (fine, registers with_id recognition)
    ∷ (fine, enqueues with_other_id management_create (value 1))
    ∷ (fine, drains)
    ∷ (fine, activates 0 (value 2))
    ∷ (fine, drains)
    ∷ (fine, records 0 (record { kind = known_no_effect; content = value 3 }))
    ∷ (fine, completes false)
    ∷ (fine, resumes)
    ∷ []

two_operations_start : (run create two_operations).current ≡ some 1
unfolding create run step enqueue then_activate register_provisional add_operation
    create_unique_operation_id activate drain drain_from start_operation end_drain continue_drain
    executed resume_drain settle_run finalize finalize_unknown fail_closed reject_queued
    schedule_drain record_candidate request_post_commit_unknown_pause adopt
    business_result_persisted_by_handle finalize_recovered_business_result assert_handle_current
    settle_maintenance_known_no_effect finalize_maintenance_known_no_effect is_queued remove
    String-discrete ℕ_discrete
two_operations_start = refl

operations-IsOrdered_example : IsOrdered (run create two_operations)
operations-IsOrdered_example = operations-IsOrdered two_operations

coordinator-IsAwake_example : IsAwake (run create two_operations)
coordinator-IsAwake_example =
    coordinator-IsAwake two_operations (tt, (tt, (tt, (tt, (tt, (tt, (tt, (tt, tt))))))))

-- A hook that failed has blocked the coordinator for good, but a later recovery reopens it.
reopened :
    (run create (
      (fine, enqueues with_id recognition (value 1))
      ∷ (fine, drains)
      ∷ (unregistered, registers with_other_id recognition)
      ∷ (fine, pauses 0 (value 2))
      ∷ (fine, completes false)
      ∷ (fine, resumes)
      ∷ (fine, adopts 0)
      ∷ (fine, recovers 0 (value 3))
      ∷ [])).blocked
    ≡ false
unfolding create run step enqueue then_activate register_provisional add_operation
    create_unique_operation_id activate drain drain_from start_operation end_drain continue_drain
    executed resume_drain settle_run finalize finalize_unknown fail_closed reject_queued
    schedule_drain record_candidate request_post_commit_unknown_pause adopt
    business_result_persisted_by_handle finalize_recovered_business_result assert_handle_current
    settle_maintenance_known_no_effect finalize_maintenance_known_no_effect is_queued remove
    String-discrete ℕ_discrete
reopened = refl

-- A recovery that ends between the pause of its operation and the next turn of the drain: the same
-- drain goes on with the operation that was registered in between.
recovered_between_turns :
    (run create (
      (fine, enqueues with_id recognition (value 1))
      ∷ (fine, drains)
      ∷ (fine, pauses 0 (value 2))
      ∷ (fine, adopts 0)
      ∷ (fine, completes false)
      ∷ (fine, recovers 0 (value 3))
      ∷ (fine, enqueues with_other_id recognition (value 4))
      ∷ (fine, resumes)
      ∷ [])).current
    ≡ some 1
unfolding create run step enqueue then_activate register_provisional add_operation
    create_unique_operation_id activate drain drain_from start_operation end_drain continue_drain
    executed resume_drain settle_run finalize finalize_unknown fail_closed reject_queued
    schedule_drain record_candidate request_post_commit_unknown_pause adopt
    business_result_persisted_by_handle finalize_recovered_business_result assert_handle_current
    settle_maintenance_known_no_effect finalize_maintenance_known_no_effect is_queued remove
    String-discrete ℕ_discrete
recovered_between_turns = refl

-- Where the observer fails on an operation that the maintenance ends, the operation behind it is
-- ready, and no drain is scheduled for it.
abbrev asleep : Coordinator
asleep = run create (
    (fine, registers with_id recognition)
    ∷ (fine, enqueues with_other_id recognition (value 1))
    ∷ (fine, drains)
    ∷ (untold, settles_maintenance 0 (value 2))
    ∷ [])

asleep_lem :
    (asleep.queue ≡ 1 ∷ [])
    × (asleep.drain_scheduled ≡ false)
    × (asleep.blocked ≡ false)
    × (asleep.running ≡ false)
unfolding create run step enqueue then_activate register_provisional add_operation
    create_unique_operation_id activate drain drain_from start_operation end_drain continue_drain
    executed resume_drain settle_run finalize finalize_unknown fail_closed reject_queued
    schedule_drain record_candidate request_post_commit_unknown_pause adopt
    business_result_persisted_by_handle finalize_recovered_business_result assert_handle_current
    settle_maintenance_known_no_effect finalize_maintenance_known_no_effect is_queued remove
    String-discrete ℕ_discrete
asleep_lem = (refl, refl, refl, refl)
