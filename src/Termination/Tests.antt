-- ===== src/Termination/Tests.antt =====
-- The lifecycle on a budget ledger: an abort before the commit, and an unknown commit.
use pass_hub.Base.{length, ◌≤◌, ℕ, true, List, [], ◌∷◌, ◌≡◌, refl, pos, lookup, insert, ℕ_discrete}
use pass_hub.Budget.{
  default_config, Ledger, Replies, ErrorCode, is_current, accepts, reads, precommit_cleanup,
  NativeOutcome, transition, read_now, require, add_deadline,
}
use pass_hub.Budget
use pass_hub.Budget.Execution.{begin_round, finish_round}
use pass_hub.Budget.Confirmation.{start_confirmation}
use pass_hub.Budget.Calls.{begins_round, finishes_round, starts_confirmation}
use pass_hub.Budget.Calls
use pass_hub.Budget.Native.{
  reserve_native_precommit_group, admit_native_precommit_command, finish_native_precommit_command,
  finish_native_precommit_group,
}
use pass_hub.Termination.{
  precommit, commit_unknown, terminated, NativeGroups, Lifecycle, create, call_native,
  require_group,
}
use pass_hub.Termination.Methods.{
  seal_scope, reserve_group, reserve_abort_group, start_command, execute_abort, close_command,
  settle_command, end_group, terminate, close_unknown_commit,
}
use pass_hub.Termination
use pass_hub.Termination.Calls.{
  Event, seals, reserves, closes, executes, settles, terminates, others, step, run,
}
use pass_hub.Termination.Closing.{used_by_others}
use pass_hub.Termination.Closing.Runs.{unknown_commit-IsApart, end_of_lifecycle_is_final}
use pass_hub.Termination.Native.{budget_groups, attempts, budget_groups-CountsAttempts}
use pass_hub.Termination.Bounded.{CountsAttempts}
use pass_hub.Termination.Bounded.Runs.{at_most_two_aborts}

abbrev at : ℕ → Replies
at now = record { owner = is_current; clock = reads (pos now); verifier = accepts }

abbrev to_cleanup : Ledger → Ledger
to_cleanup l = Calls.run default_config l (
    (at 5000, begins_round)
    ∷ (at 5100, finishes_round 0)
    ∷ (at 5200, starts_confirmation precommit_cleanup)
    ∷ [])

abbrev fresh : Ledger
fresh = Budget.create default_config

abbrev groups : ℕ → NativeGroups Ledger ErrorCode
groups now = budget_groups default_config (at now)

abbrev aborted : List (NativeGroups Ledger ErrorCode × Event Ledger)
aborted =
    (groups 5000, others to_cleanup)
    ∷ (groups 5300, seals true precommit)
    ∷ (groups 5300, reserves true)
    ∷ (groups 5400, executes true 0)
    ∷ (groups 5500, settles true 1)
    ∷ (groups 5600, terminates true 0 NativeOutcome.no_effect_confirmed)
    ∷ []

abbrev after_the_end : List (NativeGroups Ledger ErrorCode × Event Ledger)
after_the_end =
    (groups 5700, reserves true)
    ∷ (groups 5700, executes true 0)
    ∷ (groups 5800, settles true 1)
    ∷ []

abbrev unknown : List (NativeGroups Ledger ErrorCode × Event Ledger)
unknown =
    (groups 5000, seals true commit_unknown)
    ∷ (groups 5000, others to_cleanup)
    ∷ (groups 5300, reserves true)
    ∷ (groups 5400, executes true 0)
    ∷ (groups 5500, closes true)
    ∷ []

end_of_lifecycle_is_final_example :
    ((run (run (create fresh) aborted) after_the_end).phase ≡ terminated)
    × ((run (run (create fresh) aborted) after_the_end).ledger
        ≡ used_by_others after_the_end (run (create fresh) aborted).ledger)
unfolding run step seal_scope reserve_abort_group execute_abort settle_command terminate
    close_unknown_commit require_group call_native reserve_group start_command close_command
    end_group Termination.transition budget_groups reserve_native_precommit_group
    admit_native_precommit_command finish_native_precommit_command finish_native_precommit_group
    Calls.run Calls.step begin_round finish_round start_confirmation Budget.create transition
    read_now add_deadline require lookup insert ℕ_discrete
end_of_lifecycle_is_final_example = end_of_lifecycle_is_final fresh aborted after_the_end refl

unknown_commit-IsApart_example : (run (create fresh) unknown).ledger ≡ used_by_others unknown fresh
unfolding run step seal_scope reserve_abort_group execute_abort settle_command terminate
    close_unknown_commit require_group call_native reserve_group start_command close_command
    end_group Termination.transition budget_groups reserve_native_precommit_group
    admit_native_precommit_command finish_native_precommit_command finish_native_precommit_group
    Calls.run Calls.step begin_round finish_round start_confirmation Budget.create transition
    read_now add_deadline require lookup insert ℕ_discrete
unknown_commit-IsApart_example = unknown_commit-IsApart fresh unknown refl

abbrev kept : (now : ℕ) → CountsAttempts (groups now) attempts
kept now = budget_groups-CountsAttempts default_config (at now)

-- Two commands are sent, and a third is refused.
abbrev three_sends : List (NativeGroups Ledger ErrorCode × Event Ledger)
three_sends =
    (groups 5300, seals true precommit)
    ∷ (groups 5300, reserves true)
    ∷ (groups 5400, executes true 0)
    ∷ (groups 5500, settles true 1)
    ∷ (groups 5600, executes true 0)
    ∷ (groups 5700, settles true 2)
    ∷ (groups 5800, executes true 0)
    ∷ []

two_sent : length (run (create (to_cleanup fresh)) three_sends).commands ≡ 2
unfolding run step seal_scope reserve_abort_group execute_abort settle_command terminate
    close_unknown_commit require_group call_native reserve_group start_command close_command
    end_group Termination.transition budget_groups reserve_native_precommit_group
    admit_native_precommit_command finish_native_precommit_command finish_native_precommit_group
    Calls.run Calls.step begin_round finish_round start_confirmation Budget.create transition
    read_now add_deadline require lookup insert ℕ_discrete
two_sent = refl

at_most_two_aborts_example : length (run (create (to_cleanup fresh)) three_sends).commands ≤ 2
at_most_two_aborts_example = at_most_two_aborts attempts (to_cleanup fresh) three_sends (
  (kept 5300, tt),
  (
    (kept 5300, tt),
    (
      (kept 5400, tt),
      ((kept 5500, tt), ((kept 5600, tt), ((kept 5700, tt), ((kept 5800, tt), tt)))),
    ),
  ),
)
