-- ===== src/Budget/Tests.antt =====
-- One operation that loses its result, confirms that it had no effect, and goes on.
use pass_hub.Base.{
  ℕ, ◌+◌, true, some, ◌≡◌, ◌≢◌, refl, List, [], ◌∷◌, ◌++◌, ok, err, pos, lookup, insert, ℕ_discrete,
}
use pass_hub.Budget.{
  default_config, Ledger, Replies, is_current, accepts, ClockReply, reads, crud, unknown_result,
  permit_already_used, create, transition, read_now, require, add_deadline,
}
use pass_hub.Budget.Execution.{
  begin_round, finish_round, admit_execution_command, finish_execution_command,
}
use pass_hub.Budget.Confirmation.{
  start_confirmation, admit_next_unknown_confirmation, settle_still_unknown,
  settle_no_effect_confirmed,
}
use pass_hub.Budget.Continuation.{opaque, authorize_continuation}
use pass_hub.Budget.Calls.{
  Call, step, run, begins_round, finishes_round, admits_command, finishes_command,
  starts_confirmation, admits_confirmation, settles_unknown, settles_no_effect, authorizes,
}
use pass_hub.Budget.Flight.{Inv}
use pass_hub.Budget.Flight.Calls.{budget_calls-Inv}
use pass_hub.Budget.Limits.Calls.{
  slots_spent, slots_accounted, no_command_after_confirmation, budget_frozen_absorbs,
}
use pass_hub.Budget.Permits.{InTime, command_finished_once, command-InTime}

abbrev at : ℕ → Replies
at now = record { owner = is_current; clock = reads (pos now); verifier = accepts }

abbrev stopped_clock : Replies
stopped_clock = record { owner = is_current; clock = ClockReply.throws; verifier = accepts }

abbrev to_confirmation : List (Replies × Call)
to_confirmation =
    (at 5000, begins_round)
    ∷ (at 5000, admits_command 0 crud)
    ∷ (at 5100, finishes_command 1)
    ∷ (at 5100, finishes_round 0)
    ∷ (at 5200, starts_confirmation unknown_result)
    ∷ []

abbrev to_next_round : List (Replies × Call)
to_next_round =
    (at 5300, admits_confirmation)
    ∷ (at 5400, settles_unknown 2)
    ∷ (at 6500, admits_confirmation)
    ∷ (at 6600, settles_no_effect 3)
    ∷ (at 6700, authorizes (opaque 9))
    ∷ (at 6800, begins_round)
    ∷ []

abbrev whole : List (Replies × Call)
whole = to_confirmation ++ to_next_round

abbrev confirming : Ledger
confirming = run default_config (create default_config) to_confirmation

abbrev frozen_ledger : Ledger
frozen_ledger = run default_config (create default_config) ((stopped_clock, begins_round) ∷ [])

abbrev in_round : Ledger
in_round = run default_config (create default_config) ((at 5000, begins_round) ∷ [])

abbrev in_command : Ledger
in_command = (admit_execution_command default_config (at 19000) 0 crud in_round).0

next_round_started : (run default_config confirming to_next_round).active_round ≡ some 4
unfolding run step create begin_round finish_round admit_execution_command finish_execution_command
    start_confirmation admit_next_unknown_confirmation settle_still_unknown
    settle_no_effect_confirmed authorize_continuation transition read_now require add_deadline
    lookup insert ℕ_discrete
next_round_started = refl

budget_calls-Inv_example : Inv default_config (run default_config (create default_config) whole)
budget_calls-Inv_example = budget_calls-Inv default_config whole

two_slots_spent : slots_spent default_config (create default_config) whole ≡ 2
unfolding slots_spent run step create begin_round finish_round admit_execution_command
    finish_execution_command start_confirmation admit_next_unknown_confirmation settle_still_unknown
    settle_no_effect_confirmed authorize_continuation transition read_now require add_deadline
    lookup insert ℕ_discrete
two_slots_spent = refl

slots_accounted_example :
    (run default_config (create default_config) whole).confirmation_slots_remaining
      + slots_spent default_config (create default_config) whole
    ≡ 7
slots_accounted_example = slots_accounted default_config whole

no_command_after_confirmation_example :
    admit_execution_command default_config
      (at 6900)
      4
      crud
      (run default_config confirming to_next_round)
    ≢ (confirming, ok 5)
unfolding run step create begin_round finish_round admit_execution_command finish_execution_command
    start_confirmation admit_next_unknown_confirmation settle_still_unknown
    settle_no_effect_confirmed authorize_continuation transition read_now require add_deadline
    lookup insert ℕ_discrete
no_command_after_confirmation_example =
    no_command_after_confirmation default_config confirming to_next_round (at 6900) 4 crud
      confirming 5 refl

budget_frozen_absorbs_example : run default_config frozen_ledger to_confirmation ≡ frozen_ledger
unfolding run step create begin_round finish_round admit_execution_command finish_execution_command
    start_confirmation admit_next_unknown_confirmation settle_still_unknown
    settle_no_effect_confirmed authorize_continuation transition read_now require add_deadline
    lookup insert ℕ_discrete
budget_frozen_absorbs_example =
    budget_frozen_absorbs default_config frozen_ledger to_confirmation refl

command_finished_once_example :
    finish_execution_command (at 19200) 1 (finish_execution_command (at 19100) 1 in_command).0 ≡ (
      record (finish_execution_command (at 19100) 1 in_command).0 { frozen = true },
      err permit_already_used,
    )
unfolding run step create begin_round finish_round admit_execution_command finish_execution_command
    start_confirmation admit_next_unknown_confirmation settle_still_unknown
    settle_no_effect_confirmed authorize_continuation transition read_now require add_deadline
    lookup insert ℕ_discrete
command_finished_once_example = command_finished_once (at 19100) (at 19200) 1 in_command _ refl refl

command-InTime_example :
    InTime default_config 0 in_command 1 19000 20000
      (record { round = 0; kind = crud; timeout_ms = 1000; active = true })
unfolding run step create begin_round finish_round admit_execution_command finish_execution_command
    start_confirmation admit_next_unknown_confirmation settle_still_unknown
    settle_no_effect_confirmed authorize_continuation transition read_now require add_deadline
    lookup insert ℕ_discrete
command-InTime_example =
    command-InTime default_config (at 19000) 0 crud in_round in_command 1 19000 20000 _ refl refl
      refl refl
