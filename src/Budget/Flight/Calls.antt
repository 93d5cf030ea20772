-- ===== src/Budget/Flight/Calls.antt =====
-- What is in flight, over any calls.
use pass_hub.Base.{List, [], ◌∷◌}
use pass_hub.Budget.{Config, Ledger, Replies, create}
use pass_hub.Budget.Calls.{
  Call, step, run, begins_round, finishes_round, admits_command, finishes_command,
  starts_confirmation, probes_confirmation, admits_confirmation, settles_unknown, settles_confirmed,
  settles_no_effect, authorizes, reserves_group, admits_native, finishes_native, finishes_group,
  snapshots,
}
use pass_hub.Budget.Flight.{Inv, create-Inv}
use pass_hub.Budget.Flight.Commands.{
  begin_round-Inv, finish_round-Inv, admit_execution_command-Inv, finish_execution_command-Inv,
  start_confirmation-Inv, assert_next_unknown_confirmation_kind-Inv,
  admit_next_unknown_confirmation-Inv, settle_still_unknown-Inv, settle_confirmed-Inv,
  settle_no_effect_confirmed-Inv,
}
use pass_hub.Budget.Flight.Groups.{
  authorize_continuation-Inv, reserve_native_precommit_group-Inv,
  admit_native_precommit_command-Inv, finish_native_precommit_command-Inv,
  finish_native_precommit_group-Inv, snapshot-Inv,
}

step-Inv : (c : Config) (l : Ledger) (x : Replies × Call) → Inv c l → Inv c (step c l x)
unfolding step
step-Inv c l (e, begins_round) v = begin_round-Inv c e l v
step-Inv c l (e, finishes_round p) v = finish_round-Inv c e l v p
step-Inv c l (e, admits_command p k) v = admit_execution_command-Inv c e l v p k
step-Inv c l (e, finishes_command p) v = finish_execution_command-Inv c e l v p
step-Inv c l (e, starts_confirmation o) v = start_confirmation-Inv c e l v o
step-Inv c l (e, probes_confirmation k) v = assert_next_unknown_confirmation_kind-Inv c e l v k
step-Inv c l (e, admits_confirmation) v = admit_next_unknown_confirmation-Inv c e l v
step-Inv c l (e, settles_unknown p) v = settle_still_unknown-Inv c e l v p
step-Inv c l (e, settles_confirmed p) v = settle_confirmed-Inv c e l v p
step-Inv c l (e, settles_no_effect p) v = settle_no_effect_confirmed-Inv c e l v p
step-Inv c l (e, authorizes evidence) v = authorize_continuation-Inv c e l v evidence
step-Inv c l (e, reserves_group) v = reserve_native_precommit_group-Inv c e l v
step-Inv c l (e, admits_native p) v = admit_native_precommit_command-Inv c e l v p
step-Inv c l (e, finishes_native p) v = finish_native_precommit_command-Inv c e l v p
step-Inv c l (e, finishes_group p o) v = finish_native_precommit_group-Inv c e l v p o
step-Inv c l (e, snapshots) v = snapshot-Inv c e l v

run-Inv : (c : Config) (l : Ledger) (xs : List (Replies × Call)) → Inv c l → Inv c (run c l xs)
unfolding run
run-Inv c l [] v = v
run-Inv c l (x ∷ xs) v = run-Inv c (step c l x) xs (step-Inv c l x v)

-- After any calls of the methods of a new ledger, with any permits and any answers of the
-- callbacks: an execution command is in flight only before the confirmation has started, a
-- confirmation or a native group only after it, and these two never together; the confirmation
-- starts only after a first round, and the rounds started are at most `max_rounds`.
pub budget_calls-Inv : (c : Config) (xs : List (Replies × Call)) → Inv c (run c (create c) xs)
budget_calls-Inv c xs = run-Inv c (create c) xs (create-Inv c)
