-- ===== src/Budget/Calls.antt =====
-- The ledger over any calls of its methods, with any permits and any behaviour of the callbacks.
use pass_hub.Base.{ℕ, List, [], ◌∷◌}
use pass_hub.Budget.{
  Config, Ledger, Replies, CommandKind, ConfirmationOrigin, ConfirmationKind, NativeOutcome,
}
use pass_hub.Budget.Execution.{
  begin_round, finish_round, admit_execution_command, finish_execution_command,
}
use pass_hub.Budget.Confirmation.{
  start_confirmation, assert_next_unknown_confirmation_kind, admit_next_unknown_confirmation,
  settle_still_unknown, settle_confirmed, settle_no_effect_confirmed,
}
use pass_hub.Budget.Native.{
  reserve_native_precommit_group, admit_native_precommit_command, finish_native_precommit_command,
  finish_native_precommit_group,
}
use pass_hub.Budget.Continuation.{Evidence, authorize_continuation, snapshot}

pub data Call : Type 0 where
  begins_round : Call
  finishes_round : ℕ → Call
  admits_command : ℕ → CommandKind → Call
  finishes_command : ℕ → Call
  starts_confirmation : ConfirmationOrigin → Call
  probes_confirmation : ConfirmationKind → Call
  admits_confirmation : Call
  settles_unknown settles_confirmed settles_no_effect : ℕ → Call
  authorizes : Evidence → Call
  reserves_group : Call
  admits_native finishes_native : ℕ → Call
  finishes_group : ℕ → NativeOutcome → Call
  snapshots : Call

unfoldable pub step : Config → Ledger → Replies × Call → Ledger
step c l (e, begins_round) = (begin_round c e l).0
step c l (e, finishes_round p) = (finish_round e p l).0
step c l (e, admits_command p k) = (admit_execution_command c e p k l).0
step c l (e, finishes_command p) = (finish_execution_command e p l).0
step c l (e, starts_confirmation o) = (start_confirmation c e o l).0
step c l (e, probes_confirmation k) = (assert_next_unknown_confirmation_kind c e k l).0
step c l (e, admits_confirmation) = (admit_next_unknown_confirmation c e l).0
step c l (e, settles_unknown p) = (settle_still_unknown e p l).0
step c l (e, settles_confirmed p) = (settle_confirmed e p l).0
step c l (e, settles_no_effect p) = (settle_no_effect_confirmed e p l).0
step c l (e, authorizes evidence) = (authorize_continuation c e evidence l).0
step c l (e, reserves_group) = (reserve_native_precommit_group c e l).0
step c l (e, admits_native p) = (admit_native_precommit_command e p l).0
step c l (e, finishes_native p) = (finish_native_precommit_command e p l).0
step c l (e, finishes_group p o) = (finish_native_precommit_group e p o l).0
step c l (e, snapshots) = (snapshot e l).0

unfoldable pub run : Config → Ledger → List (Replies × Call) → Ledger
run c l [] = l
run c l (x ∷ xs) = run c (step c l x) xs
