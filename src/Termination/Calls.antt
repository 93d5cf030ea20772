-- ===== src/Termination/Calls.antt =====
-- The lifecycle over any events, between which others use the ledger.
use pass_hub.Base.{ℕ, Bool, List, [], ◌∷◌}
use pass_hub.Budget.{NativeOutcome}
use pass_hub.Termination.{Scope, NativeGroups, Lifecycle}
use pass_hub.Termination.Methods.{
  seal_scope, reserve_abort_group, execute_abort, settle_command, terminate, close_unknown_commit,
  snapshot,
}

-- Each method with what the owner fence answers; permits and commands by their numbers.
pub data Event (L : Type 0) : Type 0 where
  seals : Bool → Scope → Event L
  reserves closes snapshots : Bool → Event L
  executes settles : Bool → ℕ → Event L
  terminates : Bool → ℕ → NativeOutcome → Event L
  others : (L → L) → Event L

module _ {L E : Type 0} where
  unfoldable pub step : Lifecycle L → NativeGroups L E × Event L → Lifecycle L
  step s (ops, seals owner scope) = (seal_scope {E = E} owner scope s).0
  step s (ops, reserves owner) = (reserve_abort_group ops owner s).0
  step s (ops, executes owner permit) = (execute_abort ops owner permit s).0
  step s (ops, settles owner id) = (settle_command ops owner id s).0
  step s (ops, terminates owner permit outcome) = (terminate ops owner permit outcome s).0
  step s (ops, closes owner) = (close_unknown_commit {E = E} owner s).0
  step s (ops, snapshots owner) = (snapshot {E = E} owner s).0
  step s (ops, others f) = record s { ledger = f s.ledger }

  unfoldable pub run : Lifecycle L → List (NativeGroups L E × Event L) → Lifecycle L
  unfolding step
  run s [] = s
  run s (x ∷ xs) = run (step s x) xs
