-- ===== src/Termination/Closing.antt =====
-- The lifecycle after an unknown commit, and after its end.
pub mod Runs
use pass_hub.Base.{
  ℕ, ◌+◌, Bool, true, false, not, ◌&&◌, ◌||◌, Option, none, some, List, [], ◌∷◌, Result, ok, err,
  lookup, insert, ℕ_discrete, arith, ◌≡◌, refl, ◌⊎◌, inl, inr, if-cases, is_some,
}
use pass_hub.Budget.{NativeOutcome}
use pass_hub.Termination.{
  Scope, precommit, commit_unknown, Phase, open_phase, sealed_precommit, sealed_commit_unknown,
  terminated, ErrorCode, NativeGroups, GroupState, CommandState, Lifecycle, create, names,
  is_current, is_sealed_precommit, is_commit_unknown, deny, fail_closed, transition, call_native,
  require_group,
}
use pass_hub.Termination.Methods.{
  seal_scope, reserve_group, reserve_abort_group, start_command, execute_abort, close_command,
  settle_command, end_group, terminate, close_unknown_commit, snapshot,
}
use pass_hub.Termination.Calls.{
  Event, seals, reserves, closes, executes, settles, terminates, others, step, run,
}

-- No phase in which a group may be reserved comes again.
unfoldable pub is_closed : Phase → Bool
is_closed sealed_commit_unknown = true
is_closed terminated = true
is_closed _ = false

abbrev pub is_open : Phase → Bool
is_open open_phase = true
is_open _ = false

-- A lifecycle that holds no group and takes no other.
unfoldable pub IsClosed : {L : Type 0} → Lifecycle L → Type 0
unfolding is_closed
IsClosed s = (s.active_group ≡ none) × (is_closed s.phase ≡ true)

-- What the others make of a ledger.
unfoldable pub used_by_others : {L E : Type 0} → List (NativeGroups L E × Event L) → L → L
used_by_others [] l = l
used_by_others ((ops, others f) ∷ xs) l = used_by_others xs (f l)
used_by_others ((ops, e) ∷ xs) l = used_by_others xs l

-- What a closed lifecycle and the one after a method have in common.
unfoldable pub Stays : {L : Type 0} → Lifecycle L → Lifecycle L → Type 0
unfolding IsClosed
Stays s t = IsClosed t × (t.ledger ≡ s.ledger) × (s.phase ≡ terminated → t.phase ≡ terminated)

not_current :
    {L : Type 0} (permit : ℕ) (g : GroupState) (s : Lifecycle L)
    → s.active_group ≡ none
    → is_current permit g s ≡ false
not_current permit g s h = ground arith

module _ {L E : Type 0} (ops : NativeGroups L E) (owner : Bool) (s : Lifecycle L)
    (v : IsClosed s) where
  pub seal_scope-Stays : (scope : Scope) → Stays s (seal_scope {E = E} owner scope s).0
  unfolding seal_scope transition Stays IsClosed is_closed
  seal_scope-Stays scope = ground arith

  pub reserve_abort_group-Stays : Stays s (reserve_abort_group ops owner s).0
  unfolding reserve_abort_group transition Stays IsClosed is_closed
  reserve_abort_group-Stays = ground arith

  pub execute_abort-Stays : (permit : ℕ) → Stays s (execute_abort ops owner permit s).0
  unfolding execute_abort require_group transition Stays IsClosed is_closed
  execute_abort-Stays permit = ground arith

  pub settle_command-Stays : (id : ℕ) → Stays s (settle_command ops owner id s).0
  unfolding settle_command transition Stays IsClosed is_closed
  settle_command-Stays id = ground arith

  pub terminate-Stays :
      (permit : ℕ) (outcome : NativeOutcome) → Stays s (terminate ops owner permit outcome s).0
  unfolding terminate require_group transition Stays IsClosed is_closed
  terminate-Stays permit outcome = ground arith

  pub close_unknown_commit-Stays : Stays s (close_unknown_commit {E = E} owner s).0
  unfolding close_unknown_commit transition Stays IsClosed is_closed
  close_unknown_commit-Stays = ground arith

  pub snapshot-Stays : Stays s (snapshot {E = E} owner s).0
  unfolding snapshot transition Stays IsClosed is_closed
  snapshot-Stays = ground arith

-- Apart from what others make of it, the ledger is as it was, as long as the scope is not sealed
-- for an abort before the commit.
unfoldable pub IsApart : {L : Type 0} → Lifecycle L → L → Type 0
IsApart s l =
    ((s.scope ≡ some precommit) × (is_open s.phase ≡ false))
    ⊎ ((s.active_group ≡ none) × (is_sealed_precommit s.phase ≡ false) × (s.ledger ≡ l))

-- The end of a lifecycle leaves no group.
unfoldable pub HasEnded : {L : Type 0} → Lifecycle L → Type 0
HasEnded s = s.phase ≡ terminated → s.active_group ≡ none

module _ {L E : Type 0} (ops : NativeGroups L E) (owner : Bool) (s : Lifecycle L) (l : L)
    (v : IsApart s l) where
  pub seal_scope-IsApart : (scope : Scope) → IsApart (seal_scope {E = E} owner scope s).0 l
  unfolding seal_scope transition IsApart
  seal_scope-IsApart scope = ground arith

  pub reserve_abort_group-IsApart : IsApart (reserve_abort_group ops owner s).0 l
  unfolding reserve_abort_group reserve_group call_native transition IsApart
  reserve_abort_group-IsApart = ground arith

  pub execute_abort-IsApart : (permit : ℕ) → IsApart (execute_abort ops owner permit s).0 l
  unfolding execute_abort start_command call_native require_group transition IsApart
  execute_abort-IsApart permit = ground arith

  pub settle_command-IsApart : (id : ℕ) → IsApart (settle_command ops owner id s).0 l
  unfolding settle_command close_command call_native transition IsApart
  settle_command-IsApart id = ground arith

  pub terminate-IsApart :
      (permit : ℕ) (outcome : NativeOutcome) → IsApart (terminate ops owner permit outcome s).0 l
  unfolding terminate end_group call_native require_group transition IsApart
  terminate-IsApart permit outcome = ground arith

  pub close_unknown_commit-IsApart : IsApart (close_unknown_commit {E = E} owner s).0 l
  unfolding close_unknown_commit transition IsApart
  close_unknown_commit-IsApart = ground arith

  pub snapshot-IsApart : IsApart (snapshot {E = E} owner s).0 l
  unfolding snapshot transition IsApart
  snapshot-IsApart = ground arith

module _ {L E : Type 0} (ops : NativeGroups L E) (owner : Bool) (s : Lifecycle L)
    (v : HasEnded s) where
  pub seal_scope-HasEnded : (scope : Scope) → HasEnded (seal_scope {E = E} owner scope s).0
  unfolding seal_scope transition HasEnded
  seal_scope-HasEnded scope = ground arith

  pub reserve_abort_group-HasEnded : HasEnded (reserve_abort_group ops owner s).0
  unfolding reserve_abort_group reserve_group call_native transition HasEnded
  reserve_abort_group-HasEnded = ground arith

  pub execute_abort-HasEnded : (permit : ℕ) → HasEnded (execute_abort ops owner permit s).0
  unfolding execute_abort start_command call_native require_group transition HasEnded
  execute_abort-HasEnded permit = ground arith

  pub settle_command-HasEnded : (id : ℕ) → HasEnded (settle_command ops owner id s).0
  unfolding settle_command close_command call_native transition HasEnded
  settle_command-HasEnded id = ground arith

  pub terminate-HasEnded :
      (permit : ℕ) (outcome : NativeOutcome) → HasEnded (terminate ops owner permit outcome s).0
  unfolding terminate end_group call_native require_group transition HasEnded
  terminate-HasEnded permit outcome = ground arith

  pub close_unknown_commit-HasEnded : HasEnded (close_unknown_commit {E = E} owner s).0
  unfolding close_unknown_commit transition HasEnded
  close_unknown_commit-HasEnded = ground arith

  pub snapshot-HasEnded : HasEnded (snapshot {E = E} owner s).0
  unfolding snapshot transition HasEnded
  snapshot-HasEnded = ground arith
