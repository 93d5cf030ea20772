-- ===== src/Termination/Bounded.antt =====
-- The number of abort commands, over any ledger that counts those of a group.
pub mod Methods
pub mod Runs
use pass_hub.Base.{
  ℕ, suc, ◌+◌, ◌≤◌, ◌<◌, Bool, true, false, not, ◌&&◌, ◌||◌, Option, none, some, List, [], ◌∷◌,
  Result, ok, err, lookup, insert, ℕ_discrete, arith, ◌≡◌, refl, sym, ap, ◌∙◌, ◌⊎◌, inl, inr,
  if-cases, if-elim, is_some, Entries, length, length-insert, All, insert-All, lookup-All, ltb,
}
use mathlib.Core.Path.{subst}
use pass_hub.Budget.{NativeOutcome}
use pass_hub.Termination.{
  invalid_abort_group, native, Scope, precommit, commit_unknown, Phase, open_phase,
  sealed_precommit, sealed_commit_unknown, terminated, ErrorCode, NativeGroups, GroupState,
  CommandState, Lifecycle, create, names, is_current, is_sealed_precommit, is_commit_unknown, deny,
  fail_closed, transition, call_native, require_group,
}
use pass_hub.Termination.Methods.{
  seal_scope, reserve_group, reserve_abort_group, start_command, execute_abort, close_command,
  settle_command, end_group, terminate, close_unknown_commit, snapshot,
}
use pass_hub.Termination.Closing.{is_open}

-- What the ledger promises: a group sends at most two commands, each is counted, and nothing is
-- taken back.
pub record CountsAttempts {L E : Type 0} (ops : NativeGroups L E) (attempts : ℕ → L → ℕ)
    : Type 0 where
  pub admitted :
      (p : ℕ) (l l' : L) (c : ℕ)
      → ops.admit p l ≡ (l', ok c)
      → (attempts p l < 2) × (attempts p l < attempts p l')
  pub admit_kept : (p : ℕ) (l : L) → attempts p l ≤ attempts p (ops.admit p l).0
  pub finish_command_kept : (p q : ℕ) (l : L) → attempts p l ≤ attempts p (ops.finish_command q l).0
  pub finish_group_kept :
      (p q : ℕ) (outcome : NativeOutcome) (l : L)
      → attempts p l ≤ attempts p (ops.finish_group q outcome l).0

abbrev pub may_reserve : {L : Type 0} → Lifecycle L → Bool
may_reserve s = is_open s.phase || is_sealed_precommit s.phase && not (is_some s.active_group)

-- No group was reserved.
unfoldable pub IsNew : {L : Type 0} → Lifecycle L → Type 0
IsNew s = (s.groups ≡ []) × (s.commands ≡ []) × (s.active_group ≡ none)

abbrev pub HasPermit : ℕ → ℕ × GroupState → Type 0
HasPermit p x = x.1.native_permit ≡ p

-- One group was reserved, with this permit, and has sent what the ledger has counted, at most two.
unfoldable pub IsBound : {L : Type 0} → (ℕ → L → ℕ) → ℕ → Lifecycle L → Type 0
IsBound attempts p s =
    All (HasPermit p) s.groups
    × (length s.commands ≤ attempts p s.ledger)
    × (length s.commands ≤ 2)
    × (may_reserve s ≡ false)

pub length-insert_le :
    {V : Type 0} (k : ℕ) (v : V) (m : Entries ℕ V)
    → length (insert ℕ_discrete k v m) ≤ suc (length m)
length-insert_le k v m = ground (arith, length-insert ℕ_discrete k v m)

pub length-insert_known :
    {V : Type 0} (k : ℕ) (v w : V) (m : Entries ℕ V)
    → lookup ℕ_discrete k m ≡ some w
    → length (insert ℕ_discrete k v m) ≤ length m
length-insert_known k v w m h = ground (arith, length-insert ℕ_discrete k v m, h)

module _ {L E : Type 0} (ops : NativeGroups L E) (owner : Bool) (s : Lifecycle L)
    (v : IsNew s) where
  pub seal_scope-IsNew : (scope : Scope) → IsNew (seal_scope {E = E} owner scope s).0
  unfolding seal_scope transition IsNew
  seal_scope-IsNew scope = ground arith

  pub execute_abort-IsNew : (permit : ℕ) → IsNew (execute_abort ops owner permit s).0
  unfolding execute_abort require_group transition IsNew lookup
  execute_abort-IsNew permit = ground arith

  pub settle_command-IsNew : (id : ℕ) → IsNew (settle_command ops owner id s).0
  unfolding settle_command transition IsNew lookup
  settle_command-IsNew id = ground arith

  pub terminate-IsNew :
      (permit : ℕ) (outcome : NativeOutcome) → IsNew (terminate ops owner permit outcome s).0
  unfolding terminate require_group transition IsNew lookup
  terminate-IsNew permit outcome = ground arith

  pub close_unknown_commit-IsNew : IsNew (close_unknown_commit {E = E} owner s).0
  unfolding close_unknown_commit transition IsNew
  close_unknown_commit-IsNew = ground arith

  pub snapshot-IsNew : IsNew (snapshot {E = E} owner s).0
  unfolding snapshot transition IsNew
  snapshot-IsNew = ground arith

-- What holds after each end of the checks.
module _ {L E : Type 0} {A : Type 0} (Q : Lifecycle L × Result (ErrorCode E) A → Type 0) where
  pub transition-rule :
      (owner : Bool) (s : Lifecycle L) (work : Lifecycle L × Result (ErrorCode E) A)
      → ((code : ErrorCode E) → Q (deny s code))
      → ((code : ErrorCode E) → Q (fail_closed s code))
      → Q work
      → Q (transition owner s work)
  unfolding transition
  transition-rule owner s work d f w =
      if-cases Q s.frozen _ _ (d _) (if-cases Q (not owner) _ _ (f _) w)

  pub require_group-rule :
      (permit : ℕ) (s : Lifecycle L) (next : GroupState → Lifecycle L × Result (ErrorCode E) A)
      → ((code : ErrorCode E) → Q (fail_closed s code))
      → ((g : GroupState) → lookup ℕ_discrete permit s.groups ≡ some g → Q (next g))
      → Q (require_group permit s next)
  unfolding require_group
  require_group-rule permit s next f n = from (lookup ℕ_discrete permit s.groups) refl
    where
      from :
          (o : Option GroupState)
          → lookup ℕ_discrete permit s.groups ≡ o
          → Q (elim o [ none ↦ fail_closed s invalid_abort_group | some g ↦ next g ])
      from none h = f _
      from (some g) h = n g h

  pub find-rule :
      {X : Type 0} (o : Option X) (missing : Lifecycle L × Result (ErrorCode E) A)
      (next : X → Lifecycle L × Result (ErrorCode E) A)
      → Q missing
      → ((x : X) → o ≡ some x → Q (next x))
      → Q (elim o [ none ↦ missing | some x ↦ next x ])
  find-rule none missing next m n = m
  find-rule (some x) missing next m n = n x refl

  pub call_native-rule :
      {B : Type 0} (s : Lifecycle L) (x : L × Result E B)
      (next : Lifecycle L → B → Lifecycle L × Result (ErrorCode E) A)
      → ((code : E) → x.1 ≡ err code → Q (record s { ledger = x.0 }, err (native code)))
      → ((b : B) → x.1 ≡ ok b → Q (next (record s { ledger = x.0 }) b))
      → Q (call_native s x next)
  unfolding call_native
  call_native-rule s (l, err code) next f n = f code refl
  call_native-rule s (l, ok b) next f n = n b refl
