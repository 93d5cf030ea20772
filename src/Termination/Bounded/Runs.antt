-- ===== src/Termination/Bounded/Runs.antt =====
-- The abort commands over any events.
use pass_hub.Base.{
  true, if◌then◌else◌, ℕ, ◌≤◌, Bool, List, [], ◌∷◌, ◌≡◌, refl, ◌⊎◌, inl, inr, none, arith, Result,
  All, length, is_some, if-cases, insert,
}
use pass_hub.Termination.{
  scope_not_sealed, unknown_commit_abort_forbidden, lifecycle_terminated, abort_group_active, Phase,
  open_phase, sealed_precommit, sealed_commit_unknown, terminated, ErrorCode, NativeGroups,
  Lifecycle, create, deny, call_native,
}
use pass_hub.Termination.Methods.{reserve_group, reserve_abort_group}
use pass_hub.Termination.Calls.{
  Event, seals, reserves, closes, snapshots, executes, settles, terminates, others, step, run,
}
use pass_hub.Termination.Bounded.{
  transition-rule, call_native-rule, CountsAttempts, IsNew, IsBound, seal_scope-IsNew,
  execute_abort-IsNew, settle_command-IsNew, terminate-IsNew, close_unknown_commit-IsNew,
  snapshot-IsNew,
}
use pass_hub.Termination.Bounded.Methods.{
  ledger-IsBound, seal_scope-IsBound, reserve_abort_group-IsBound, execute_abort-IsBound,
  settle_command-IsBound, terminate-IsBound, close_unknown_commit-IsBound, snapshot-IsBound,
}

-- The ledger keeps what it promises, and what others do takes no command of a group back.
abbrev pub Obeys : {L E : Type 0} → (ℕ → L → ℕ) → NativeGroups L E × Event L → Type 0
Obeys attempts (ops, others f) =
    CountsAttempts ops attempts × ((p : ℕ) (l : _) → attempts p l ≤ attempts p (f l))
Obeys attempts (ops, _) = CountsAttempts ops attempts × Unit {0}

unfoldable IsNewOrBound : {L : Type 0} → (ℕ → L → ℕ) → Lifecycle L → Type 0
IsNewOrBound attempts s = IsNew s ⊎ ((p : ℕ) × IsBound attempts p s)

changed-IsNew :
    {L : Type 0} (s : Lifecycle L) (l : L) (b : Bool)
    → IsNew s
    → IsNew (record s { ledger = l; frozen = b })
unfolding IsNew
changed-IsNew s l b v = v

not_reserved : {L : Type 0} (s : Lifecycle L) → IsNew s → s.active_group ≡ none
unfolding IsNew
not_reserved s v = v.2

module _ {L E : Type 0} (attempts : ℕ → L → ℕ) (ops : NativeGroups L E) (owner : Bool)
    (s : Lifecycle L) (v : IsNew s) where
  reserve_group-IsBound :
      (l : L) (p : ℕ)
      → s.phase ≡ sealed_precommit
      → IsBound attempts p (reserve_group {E = E} (record s { ledger = l }) p).0
  unfolding reserve_group IsNew IsBound insert
  reserve_group-IsBound l p h = ground arith

  reserve_abort_group-IsNew : IsNewOrBound attempts (reserve_abort_group ops owner s).0
  unfolding IsNewOrBound reserve_abort_group
  reserve_abort_group-IsNew =
      transition-rule Q owner s _ (λ _. inl v) (λ _. inl (changed-IsNew s s.ledger true v))
        (from s.phase refl)
    where
      Q : Lifecycle L × Result (ErrorCode E) ℕ → Type 0
      Q x = IsNew x.0 ⊎ ((p : ℕ) × IsBound attempts p x.0)

      from :
          (t : Phase)
          → s.phase ≡ t
          → Q (elim t as (λ _. Lifecycle L × Result (ErrorCode E) ℕ) [
            | open_phase ↦ deny s scope_not_sealed
            | sealed_commit_unknown ↦ deny s unknown_commit_abort_forbidden
            | terminated ↦ deny s lifecycle_terminated
            | sealed_precommit ↦
                if is_some s.active_group
                then deny s abort_group_active
                else call_native s (ops.reserve s.ledger) reserve_group
          ])
      from open_phase h = inl v
      from sealed_commit_unknown h = inl v
      from terminated h = inl v
      from sealed_precommit h = if-cases Q (is_some s.active_group) _ _ (inl v) (
          call_native-rule Q s (ops.reserve s.ledger) reserve_group
            (λ code e. inl (changed-IsNew s (ops.reserve s.ledger).0 s.frozen v))
            (λ p e. inr (p, reserve_group-IsBound (ops.reserve s.ledger).0 p h)))

few_commands :
    {L : Type 0} (attempts : ℕ → L → ℕ) (s : Lifecycle L)
    → IsNewOrBound attempts s
    → length s.commands ≤ 2
unfolding IsNewOrBound IsNew IsBound
few_commands attempts s (inl v) = ground arith
few_commands attempts s (inr (p, v)) = v.2

module _ {L E : Type 0} (attempts : ℕ → L → ℕ) where
  step-IsBound :
      (p : ℕ) (s : Lifecycle L) (x : NativeGroups L E × Event L)
      → Obeys attempts x
      → IsBound attempts p s
      → IsBound attempts p (step s x)
  unfolding step
  step-IsBound p s (ops, seals owner scope) h v =
      seal_scope-IsBound attempts p ops h.0 owner s v scope
  step-IsBound p s (ops, reserves owner) h v =
      reserve_abort_group-IsBound attempts p ops h.0 owner s v
  step-IsBound p s (ops, closes owner) h v =
      close_unknown_commit-IsBound attempts p ops h.0 owner s v
  step-IsBound p s (ops, snapshots owner) h v = snapshot-IsBound attempts p ops h.0 owner s v
  step-IsBound p s (ops, executes owner permit) h v =
      execute_abort-IsBound attempts p ops h.0 owner s v permit
  step-IsBound p s (ops, settles owner id) h v =
      settle_command-IsBound attempts p ops h.0 owner s v id
  step-IsBound p s (ops, terminates owner permit outcome) h v =
      terminate-IsBound attempts p ops h.0 owner s v permit outcome
  step-IsBound p s (ops, others f) h v =
      ledger-IsBound attempts p ops h.0 true s v (f s.ledger) (h.1 p s.ledger)

  step-IsNew :
      (s : Lifecycle L) (x : NativeGroups L E × Event L)
      → IsNew s
      → IsNewOrBound attempts (step s x)
  unfolding step IsNewOrBound
  step-IsNew s (ops, seals owner scope) v = inl (seal_scope-IsNew ops owner s v scope)
  step-IsNew s (ops, reserves owner) v = reserve_abort_group-IsNew attempts ops owner s v
  step-IsNew s (ops, closes owner) v = inl (close_unknown_commit-IsNew ops owner s v)
  step-IsNew s (ops, snapshots owner) v = inl (snapshot-IsNew ops owner s v)
  step-IsNew s (ops, executes owner permit) v = inl (execute_abort-IsNew ops owner s v permit)
  step-IsNew s (ops, settles owner id) v = inl (settle_command-IsNew ops owner s v id)
  step-IsNew s (ops, terminates owner permit outcome) v =
      inl (terminate-IsNew ops owner s v permit outcome)
  step-IsNew s (ops, others f) v = inl (changed-IsNew s (f s.ledger) s.frozen v)

  run-IsNewOrBound :
      (s : Lifecycle L) (xs : List (NativeGroups L E × Event L))
      → All (Obeys attempts) xs
      → IsNewOrBound attempts s
      → IsNewOrBound attempts (run s xs)
  unfolding run IsNewOrBound
  run-IsNewOrBound s [] h v = v
  run-IsNewOrBound s (x ∷ xs) h (inl v) = run-IsNewOrBound (step s x) xs h.1 (step-IsNew s x v)
  run-IsNewOrBound s (x ∷ xs) h (inr (p, v)) =
      run-IsNewOrBound (step s x) xs h.1 (inr (p, step-IsBound p s x h.0 v))

  -- An abort is sent at most twice: over any events of a new lifecycle, on any ledger that keeps its
  -- promise to admit at most two commands of a group and to count them, whatever others do to the
  -- ledger that takes no command back, `executeAbort` sends at most two commands in all.
  pub at_most_two_aborts :
      (l : L) (xs : List (NativeGroups L E × Event L))
      → All (Obeys attempts) xs
      → length (run (create l) xs).commands ≤ 2
  unfolding IsNewOrBound IsNew
  at_most_two_aborts l xs h =
      few_commands attempts (run (create l) xs)
        (run-IsNewOrBound (create l) xs h (inl (refl, refl, refl)))
