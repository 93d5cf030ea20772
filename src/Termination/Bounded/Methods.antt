-- ===== src/Termination/Bounded/Methods.antt =====
-- What a bound lifecycle keeps, by method.
use pass_hub.Base.{
  ℕ, ◌≤◌, ◌<◌, Bool, true, false, not, ◌&&◌, some, Result, ok, lookup, ℕ_discrete, arith, ◌≡◌, refl,
  sym, if-cases, is_some, insert-All, lookup-All, ltb,
}
use mathlib.Core.Path.{subst}
use pass_hub.Budget.{NativeOutcome}
use pass_hub.Termination.{
  Scope, ErrorCode, NativeGroups, GroupState, CommandState, Lifecycle, names, is_current,
  is_sealed_precommit, transition, call_native,
}
use pass_hub.Termination.Methods.{
  seal_scope, reserve_abort_group, start_command, execute_abort, close_command, settle_command,
  end_group, terminate, close_unknown_commit, snapshot,
}
use pass_hub.Termination.Bounded.{
  CountsAttempts, IsBound, HasPermit, length-insert_le, length-insert_known, transition-rule,
  require_group-rule, find-rule, call_native-rule,
}

module _ {L E : Type 0} (attempts : ℕ → L → ℕ) (p : ℕ) (ops : NativeGroups L E)
    (laws : CountsAttempts ops attempts) (owner : Bool) (s : Lifecycle L)
    (v : IsBound attempts p s) where
  pub ledger-IsBound :
      (l : L) → attempts p s.ledger ≤ attempts p l → IsBound attempts p (record s { ledger = l })
  unfolding IsBound
  ledger-IsBound l h = (v.0, omega (arith, h, v), v.2, v.3)

  frozen-IsBound : IsBound attempts p (record s { frozen = true })
  unfolding IsBound
  frozen-IsBound = v

  pub seal_scope-IsBound : (scope : Scope) → IsBound attempts p (seal_scope {E = E} owner scope s).0
  unfolding seal_scope transition IsBound
  seal_scope-IsBound scope = ground arith

  pub reserve_abort_group-IsBound : IsBound attempts p (reserve_abort_group ops owner s).0
  unfolding reserve_abort_group transition IsBound
  reserve_abort_group-IsBound = ground arith

  pub close_unknown_commit-IsBound : IsBound attempts p (close_unknown_commit {E = E} owner s).0
  unfolding close_unknown_commit transition IsBound
  close_unknown_commit-IsBound = ground arith

  pub snapshot-IsBound : IsBound attempts p (snapshot {E = E} owner s).0
  unfolding snapshot transition IsBound
  snapshot-IsBound = ground arith

  start_command-IsBound :
      (permit : ℕ) (g : GroupState) (l : L) (c : ℕ)
      → g.native_permit ≡ p
      → attempts p s.ledger < 2
      → attempts p s.ledger < attempts p l
      → IsBound attempts p (start_command {E = E} permit g (record s { ledger = l }) c).0
  unfolding start_command IsBound
  start_command-IsBound permit g l c h few more = (
    insert-All ℕ_discrete (HasPermit p) permit _ s.groups (λ j. h) v.0,
    omega (
      arith,
      length-insert_le s.minted (record { group = permit; native_permit = c; active = true })
          s.commands,
      v,
      more,
    ),
    omega (
      arith,
      length-insert_le s.minted (record { group = permit; native_permit = c; active = true })
          s.commands,
      v,
      few,
    ),
    v.3,
  )

  found :
      (permit : ℕ) (g : GroupState)
      → lookup ℕ_discrete permit s.groups ≡ some g
      → g.native_permit ≡ p
  unfolding IsBound
  found permit g h = lookup-All ℕ_discrete (HasPermit p) permit g s.groups v.0 h

  ends :
      (permit : ℕ) (g : GroupState)
      → g.native_permit ≡ p
      → (l : L) → attempts p s.ledger ≤ attempts p l
      → IsBound attempts p (end_group {E = E} permit g (record s { ledger = l }) tt).0
  unfolding end_group IsBound
  ends permit g h l kept = (
    insert-All ℕ_discrete (HasPermit p) permit _ s.groups (λ j. h) v.0,
    omega (arith, kept, v),
    v.2,
    refl,
  )

  closes_command :
      (id : ℕ) (command : CommandState) (g : GroupState)
      → g.native_permit ≡ p
      → lookup ℕ_discrete id s.commands ≡ some command
      → (l : L) → attempts p s.ledger ≤ attempts p l
      → IsBound attempts p (close_command {E = E} id command g (record s { ledger = l }) tt).0
  unfolding close_command IsBound
  closes_command id command g h known l kept =
      let count =
        length-insert_known id (record command { active = false }) command s.commands known in
      (
        insert-All ℕ_discrete (HasPermit p) command.group _ s.groups (λ j. h) v.0,
        omega (arith, count, kept, v),
        omega (arith, count, v),
        v.3,
      )

  pub execute_abort-IsBound : (permit : ℕ) → IsBound attempts p (execute_abort ops owner permit s).0
  unfolding execute_abort
  execute_abort-IsBound permit =
      transition-rule (λ (x : Lifecycle L × Result (ErrorCode E) ℕ). IsBound attempts p x.0) owner s
        _ (λ _. v) (λ _. frozen-IsBound)
        (require_group-rule (λ (x : Lifecycle L × Result (ErrorCode E) ℕ). IsBound attempts p x.0)
          permit s _ (λ _. frozen-IsBound)
          λ g at.
            if-cases (λ (x : Lifecycle L × Result (ErrorCode E) ℕ). IsBound attempts p x.0)
              (not (is_current permit g s)) _ _ v
              (if-cases (λ (x : Lifecycle L × Result (ErrorCode E) ℕ). IsBound attempts p x.0)
                (not (is_sealed_precommit s.phase)) _ _ v
                (if-cases (λ (x : Lifecycle L × Result (ErrorCode E) ℕ). IsBound attempts p x.0)
                  (is_some g.command) _ _ v (admits permit g (found permit g at)))))
    where
      admits :
          (permit : ℕ) (g : GroupState)
          → g.native_permit ≡ p
          → IsBound attempts p
              (call_native s (ops.admit g.native_permit s.ledger) (start_command permit g)).0
      admits permit g h =
          call_native-rule (λ (x : Lifecycle L × Result (ErrorCode E) ℕ). IsBound attempts p x.0) s
            (ops.admit g.native_permit s.ledger) (start_command permit g)
            (λ code e. ledger-IsBound (ops.admit g.native_permit s.ledger).0 (
              subst (λ q. attempts p s.ledger ≤ attempts p (ops.admit q s.ledger).0) (sym h)
                (laws.admit_kept p s.ledger)))
            (λ c e.
              let counted =
                subst
                  (λ q.
                    (ops.admit q s.ledger).1 ≡ ok c
                    → (attempts p s.ledger < 2)
                      × (attempts p s.ledger < attempts p (ops.admit q s.ledger).0))
                  (sym h)
                  (λ e.
                    laws.admitted p s.ledger (ops.admit p s.ledger).0 c
                      (λ i. ((ops.admit p s.ledger).0, e i)))
                  e in
              start_command-IsBound permit g _ c h counted.0 counted.1)

  pub terminate-IsBound :
      (permit : ℕ) (outcome : NativeOutcome)
      → IsBound attempts p (terminate ops owner permit outcome s).0
  unfolding terminate
  terminate-IsBound permit outcome =
      transition-rule
        (λ (x : Lifecycle L × Result (ErrorCode E) (Unit {0})). IsBound attempts p x.0) owner s _
        (λ _. v) (λ _. frozen-IsBound)
        (require_group-rule
          (λ (x : Lifecycle L × Result (ErrorCode E) (Unit {0})). IsBound attempts p x.0) permit s _
          (λ _. frozen-IsBound)
          λ g at.
            if-cases (λ (x : Lifecycle L × Result (ErrorCode E) (Unit {0})). IsBound attempts p x.0)
              (not (is_current permit g s)) _ _ v
              (if-cases
                (λ (x : Lifecycle L × Result (ErrorCode E) (Unit {0})). IsBound attempts p x.0)
                (is_some g.command) _ _ v
                (if-cases
                  (λ (x : Lifecycle L × Result (ErrorCode E) (Unit {0})). IsBound attempts p x.0)
                  (ltb g.commands_admitted 1) _ _ v
                  (call_native-rule
                    (λ (x : Lifecycle L × Result (ErrorCode E) (Unit {0})). IsBound attempts p x.0)
                    s (ops.finish_group g.native_permit outcome s.ledger) (end_group permit g)
                    (λ code e.
                      ledger-IsBound _ (laws.finish_group_kept p g.native_permit outcome s.ledger))
                    (λ done e.
                      ends permit g (found permit g at) _
                        (laws.finish_group_kept p g.native_permit outcome s.ledger))))))

  pub settle_command-IsBound : (id : ℕ) → IsBound attempts p (settle_command ops owner id s).0
  unfolding settle_command
  settle_command-IsBound id =
      transition-rule
        (λ (x : Lifecycle L × Result (ErrorCode E) (Unit {0})). IsBound attempts p x.0) owner s _
        (λ _. v) (λ _. frozen-IsBound)
        (find-rule (λ (x : Lifecycle L × Result (ErrorCode E) (Unit {0})). IsBound attempts p x.0)
          (lookup ℕ_discrete id s.commands) _ _ frozen-IsBound
          λ command known.
            find-rule
              (λ (x : Lifecycle L × Result (ErrorCode E) (Unit {0})). IsBound attempts p x.0)
              (lookup ℕ_discrete command.group s.groups) _ _ frozen-IsBound
              λ g at.
                if-cases
                  (λ (x : Lifecycle L × Result (ErrorCode E) (Unit {0})). IsBound attempts p x.0)
                  (not command.active) _ _ frozen-IsBound
                  (if-cases
                    (λ (x : Lifecycle L × Result (ErrorCode E) (Unit {0})). IsBound attempts p x.0)
                    (not (is_current command.group g s && names g.command id)) _ _ frozen-IsBound
                    (call_native-rule
                      (λ (x : Lifecycle L × Result (ErrorCode E) (Unit {0})).
                        IsBound attempts p x.0)
                      s (ops.finish_command command.native_permit s.ledger)
                      (close_command id command g)
                      (λ code e.
                        ledger-IsBound _
                          (laws.finish_command_kept p command.native_permit s.ledger))
                      (λ done e.
                        closes_command id command g (found command.group g at) known _
                          (laws.finish_command_kept p command.native_permit s.ledger)))))
