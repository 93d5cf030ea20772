-- ===== src/Termination/Native.antt =====
-- The native groups of the budget ledger, as the lifecycle calls them.
use pass_hub.Base.{
  ℕ, ◌≤◌, ◌<◌, ◌≡◌, none, some, ok, lookup, lookup-insert, lookup-insert_self, ℕ_discrete, arith,
}
use pass_hub.Budget.{
  GroupState, Config, Ledger, Replies, ErrorCode, NativeOutcome, transition, require, read_now,
  accept_now, fail_closed,
}
use pass_hub.Budget.Native.{
  reserve_native_precommit_group, admit_native_precommit_command, finish_native_precommit_command,
  finish_native_precommit_group,
}
use pass_hub.Termination.{NativeGroups}
use pass_hub.Termination.Bounded.{CountsAttempts}

-- With what the callbacks of the ledger do meanwhile, which do not call the lifecycle.
unfoldable pub budget_groups : Config → Replies → NativeGroups Ledger ErrorCode
budget_groups c e = record {
  reserve = reserve_native_precommit_group c e;
  admit = admit_native_precommit_command e;
  finish_command = finish_native_precommit_command e;
  finish_group = finish_native_precommit_group e;
}

-- The commands that a group has sent.
unfoldable pub attempts : ℕ → Ledger → ℕ
attempts p l = elim (lookup ℕ_discrete p l.native_groups) [ none ↦ 0 | some g ↦ g.attempts ]

module _ (e : Replies) (l : Ledger) (p : ℕ) where
  admit_native-attempts :
      (l' : Ledger) (c : ℕ)
      → admit_native_precommit_command e p l ≡ (l', ok c)
      → (attempts p l < 2) × (attempts p l < attempts p l')
  unfolding admit_native_precommit_command transition require read_now accept_now fail_closed
      attempts
  admit_native-attempts l' c h = grind (arith, lookup-insert_self {V = GroupState} ℕ_discrete)

  admit_native-attempts_kept : attempts p l ≤ attempts p (admit_native_precommit_command e p l).0
  unfolding admit_native_precommit_command transition require read_now accept_now fail_closed
      attempts
  admit_native-attempts_kept = grind (arith, lookup-insert_self {V = GroupState} ℕ_discrete)

  finish_native-attempts :
      (q : ℕ) → attempts p l ≤ attempts p (finish_native_precommit_command e q l).0
  unfolding finish_native_precommit_command transition require fail_closed attempts
  finish_native-attempts q = grind (arith, lookup-insert {V = GroupState} ℕ_discrete)

  finish_group-attempts :
      (q : ℕ) (outcome : NativeOutcome)
      → attempts p l ≤ attempts p (finish_native_precommit_group e q outcome l).0
  unfolding finish_native_precommit_group transition require fail_closed attempts
  finish_group-attempts q outcome = grind (arith, lookup-insert {V = GroupState} ℕ_discrete)

-- The budget ledger keeps what the lifecycle relies on.
pub budget_groups-CountsAttempts :
    (c : Config) (e : Replies) → CountsAttempts (budget_groups c e) attempts
unfolding budget_groups
budget_groups-CountsAttempts c e = record {
  admitted = λ p l. admit_native-attempts e l p;
  admit_kept = λ p l. admit_native-attempts_kept e l p;
  finish_command_kept = λ p q l. finish_native-attempts e l p q;
  finish_group_kept = λ p q outcome l. finish_group-attempts e l p q outcome;
}
