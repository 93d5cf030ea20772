-- ===== src/Budget/Flight/Commands.antt =====
-- What is in flight, over the methods for rounds, execution commands and confirmations.
use mathlib.Core.Path.{subst}
use pass_hub.Base.{sym, ℕ, arith}
use pass_hub.Budget.{
  Config, Ledger, Replies, CommandKind, ConfirmationOrigin, ConfirmationKind, transition, read_now,
  add_deadline, require,
}
use pass_hub.Budget.Execution.{
  begin_round, finish_round, admit_execution_command, finish_execution_command,
}
use pass_hub.Budget.Confirmation.{
  start_confirmation, probe_at, admit_at, assert_next_unknown_confirmation_kind,
  admit_next_unknown_confirmation, settle_still_unknown, settle_confirmed,
  settle_no_effect_confirmed,
}
use pass_hub.Budget.Flight.{
  Inv, blocked-keeps, probe_at-keeps, admit_at-Inv, read_now-keeps, transition-keeps, freeze-Inv,
  stamp-Inv,
}

module _ (c : Config) (e : Replies) (l : Ledger) (v : Inv c l) where
  pub begin_round-Inv : Inv c (begin_round c e l).0
  unfolding begin_round transition read_now add_deadline require
  begin_round-Inv = ground arith

  pub finish_round-Inv : (p : ℕ) → Inv c (finish_round e p l).0
  unfolding finish_round transition read_now add_deadline require
  finish_round-Inv p = ground arith

  pub admit_execution_command-Inv :
      (p : ℕ) (k : CommandKind) → Inv c (admit_execution_command c e p k l).0
  unfolding admit_execution_command transition read_now add_deadline require
  admit_execution_command-Inv p k = ground arith

  pub finish_execution_command-Inv : (p : ℕ) → Inv c (finish_execution_command e p l).0
  unfolding finish_execution_command transition read_now add_deadline require
  finish_execution_command-Inv p = ground arith

  pub start_confirmation-Inv : (o : ConfirmationOrigin) → Inv c (start_confirmation c e o l).0
  unfolding start_confirmation transition read_now add_deadline require
  start_confirmation-Inv o = ground arith

  pub assert_next_unknown_confirmation_kind-Inv :
      (k : ConfirmationKind) → Inv c (assert_next_unknown_confirmation_kind c e k l).0
  unfolding assert_next_unknown_confirmation_kind
  assert_next_unknown_confirmation_kind-Inv k =
      transition-keeps (Inv c) e l _ v (freeze-Inv c l v) (
        blocked-keeps (Inv c) l _ v λ _ _.
          read_now-keeps (Inv c) e l (probe_at c k) (freeze-Inv c l v)
            λ now. subst (Inv c) (sym (probe_at-keeps c k _ now)) (stamp-Inv c l now v))

  pub admit_next_unknown_confirmation-Inv : Inv c (admit_next_unknown_confirmation c e l).0
  unfolding admit_next_unknown_confirmation
  admit_next_unknown_confirmation-Inv = transition-keeps (Inv c) e l _ v (freeze-Inv c l v) (
      blocked-keeps (Inv c) l _ v λ h k.
        read_now-keeps (Inv c) e l (admit_at c) (freeze-Inv c l v)
          λ now. admit_at-Inv c _ now (stamp-Inv c l now v) h k)

  pub settle_still_unknown-Inv : (p : ℕ) → Inv c (settle_still_unknown e p l).0
  unfolding settle_still_unknown transition read_now add_deadline require
  settle_still_unknown-Inv p = ground arith

  pub settle_confirmed-Inv : (p : ℕ) → Inv c (settle_confirmed e p l).0
  unfolding settle_confirmed transition read_now add_deadline require
  settle_confirmed-Inv p = ground arith

  pub settle_no_effect_confirmed-Inv : (p : ℕ) → Inv c (settle_no_effect_confirmed e p l).0
  unfolding settle_no_effect_confirmed transition read_now add_deadline require
  settle_no_effect_confirmed-Inv p = ground arith
