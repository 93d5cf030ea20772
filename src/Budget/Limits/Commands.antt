-- ===== src/Budget/Limits/Commands.antt =====
-- What the methods for rounds, execution commands and confirmations may change of the limits.
use mathlib.Core.Path.{subst}
use pass_hub.Base.{sym, ℕ, arith}
use pass_hub.Budget.{
  Config, Ledger, Replies, Returns, fail_closed, CommandKind, ConfirmationOrigin, ConfirmationKind,
  transition, read_now, add_deadline, require,
}
use pass_hub.Budget.Execution.{
  begin_round, finish_round, admit_execution_command, finish_execution_command,
}
use pass_hub.Budget.Confirmation.{
  start_confirmation, probe_at, admit_at, assert_next_unknown_confirmation_kind,
  admit_next_unknown_confirmation, settle_still_unknown, settle_confirmed,
  settle_no_effect_confirmed,
}
use pass_hub.Budget.Flight.{read_now-keeps, transition-keeps, blocked-keeps, probe_at-keeps}
use pass_hub.Budget.Limits.{
  Follows, taken, refl-Follows, freeze-Follows, stamp-Follows, stamped-Follows, transition-elim,
  blocked-elim, read_now-elim, admit_at-Follows,
}

module _ (c : Config) (e : Replies) (l : Ledger) where
  pub begin_round-Follows : Follows 0 l (begin_round c e l).0
  unfolding begin_round transition read_now add_deadline require
  begin_round-Follows = ground arith

  pub finish_round-Follows : (p : ℕ) → Follows 0 l (finish_round e p l).0
  unfolding finish_round transition read_now add_deadline require
  finish_round-Follows p = ground arith

  pub admit_execution_command-Follows :
      (p : ℕ) (k : CommandKind) → Follows 0 l (admit_execution_command c e p k l).0
  unfolding admit_execution_command transition read_now add_deadline require
  admit_execution_command-Follows p k = ground arith

  pub finish_execution_command-Follows : (p : ℕ) → Follows 0 l (finish_execution_command e p l).0
  unfolding finish_execution_command transition read_now add_deadline require
  finish_execution_command-Follows p = ground arith

  pub start_confirmation-Follows :
      (o : ConfirmationOrigin) → Follows 0 l (start_confirmation c e o l).0
  unfolding start_confirmation transition read_now add_deadline require
  start_confirmation-Follows o = ground arith

  pub assert_next_unknown_confirmation_kind-Follows :
      (k : ConfirmationKind) → Follows 0 l (assert_next_unknown_confirmation_kind c e k l).0
  unfolding assert_next_unknown_confirmation_kind
  assert_next_unknown_confirmation_kind-Follows k =
      transition-keeps (Follows 0 l) e l _ (refl-Follows l) (freeze-Follows l) (
        blocked-keeps (Follows 0 l) l _ (refl-Follows l) λ _ _.
          read_now-keeps (Follows 0 l) e l (probe_at c k) (freeze-Follows l)
            λ now. subst (Follows 0 l) (sym (probe_at-keeps c k _ now)) (stamp-Follows l now))

  TakesASlot : Returns ℕ → Type 0
  TakesASlot r = Follows (taken 1 r.1) l r.0

  pub admit_next_unknown_confirmation-Follows :
      Follows
        (taken 1 (admit_next_unknown_confirmation c e l).1)
        l
        (admit_next_unknown_confirmation c e l).0
  unfolding admit_next_unknown_confirmation TakesASlot fail_closed
  admit_next_unknown_confirmation-Follows =
      transition-elim TakesASlot e l _ (λ _. refl-Follows l) (λ _. freeze-Follows l)
        (blocked-elim TakesASlot l _ (λ _. refl-Follows l)
          λ h.
            read_now-elim TakesASlot e l (admit_at c) (λ _. freeze-Follows l)
              λ now. stamped-Follows _ l _ now (admit_at-Follows c _ now h))

  pub settle_still_unknown-Follows : (p : ℕ) → Follows 0 l (settle_still_unknown e p l).0
  unfolding settle_still_unknown transition read_now add_deadline require
  settle_still_unknown-Follows p = ground arith

  pub settle_confirmed-Follows : (p : ℕ) → Follows 0 l (settle_confirmed e p l).0
  unfolding settle_confirmed transition read_now add_deadline require
  settle_confirmed-Follows p = ground arith

  pub settle_no_effect_confirmed-Follows :
      (p : ℕ) → Follows 0 l (settle_no_effect_confirmed e p l).0
  unfolding settle_no_effect_confirmed transition read_now add_deadline require
  settle_no_effect_confirmed-Follows p = ground arith
