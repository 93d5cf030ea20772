-- ===== src/Budget/Limits/Groups.antt =====
-- What the methods for native groups and continuations may change of the limits.
use pass_hub.Budget.Flight.{transition-keeps, authorize_live-keeps, authorize_at-keeps}
use pass_hub.Base.{true, List, ℕ, arith}
use pass_hub.Budget.{
  Config, Ledger, Replies, NativeOutcome, transition, read_now, add_deadline, require,
}
use pass_hub.Budget.Native.{
  reserve_native_precommit_group, admit_native_precommit_command, finish_native_precommit_command,
  finish_native_precommit_group,
}
use pass_hub.Budget.Continuation.{Evidence, authorize_continuation, snapshot}
use pass_hub.Budget.Limits.{
  refl-Follows, freeze-Follows, stamp-Follows, stamped-Follows, Follows, taken,
}

authorized-Follows :
    (used : List ℕ) (l : Ledger)
    → Follows 0 l (record l { consumed_evidence = used; continuation_authorized = true })
authorized-Follows used l = ground arith

module _ (c : Config) (e : Replies) (l : Ledger) where
  pub authorize_continuation-Follows :
      (evidence : Evidence) → Follows 0 l (authorize_continuation c e evidence l).0
  unfolding authorize_continuation
  authorize_continuation-Follows evidence =
      transition-keeps (Follows 0 l) e l _ (refl-Follows l) (freeze-Follows l) (
        authorize_live-keeps (Follows 0 l) c e evidence l (refl-Follows l) (freeze-Follows l)
          λ deadline now.
            authorize_at-keeps (Follows 0 l) e evidence deadline _ now (stamp-Follows l now)
              (stamped-Follows 0 l _ now (freeze-Follows _))
              λ used. stamped-Follows 0 l _ now (authorized-Follows used _))

  pub reserve_native_precommit_group-Follows :
      Follows
        (taken c.native_group_slots (reserve_native_precommit_group c e l).1)
        l
        (reserve_native_precommit_group c e l).0
  unfolding reserve_native_precommit_group transition read_now add_deadline require
  reserve_native_precommit_group-Follows = ground arith

  pub admit_native_precommit_command-Follows :
      (p : ℕ) → Follows 0 l (admit_native_precommit_command e p l).0
  unfolding admit_native_precommit_command transition read_now add_deadline require
  admit_native_precommit_command-Follows p = ground arith

  pub finish_native_precommit_command-Follows :
      (p : ℕ) → Follows 0 l (finish_native_precommit_command e p l).0
  unfolding finish_native_precommit_command transition read_now add_deadline require
  finish_native_precommit_command-Follows p = ground arith

  pub finish_native_precommit_group-Follows :
      (p : ℕ) (o : NativeOutcome) → Follows 0 l (finish_native_precommit_group e p o l).0
  unfolding finish_native_precommit_group transition read_now add_deadline require
  finish_native_precommit_group-Follows p o = ground arith

  pub snapshot-Follows : Follows 0 l (snapshot e l).0
  unfolding snapshot transition read_now add_deadline require
  snapshot-Follows = ground arith
