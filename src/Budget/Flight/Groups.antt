-- ===== src/Budget/Flight/Groups.antt =====
-- What is in flight, over the methods for native groups and continuations.
use pass_hub.Base.{some, true, List, ℕ, arith}
use pass_hub.Budget.{
  Config, Ledger, Replies, NativeOutcome, transition, read_now, add_deadline, require,
}
use pass_hub.Budget.Native.{
  reserve_native_precommit_group, admit_native_precommit_command, finish_native_precommit_command,
  finish_native_precommit_group,
}
use pass_hub.Budget.Continuation.{Evidence, authorize_continuation, snapshot}
use pass_hub.Budget.Flight.{
  transition-keeps, freeze-Inv, stamp-Inv, authorize_live-keeps, authorize_at-keeps, Inv,
}

authorized-Inv :
    {c : Config} (used : List ℕ) (l : Ledger)
    → Inv c l
    → Inv c (record l { consumed_evidence = used; continuation_authorized = true })
authorized-Inv used l v = ground arith

module _ (c : Config) (e : Replies) (l : Ledger) (v : Inv c l) where
  pub authorize_continuation-Inv :
      (evidence : Evidence) → Inv c (authorize_continuation c e evidence l).0
  unfolding authorize_continuation
  authorize_continuation-Inv evidence = transition-keeps (Inv c) e l _ v (freeze-Inv c l v) (
      authorize_live-keeps (Inv c) c e evidence l v (freeze-Inv c l v) λ deadline now.
        let w = stamp-Inv c l now v in
        authorize_at-keeps (Inv c) e evidence deadline _ now w (freeze-Inv c _ w)
          λ used. authorized-Inv used (record l { last_now_ms = some now }) w)

  pub reserve_native_precommit_group-Inv : Inv c (reserve_native_precommit_group c e l).0
  unfolding reserve_native_precommit_group transition read_now add_deadline require
  reserve_native_precommit_group-Inv = ground arith

  pub admit_native_precommit_command-Inv : (p : ℕ) → Inv c (admit_native_precommit_command e p l).0
  unfolding admit_native_precommit_command transition read_now add_deadline require
  admit_native_precommit_command-Inv p = ground arith

  pub finish_native_precommit_command-Inv :
      (p : ℕ) → Inv c (finish_native_precommit_command e p l).0
  unfolding finish_native_precommit_command transition read_now add_deadline require
  finish_native_precommit_command-Inv p = ground arith

  pub finish_native_precommit_group-Inv :
      (p : ℕ) (o : NativeOutcome) → Inv c (finish_native_precommit_group e p o l).0
  unfolding finish_native_precommit_group transition read_now add_deadline require
  finish_native_precommit_group-Inv p o = ground arith

  pub snapshot-Inv : Inv c (snapshot e l).0
  unfolding snapshot transition read_now add_deadline require
  snapshot-Inv = ground arith
