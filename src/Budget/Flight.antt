-- ===== src/Budget/Flight.antt =====
-- What can be in flight at one time, and how far the counters go.
pub mod Commands
pub mod Groups
pub mod Calls
use pass_hub.Budget.Continuation.{
  Evidence, primitive, opaque, authorize_at, authorize_live, verify, consumed, is_accepted,
}
use pass_hub.Base.{
  ◌-◌, leb, not, ◌||◌, List, if-cases, pos, negsuc, ltb, max_safe, if◌then◌else◌, is_some, ℕ, ◌+◌,
  ◌*◌, ◌≤◌, Bool, true, false, Option, none, some, ◌≡◌, ◌≢◌, refl, ◌⊎◌, arith, List, [], ◌∷◌,
}
use pass_hub.Budget.{
  deny, execution_not_admitted, Config, ClockReply, reads, accept_now, fail_closed, behind, throws,
  reenters, thenable, not_integer, Returns, Ledger, Replies, CommandKind, ConfirmationOrigin,
  ConfirmationKind, NativeOutcome, create, transition, read_now, add_deadline, require,
}
use pass_hub.Budget.Execution.{
  begin_round, finish_round, admit_execution_command, finish_execution_command,
}
use pass_hub.Budget.Confirmation.{
  is_no_effect, start_confirmation, blocked, probe_at, admit_at, issue,
  assert_next_unknown_confirmation_kind, admit_next_unknown_confirmation, settle_still_unknown,
  settle_confirmed, settle_no_effect_confirmed,
}
use pass_hub.Budget.Native.{
  reserve_native_precommit_group, admit_native_precommit_command, finish_native_precommit_command,
  finish_native_precommit_group,
}
use pass_hub.Budget.Continuation.{Evidence, authorize_continuation, snapshot}
use pass_hub.Budget.Calls.{Call, step, run}

-- At most one of an execution command, a confirmation and a native group is in flight: a command
-- only before the confirmation starts, the other two only after it. A confirmation starts only
-- after a round, and no more rounds are started than configured.
pub record Inv (c : Config) (l : Ledger) : Type 0 where
  pub command_before : (l.execution_command ≡ none) ⊎ (l.confirmation_start_ms ≡ none)
  pub confirmation_after : (l.confirmation_command ≡ none) ⊎ (l.confirmation_start_ms ≢ none)
  pub group_after : (l.native_group ≡ none) ⊎ (l.confirmation_start_ms ≢ none)
  pub one_of_two : (l.confirmation_command ≡ none) ⊎ (l.native_group ≡ none)
  pub begun : (l.confirmation_start_ms ≡ none) ⊎ (l.execution_start_ms ≢ none)
  pub rounds_ok : l.rounds_started ≤ c.max_rounds

pub create-Inv : (c : Config) → Inv c (create c)
unfolding create
create-Inv c = ground arith

-- Every throw of the tests that the probe and the admission share leaves the ledger.
pub blocked-keeps :
    {A : Type 0} (P : Ledger → Type 0) (l : Ledger) (next : Returns A)
    → P l
    → (is_some l.confirmation_start_ms ≡ true → is_some l.native_group ≡ false → P next.0)
    → P (blocked l next).0
unfolding blocked
blocked-keeps P l next v w = ground arith

pub probe_at-keeps :
    (c : Config) (k : ConfirmationKind) (l : Ledger) (now : ℕ) → (probe_at c k l now).0 ≡ l
unfolding probe_at
probe_at-keeps c k l now = ground arith

pub admit_at-Inv :
    (c : Config) (l : Ledger) (now : ℕ)
    → Inv c l
    → is_some l.confirmation_start_ms ≡ true
    → is_some l.native_group ≡ false
    → Inv c (admit_at c l now).0
unfolding admit_at issue
admit_at-Inv c l now v h k = ground arith

accept_now-keeps :
    {A : Type 0} (P : Ledger → Type 0) (reply : ClockReply) (l : Ledger)
    → (next : Ledger → ℕ → Returns A) → P (record l { frozen = true })
    → ((now : ℕ) → P (next (record l { last_now_ms = some now }) now).0)
    → P (accept_now reply l next).0
unfolding accept_now fail_closed
accept_now-keeps P (reads (pos now)) l next v w =
    if-cases {A = Returns _} (λ r. P r.0) (ltb max_safe now) _ _ v
      (if-cases {A = Returns _} (λ r. P r.0) (behind now l.last_now_ms) _ _ v (w now))
accept_now-keeps P (reads (negsuc n)) l next v w = v
accept_now-keeps P throws l next v w = v
accept_now-keeps P reenters l next v w = v
accept_now-keeps P thenable l next v w = v
accept_now-keeps P not_integer l next v w = v

pub read_now-keeps :
    {A : Type 0} (P : Ledger → Type 0) (e : Replies) (l : Ledger) (next : Ledger → ℕ → Returns A)
    → P (record l { frozen = true })
    → ((now : ℕ) → P (next (record l { last_now_ms = some now }) now).0)
    → P (read_now e l next).0
unfolding read_now
read_now-keeps P e l next v w = accept_now-keeps P e.clock l next v w

pub transition-keeps :
    {A : Type 0} (P : Ledger → Type 0) (e : Replies) (l : Ledger) (work : Ledger → Returns A)
    → P l
    → P (record l { frozen = true })
    → P (work l).0
    → P (transition e l work).0
unfolding transition
transition-keeps P e l work v f w = ground arith

pub freeze-Inv : (c : Config) (l : Ledger) → Inv c l → Inv c (record l { frozen = true })
freeze-Inv c l v = ground arith

pub stamp-Inv :
    (c : Config) (l : Ledger) (now : ℕ) → Inv c l → Inv c (record l { last_now_ms = some now })
stamp-Inv c l now v = ground arith

pub authorize_at-keeps :
    (P : Ledger → Type 0) (e : Replies) (evidence : Evidence) (deadline : ℕ) (l : Ledger) (now : ℕ)
    → P l
    → P (record l { frozen = true })
    → ((used : List ℕ) → P (record l { consumed_evidence = used; continuation_authorized = true }))
    → P (authorize_at e evidence deadline l now).0
unfolding authorize_at verify fail_closed
authorize_at-keeps P e evidence deadline l now v f w =
    if-cases {A = Returns _} (λ r. P r.0) (leb deadline now) _ _ v
      (if-cases {A = Returns _} (λ r. P r.0) (ltb (deadline - now) 1) _ _ v (verified evidence))
  where
    verified : (x : Evidence) → P (verify e x l).0
    verified primitive = f
    verified (opaque x) =
        if-cases {A = Returns _} (λ r. P r.0) (consumed x l.consumed_evidence) _ _ f
          (if-cases {A = Returns _} (λ r. P r.0) (not (is_accepted e.verifier)) _ _ f (w _))

pub authorize_live-keeps :
    (P : Ledger → Type 0) (c : Config) (e : Replies) (evidence : Evidence) (l : Ledger)
    → P l
    → P (record l { frozen = true })
    → ((deadline now : ℕ)
        → P (authorize_at e evidence deadline (record l { last_now_ms = some now }) now).0)
    → P (authorize_live c e evidence l).0
unfolding authorize_live
authorize_live-keeps P c e evidence l v f w =
    let Q : Returns (Unit {0}) → Type 0 = λ r. P r.0 in
    if-cases Q (not (is_some l.execution_start_ms) || not (is_some l.confirmation_start_ms)) _ _ v (
      if-cases Q
        (is_some l.active_round
          || is_some l.execution_command
          || is_some l.confirmation_command
          || is_some l.native_group)
        _ _ v
        (if-cases Q l.continuation_authorized _ _ v (
          if-cases Q (not (is_no_effect l.confirmation_result)) _ _ v
            (if-cases Q (leb c.max_rounds l.rounds_started) _ _ v (from l.execution_deadline_ms)))))
  where
    from :
        (found : Option ℕ)
        → P
            (elim found as (λ x. Returns (Unit {0})) [
              | none ↦ deny l execution_not_admitted
              | some deadline ↦ read_now e l (authorize_at e evidence deadline)
            ]).0
    from none = v
    from (some deadline) = read_now-keeps P e l _ f λ now. w deadline now
