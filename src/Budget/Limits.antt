-- ===== src/Budget/Limits.antt =====
-- What a call may change of the limits: the confirmation slots, the rounds and the two starts.
pub mod Commands
pub mod Groups
pub mod Calls
use pass_hub.Base.{
  pos, negsuc, max_safe, not, ◌||◌, if-cases, if-elim, is_some, Result, ok, err, sym, ltb, ℕ, ◌+◌,
  ◌*◌, ◌≤◌, Bool, true, false, Option, none, some, ◌≡◌, ◌≢◌, refl, ◌⊎◌, arith, List, [], ◌∷◌,
}
use pass_hub.Budget.{
  Config, current_owner, Ledger, Replies, ErrorCode, Returns, deny, fail_closed, ClockReply, reads,
  accept_now, behind, throws, reenters, thenable, not_integer, CommandKind, ConfirmationOrigin,
  ConfirmationKind, NativeOutcome, create, transition, read_now, add_deadline, require,
}
use pass_hub.Budget.Execution.{
  begin_round, finish_round, admit_execution_command, finish_execution_command,
}
use pass_hub.Budget.Confirmation.{
  start_confirmation, is_no_effect, blocked, probe_at, admit_at, issue,
  assert_next_unknown_confirmation_kind, admit_next_unknown_confirmation, settle_still_unknown,
  settle_confirmed, settle_no_effect_confirmed,
}
use pass_hub.Budget.Native.{
  reserve_native_precommit_group, admit_native_precommit_command, finish_native_precommit_command,
  finish_native_precommit_group,
}
use pass_hub.Budget.Continuation.{Evidence, authorize_continuation, snapshot}
use pass_hub.Budget.Calls.{Call, step, run}
use pass_hub.Budget.Flight.{read_now-keeps, transition-keeps, blocked-keeps, probe_at-keeps}

-- The second ledger may follow the first by a call that takes `spent` confirmation slots.
pub record Follows (spent : ℕ) (l l' : Ledger) : Type 0 where
  pub slots : l'.confirmation_slots_remaining + spent ≡ l.confirmation_slots_remaining
  pub rounds_kept : l.rounds_started ≤ l'.rounds_started
  pub start_kept : is_some l.confirmation_start_ms ≡ true → is_some l'.confirmation_start_ms ≡ true
  pub execution_kept :
      is_some l.execution_start_ms ≡ true → l'.execution_start_ms ≡ l.execution_start_ms
  pub freeze_kept : l.frozen ≡ true → l'.frozen ≡ true

-- The slots that a call takes which returns this: all of them where it returns, none where it
-- throws.
abbrev pub taken : {A : Type 0} → ℕ → Result ErrorCode A → ℕ
taken n (ok x) = n
taken n (err x) = 0

pub blocked-elim :
    {A : Type 0} (Q : Returns A → Type 0) (l : Ledger) (next : Returns A)
    → ((code : ErrorCode) → Q (deny l code))
    → (1 ≤ l.confirmation_slots_remaining → Q next)
    → Q (blocked l next)
unfolding blocked
blocked-elim Q l next v w = if-cases Q (not (is_some l.confirmation_start_ms)) _ _ (v _) (
    if-cases Q (not (is_some l.confirmation_deadline_ms)) _ _ (v _) (
      if-cases Q (not (is_some l.confirmation_next_at_ms)) _ _ (v _) (
        if-cases Q (not l.unknown_result_seen) _ _ (v _) (
          if-cases Q (l.confirmation_confirmed || is_no_effect l.confirmation_result) _ _ (v _) (
            if-cases Q (is_some l.confirmation_command) _ _ (v _) (
              if-cases Q (is_some l.native_group) _ _ (v _) (
                if-elim Q (ltb l.confirmation_slots_remaining 1) _ _ (λ _. v _)
                  λ h. w (ground arith))))))))

pub admit_at-Follows :
    (c : Config) (l : Ledger) (now : ℕ)
    → 1 ≤ l.confirmation_slots_remaining
    → Follows (taken 1 (admit_at c l now).1) l (admit_at c l now).0
unfolding admit_at issue
admit_at-Follows c l now h = ground arith

accept_now-elim :
    {A : Type 0} (Q : Returns A → Type 0) (reply : ClockReply) (l : Ledger)
    → (next : Ledger → ℕ → Returns A) → ((code : ErrorCode) → Q (fail_closed l code))
    → ((now : ℕ) → Q (next (record l { last_now_ms = some now }) now))
    → Q (accept_now reply l next)
unfolding accept_now
accept_now-elim Q (reads (pos now)) l next v w =
    if-cases Q (ltb max_safe now) _ _ (v _)
      (if-cases Q (behind now l.last_now_ms) _ _ (v _) (w now))
accept_now-elim Q (reads (negsuc n)) l next v w = v _
accept_now-elim Q throws l next v w = v _
accept_now-elim Q reenters l next v w = v _
accept_now-elim Q thenable l next v w = v _
accept_now-elim Q not_integer l next v w = v _

pub read_now-elim :
    {A : Type 0} (Q : Returns A → Type 0) (e : Replies) (l : Ledger) (next : Ledger → ℕ → Returns A)
    → ((code : ErrorCode) → Q (fail_closed l code))
    → ((now : ℕ) → Q (next (record l { last_now_ms = some now }) now))
    → Q (read_now e l next)
unfolding read_now
read_now-elim Q e l next v w = accept_now-elim Q e.clock l next v w

pub transition-elim :
    {A : Type 0} (Q : Returns A → Type 0) (e : Replies) (l : Ledger) (work : Ledger → Returns A)
    → ((code : ErrorCode) → Q (deny l code))
    → ((code : ErrorCode) → Q (fail_closed l code))
    → Q (work l)
    → Q (transition e l work)
unfolding transition
transition-elim Q e l work v f w =
    if-cases Q l.frozen _ _ (v _) (if-cases Q (not (current_owner e.owner)) _ _ (f _) w)

pub refl-Follows : (l : Ledger) → Follows 0 l l
refl-Follows l = ground arith

pub freeze-Follows : (l : Ledger) → Follows 0 l (record l { frozen = true })
freeze-Follows l = ground arith

pub stamp-Follows : (l : Ledger) (now : ℕ) → Follows 0 l (record l { last_now_ms = some now })
stamp-Follows l now = ground arith

pub stamped-Follows :
    (spent : ℕ) (l l' : Ledger) (now : ℕ)
    → Follows spent (record l { last_now_ms = some now }) l'
    → Follows spent l l'
stamped-Follows spent l l' now v = ground arith
