-- ===== src/Recovery.antt =====
-- src/composition/internal/g10c-recovery-scheduler.ts: the serial driver that asks for the result of
-- a commit whose answer was lost. Each event runs up to the next answer that it waits for, with
-- `driving` set while it waits.
pub mod Laws
mod Tests
use pass_hub.Base.{
  ℕ, Bool, true, false, not, ◌&&◌, ◌||◌, Option, none, some, List, [], ◌∷◌, ltb, ◌==◌,
  if◌then◌else◌, is_some, Result, ok, err,
}

pub data Phase : Type 0 where
  idle original_commit canonical_read failed_closed : Phase

-- `clear` is a timer that is not armed, and `armed` holds its delay.
pub data Timer : Type 0 where
  clear : Timer
  armed : ℕ → Timer

-- The terminal is that of the ticket that was claimed.
pub record Scheduler : Type 0 where
  pub last_now_ms : Option ℕ
  pub phase : Phase
  pub terminal : Option ℕ
  pub timer : Timer
  pub driving : Bool

unfoldable pub create : Scheduler
create = record {
  last_now_ms = none;
  phase = idle;
  terminal = none;
  timer = clear;
  driving = false;
}

-- A finite number that is not negative, or anything else. The code takes fractions of a millisecond
-- too; it only compares two readings, and the numbers here are whole.
pub data ClockReply : Type 0 where
  reads : ℕ → ClockReply
  invalid : ClockReply

-- The first of the pending tickets, claimed; none is pending; or a call throws.
pub data ClaimReply : Type 0 where
  claims : ℕ → ClaimReply
  none_pending throws : ClaimReply

pub record Replies : Type 0 where
  pub clock : ClockReply
  pub claim : ClaimReply
  pub timer_is_set : Bool
  pub is_persisted : Bool

abbrev pub is_failed : Phase → Bool
is_failed failed_closed = true
is_failed _ = false

abbrev pub is_armed : Timer → Bool
is_armed clear = false
is_armed (armed delay) = true

abbrev behind : ℕ → Option ℕ → Bool
behind now none = false
behind now (some last) = ltb now last

-- What returns, or throws, with the scheduler as it is then. The errors differ only in their texts.
abbrev Attempt : Type 0
Attempt = Result Scheduler Scheduler

read_now : Replies → Scheduler → Attempt
read_now e s = elim e.clock [
  | reads now ↦ if behind now s.last_now_ms then err s else ok (record s { last_now_ms = some now })
  | invalid ↦ err s
]

-- The timer is cleared, and the owner of the claimed ticket is told.
abbrev pub fail_closed : Scheduler → Scheduler
fail_closed s = record s { timer = clear; terminal = none; driving = false; phase = failed_closed }

-- What follows an exception in `drive` is `failClosed`, with what was changed before it.
abbrev or_fail : Attempt → Scheduler
or_fail (ok s) = s
or_fail (err s) = fail_closed s

arm : Replies → ℕ → Phase → Scheduler → Attempt
unfolding read_now
arm e delay next s =
    if not (is_some s.terminal) || is_armed s.timer || is_failed s.phase
    then err s
    else (elim (read_now e s) [
      | err thrown ↦ err thrown
      | ok read ↦
          if not e.timer_is_set
          then err (record read { phase = next })
          else ok (record read { phase = next; timer = armed delay })
    ])

claim_next : Replies → Scheduler → Attempt
claim_next e s = elim e.claim [
  | claims ticket ↦ ok (record s { terminal = some ticket; phase = original_commit })
  | none_pending ↦ ok (record s { driving = false; phase = idle })
  | throws ↦ err s
]

-- The state must be that of one of the two commands when one is sent.
abbrev sends : Scheduler → Attempt
sends s = elim s.phase [
  | idle ↦ err s
  | original_commit ↦ ok s
  | canonical_read ↦ ok s
  | failed_closed ↦ err s
]

drive_now : Replies → Scheduler → Attempt
unfolding read_now claim_next
drive_now e s = elim (read_now e s) [
  | err thrown ↦ err thrown
  | ok read ↦ elim read.terminal [ none ↦ claim_next e read | some ticket ↦ sends read ]
]

-- Up to the command that is sent.
unfoldable pub drive : Replies → Scheduler → Scheduler
unfolding drive_now
drive e s =
    if s.driving || is_armed s.timer || is_failed s.phase
    then s
    else or_fail (drive_now e (record s { driving = true }))

unfoldable pub wake : Replies → Scheduler → Scheduler
unfolding drive
wake e s =
    if is_failed s.phase || is_some s.terminal || is_armed s.timer || s.driving
    then s
    else drive e s

unfoldable pub complete_confirmed : Replies → Scheduler → Scheduler
unfolding wake
complete_confirmed e s =
    if not e.is_persisted
    then fail_closed s
    else wake e (record s { terminal = none; driving = false; phase = idle })

pub data OriginalReply : Type 0 where
  confirmed throws : OriginalReply
  unconfirmed : ℕ → OriginalReply

pub data CanonicalReply : Type 0 where
  matched unmatched throws : CanonicalReply

unfoldable pub after_original : Replies → OriginalReply → Scheduler → Scheduler
unfolding complete_confirmed arm
after_original e confirmed s = complete_confirmed e s
after_original e throws s = fail_closed s
after_original e (unconfirmed attempt) s =
    or_fail
      (arm e (if attempt == 0 then 1000 else 2000) canonical_read (record s { driving = false }))

unfoldable pub after_canonical : Replies → CanonicalReply → Scheduler → Scheduler
unfolding complete_confirmed arm
after_canonical e matched s = complete_confirmed e s
after_canonical e throws s = fail_closed s
after_canonical e unmatched s = or_fail (arm e 2000 original_commit (record s { driving = false }))

-- A timer fires, or an answer comes, only where it is waited for.
pub data Event : Type 0 where
  wakes fires : Event
  answers_original : OriginalReply → Event
  answers_canonical : CanonicalReply → Event

abbrev is_original : Phase → Bool
is_original original_commit = true
is_original _ = false

abbrev is_canonical : Phase → Bool
is_canonical canonical_read = true
is_canonical _ = false

unfoldable pub step : Scheduler → Replies × Event → Scheduler
step s (e, wakes) = wake e s
step s (e, fires) = if is_armed s.timer then drive e (record s { timer = clear }) else s
step s (e, answers_original r) =
    if s.driving && is_original s.phase then after_original e r s else s
step s (e, answers_canonical r) =
    if s.driving && is_canonical s.phase then after_canonical e r s else s

unfoldable pub run : Scheduler → List (Replies × Event) → Scheduler
unfolding step
run s [] = s
run s (x ∷ xs) = run (step s x) xs
