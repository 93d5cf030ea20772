-- ===== src/Rate.antt =====
-- src/composition/internal/fixed-minute-rate-ledger.ts: how many requests of a kind are let through
-- in each minute of the clock, for each key and in all.
pub mod Bounds
pub mod Windows
pub mod Clock
pub mod Timing
pub mod Freezing
pub mod Allowed
mod Tests
use pass_hub.Base.{
  ℕ, zero, suc, ◌+◌, ◌/◌, ◌≤◌, Bool, true, false, ◌&&◌, ◌||◌, not, Option, none, some, List, [],
  ◌∷◌, String, ℤ, pos, negsuc, is_safe_integer, max_safe, is_empty, leb, ltb, if◌then◌else◌, length,
  Entries, lookup, insert, String-discrete,
}

pub data Category : Type 0 where
  login query recognition management : Category

pub Category-discrete : Discrete Category
Category-discrete = hlevel

pub data ErrorCode : Type 0 where
  invalid_key clock_failure rate_limiter_frozen : ErrorCode

-- What `allow` returns, or throws with the category of the port.
pub data Outcome : Type 0 where
  allowed rate_limited : Outcome
  throws : ErrorCode → Outcome

pub record CategoryLimits : Type 0 where
  pub per_key : ℕ
  pub global : ℕ
  pub max_keys : Option ℕ

pub record Limits : Type 0 where
  pub login : CategoryLimits
  pub query : CategoryLimits
  pub recognition : CategoryLimits
  pub management : CategoryLimits

abbrev pub fixed_minute_rate_limits : Limits
fixed_minute_rate_limits = record {
  login = record { per_key = 5; global = 20; max_keys = some 256 };
  query = record { per_key = 60; global = 120; max_keys = none };
  recognition = record { per_key = 30; global = 60; max_keys = none };
  management = record { per_key = 10; global = 20; max_keys = none };
}

pub record CategoryState : Type 0 where
  pub limits : CategoryLimits
  pub minute : Option ℕ
  pub global_count : ℕ
  pub counts : Entries String ℕ

pub record GuardedClock : Type 0 where
  pub last_now_ms : Option ℕ
  pub invoking : Bool
  pub frozen : Bool

-- What one call of the trusted clock does: it may call a port of the same ledger before it
-- answers, and its answer is an integer, another value, or an exception.
pub data ClockReply : Type 0 where
  reads : ℤ → ClockReply
  not_integer throws : ClockReply

pub record ClockCall : Type 0 where
  pub reenters : Bool
  pub reply : ClockReply

pub record Ledger : Type 0 where
  pub guard : GuardedClock
  pub login : CategoryState
  pub query : CategoryState
  pub recognition : CategoryState
  pub management : CategoryState

abbrev pub new_state : CategoryLimits → CategoryState
new_state limits = record { limits = limits; minute = none; global_count = 0; counts = [] }

unfoldable pub create : Limits → Ledger
create l = record {
  guard = record { last_now_ms = none; invoking = false; frozen = false };
  login = new_state l.login;
  query = new_state l.query;
  recognition = new_state l.recognition;
  management = new_state l.management;
}

-- The limits that a caller gives, before they are checked.
pub record GivenLimits : Type 0 where
  pub per_key : ℤ
  pub global : ℤ
  pub max_keys : Option ℤ

infixl 5 ◌>>=◌
abbrev ◌>>=◌ {ℓ κ} : {A : Type ℓ} {B : Type κ} → Option A → (A → Option B) → Option B
none >>= k = none
some a >>= k = k a

-- `none` is the exception for a number that is not a safe integer of at least 1.
abbrev pub positive_safe : ℤ → Option ℕ
positive_safe (pos n) = if leb n max_safe && leb 1 n then some n else none
positive_safe (negsuc n) = none

capture_max_keys : Option ℤ → Option (Option ℕ)
capture_max_keys none = some none
capture_max_keys (some v) = do n ← positive_safe v; some (some n)

unfoldable pub capture_category_limits : GivenLimits → Option CategoryLimits
unfolding capture_max_keys
capture_category_limits g = do
  per_key ← positive_safe g.per_key
  global ← positive_safe g.global
  max_keys ← capture_max_keys g.max_keys
  some (record { per_key = per_key; global = global; max_keys = max_keys })

unfoldable pub create_configurable :
    GivenLimits → GivenLimits → GivenLimits → GivenLimits → Option Ledger
create_configurable l q r m = do
  l' ← capture_category_limits l
  q' ← capture_category_limits q
  r' ← capture_category_limits r
  m' ← capture_category_limits m
  some (create (record { login = l'; query = q'; recognition = r'; management = m' }))

-- `freezeLedger`, less its exception.
abbrev pub freeze : GuardedClock → GuardedClock
freeze g = record g { frozen = true }

-- A call of a port while another one waits for the clock: the first two tests of `allow`.
abbrev reentrant_allow : GuardedClock → GuardedClock
reentrant_allow g = if g.frozen then g else if g.invoking then freeze g else g

abbrev before : Option ℕ → ℕ → Bool
before none now = false
before (some last) now = ltb now last

-- `none` is the exception; the guard is changed either way.
accept_reading : GuardedClock → ClockReply → GuardedClock × Option ℕ
accept_reading g throws = (freeze g, none)
accept_reading g not_integer = (freeze g, none)
accept_reading g (reads (negsuc n)) = (freeze g, none)
accept_reading g (reads (pos now)) =
    if g.frozen
    then (freeze g, none)
    else if not (is_safe_integer (pos now))
    then (freeze g, none)
    else if before g.last_now_ms now
    then (freeze g, none)
    else (record g { last_now_ms = some now }, some now)

unfoldable pub read_guarded_clock : GuardedClock → ClockCall → GuardedClock × Option ℕ
unfolding accept_reading
read_guarded_clock g c =
    let asked = record g { invoking = true } in
    let answered = if c.reenters then reentrant_allow asked else asked in
    accept_reading (record answered { invoking = false }) c.reply

-- The counters of the minute of the clock; `none` where that minute is past.
unfoldable pub enter_minute : CategoryState → ℕ → Option CategoryState
enter_minute s now = elim s.minute [
  | none ↦ some (record s { minute = some now; global_count = 0; counts = [] })
  | some m ↦
      if ltb m now
      then some (record s { minute = some now; global_count = 0; counts = [] })
      else if ltb now m
      then none
      else some s
]

abbrev pub or_zero : Option ℕ → ℕ
or_zero none = 0
or_zero (some n) = n

abbrev key_limit_reached : Option ℕ → Option ℕ → ℕ → Bool
key_limit_reached none (some most) size = leb most size
key_limit_reached _ _ size = false

unfoldable pub count_request : CategoryState → String → CategoryState × Outcome
count_request s key =
    let existing = lookup String-discrete key s.counts in
    if key_limit_reached existing s.limits.max_keys (length s.counts)
    then (s, rate_limited)
    else if leb s.limits.global s.global_count
    then (s, rate_limited)
    else if leb s.limits.per_key (or_zero existing)
    then (s, rate_limited)
    else (
      record s {
        counts = insert String-discrete key (or_zero existing + 1) s.counts;
        global_count = s.global_count + 1;
      },
      allowed,
    )

abbrev pub Ported : Type 0
Ported = GuardedClock × CategoryState × Outcome

count_in_minute : GuardedClock → CategoryState → String → Option CategoryState → Ported
count_in_minute g s key none = (freeze g, s, throws clock_failure)
count_in_minute g s key (some current) =
    let (counted, outcome) = count_request current key in (g, counted, outcome)

count_at : CategoryState → String → GuardedClock × Option ℕ → Ported
unfolding count_in_minute
count_at s key (g, none) = (g, s, throws clock_failure)
count_at s key (g, some now) = count_in_minute g s key (enter_minute s (now / 60000))

-- `allow` of one port, with the guard that all ports share.
unfoldable pub allow_in : GuardedClock → CategoryState → String → ClockCall → Ported
unfolding count_at
allow_in g s key c =
    if g.frozen
    then (g, s, throws rate_limiter_frozen)
    else if g.invoking
    then (freeze g, s, throws clock_failure)
    else if is_empty key
    then (g, s, throws invalid_key)
    else count_at s key (read_guarded_clock g c)

abbrev pub select : Ledger → Category → CategoryState
select l login = l.login
select l query = l.query
select l recognition = l.recognition
select l management = l.management

abbrev pub store : Ledger → Category → CategoryState → Ledger
store l login s = record l { login = s }
store l query s = record l { query = s }
store l recognition s = record l { recognition = s }
store l management s = record l { management = s }

abbrev stored : Ledger → Category → Ported → Ledger × Outcome
stored l c (g, s, outcome) = (store (record l { guard = g }) c s, outcome)

unfoldable pub allow : Ledger → Category → String → ClockCall → Ledger × Outcome
allow l c key call = stored l c (allow_in l.guard (select l c) key call)

pub record CategorySnapshot : Type 0 where
  pub minute : Option ℕ
  pub global_count : ℕ
  pub key_count : ℕ
  pub frozen : Bool

unfoldable pub snapshot : Ledger → Category → CategorySnapshot
snapshot l c = record {
  minute = (select l c).minute;
  global_count = (select l c).global_count;
  key_count = length (select l c).counts;
  frozen = l.guard.frozen;
}
