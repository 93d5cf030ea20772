-- ===== src/Budget/Confirmation.antt =====
-- Confirmations of an unknown result: original commits and canonical reads in turn.
use pass_hub.Base.{
  ℕ, ◌+◌, ◌-◌, ◌%◌, Bool, true, false, not, ◌&&◌, ◌||◌, Option, none, some, ltb, ◌==◌, min,
  if◌then◌else◌, is_some, ok, insert, ℕ_discrete,
}
use pass_hub.Budget.{
  Config, Ledger, Replies, Returns, ConfirmationState, ConfirmationOrigin, unknown_result,
  precommit_cleanup, ConfirmationKind, original_commit, canonical_read, ConfirmationResult, deny,
  fail_closed, transition, read_now, add_deadline, require, names, invalid_permit,
  execution_not_admitted, command_in_flight, confirmation_not_started, confirmation_not_due,
  confirmation_window, confirmation_slots_exhausted, confirmation_in_flight,
  confirmation_already_confirmed, native_group_active,
}

abbrev pub mark_seen : ConfirmationOrigin → Ledger → Ledger
mark_seen unknown_result l = record l { unknown_result_seen = true }
mark_seen precommit_cleanup l = record l { precommit_cleanup_seen = true }

-- The start is set before the deadline is computed, also where that fails.
open_confirmation : Config → Ledger → ℕ → Returns (Unit {0})
open_confirmation c l now =
    let started = record l { confirmation_start_ms = some now } in
    add_deadline now c.confirmation_ms started λ deadline. (
      record started {
        confirmation_deadline_ms = some deadline;
        confirmation_next_at_ms = some now;
      },
      ok tt,
    )

start_confirmation_live : Config → Replies → ConfirmationOrigin → Ledger → Returns (Unit {0})
unfolding open_confirmation
start_confirmation_live c e origin l = elim l.confirmation_start_ms [
  | none ↦
      if not (is_some l.execution_start_ms)
      then deny l execution_not_admitted
      else if is_some l.execution_command
      then deny l command_in_flight
      else read_now e (mark_seen origin l) (open_confirmation c)
  | some start ↦ (mark_seen origin l, ok tt)
]

unfoldable pub start_confirmation :
    Config → Replies → ConfirmationOrigin → Ledger → Returns (Unit {0})
unfolding start_confirmation_live
start_confirmation c e origin l = transition e l (start_confirmation_live c e origin)

abbrev pub is_no_effect : Option ConfirmationResult → Bool
is_no_effect (some ConfirmationResult.no_effect_confirmed) = true
is_no_effect _ = false

-- The kind that is due.
abbrev pub due_kind : ℕ → ConfirmationKind
due_kind attempt = if attempt % 2 == 0 then original_commit else canonical_read

abbrev pub is_original : ConfirmationKind → Bool
is_original original_commit = true
is_original canonical_read = false

abbrev same_kind : ConfirmationKind → ConfirmationKind → Bool
same_kind original_commit k = is_original k
same_kind canonical_read k = not (is_original k)

abbrev timeout_of : Config → ConfirmationKind → ℕ → ℕ
timeout_of c kind remaining =
    if is_original kind then c.single_command_ms else min c.single_command_ms remaining

-- The tests that the probe and the admission share; `-` stops at 0, where the source goes below
-- it, and every use of the difference is a comparison with a number of at least 1.
unfoldable pub blocked : Ledger → {A : Type 0} → Returns A → Returns A
blocked l next =
    if not (is_some l.confirmation_start_ms)
    then deny l confirmation_not_started
    else if not (is_some l.confirmation_deadline_ms)
    then deny l confirmation_not_started
    else if not (is_some l.confirmation_next_at_ms)
    then deny l confirmation_not_started
    else if not l.unknown_result_seen
    then deny l confirmation_not_started
    else if l.confirmation_confirmed || is_no_effect l.confirmation_result
    then deny l confirmation_already_confirmed
    else if is_some l.confirmation_command
    then deny l confirmation_in_flight
    else if is_some l.native_group
    then deny l native_group_active
    else if ltb l.confirmation_slots_remaining 1
    then deny l confirmation_slots_exhausted
    else next

abbrev or_zero : Option ℕ → ℕ
or_zero none = 0
or_zero (some n) = n

unfoldable pub probe_at : Config → ConfirmationKind → Ledger → ℕ → Returns (Unit {0})
probe_at c expected l now =
    let remaining = or_zero l.confirmation_deadline_ms - now in
    let kind = due_kind l.confirmation_attempt in
    if ltb now (or_zero l.confirmation_next_at_ms)
    then deny l confirmation_not_due
    else if not (same_kind kind expected)
    then deny l confirmation_not_due
    else if is_original kind && ltb remaining c.single_command_ms
    then deny l confirmation_window
    else if ltb remaining 1
    then deny l confirmation_window
    else if ltb (timeout_of c kind remaining) 1
    then deny l confirmation_window
    else (l, ok tt)

unfoldable pub assert_next_unknown_confirmation_kind :
    Config → Replies → ConfirmationKind → Ledger → Returns (Unit {0})
unfolding blocked probe_at
assert_next_unknown_confirmation_kind c e expected l =
    transition e l λ l. blocked l (read_now e l (probe_at c expected))

unfoldable pub issue : Config → Ledger → ConfirmationKind → ℕ → Returns ℕ
issue c l kind timeout = (
  record l {
    confirmations =
        insert ℕ_discrete l.minted
          (record {
            kind = kind;
            attempt = l.confirmation_attempt;
            timeout_ms = timeout;
            active = true;
          })
          l.confirmations;
    confirmation_command = some l.minted;
    confirmation_slots_remaining = l.confirmation_slots_remaining - 1;
    minted = l.minted + 1;
  },
  ok l.minted,
)

unfoldable pub admit_at : Config → Ledger → ℕ → Returns ℕ
unfolding issue
admit_at c l now =
    let remaining = or_zero l.confirmation_deadline_ms - now in
    let kind = due_kind l.confirmation_attempt in
    if ltb now (or_zero l.confirmation_next_at_ms)
    then deny l confirmation_not_due
    else if is_original kind && ltb remaining c.single_command_ms
    then deny l confirmation_window
    else if ltb remaining 1
    then deny l confirmation_window
    else if ltb (timeout_of c kind remaining) 1
    then deny l confirmation_window
    else issue c l kind (timeout_of c kind remaining)

unfoldable pub admit_next_unknown_confirmation : Config → Replies → Ledger → Returns ℕ
unfolding blocked admit_at
admit_next_unknown_confirmation c e l = transition e l λ l. blocked l (read_now e l (admit_at c))

-- The permit is used up, and nothing is in flight.
abbrev settled : ℕ → ConfirmationState → Ledger → Ledger
settled permit s l = record l {
  confirmations = insert ℕ_discrete permit (record s { active = false }) l.confirmations;
  confirmation_command = none;
}

-- The next confirmation is due a second after the first and two seconds after each later one.
postpone : ℕ → ConfirmationState → Ledger → ℕ → Returns (Unit {0})
postpone permit s l now =
    let waiting = record (settled permit s l) {
      confirmation_attempt = l.confirmation_attempt + 1;
      confirmation_result = some ConfirmationResult.still_unknown;
    } in
    add_deadline now (if l.confirmation_attempt + 1 == 1 then 1000 else 2000) waiting
      λ next. (record waiting { confirmation_next_at_ms = some next }, ok tt)

require_confirmation :
    Replies → ℕ → Ledger → (ConfirmationState → Ledger → Returns (Unit {0})) → Returns (Unit {0})
require_confirmation e permit l next = transition e l λ l.
    require l l.confirmations permit (λ s. s.active)
      λ s.
        if not (names l.confirmation_command permit) then fail_closed l invalid_permit else next s l

unfoldable pub settle_still_unknown : Replies → ℕ → Ledger → Returns (Unit {0})
unfolding require_confirmation postpone
settle_still_unknown e permit l =
    require_confirmation e permit l λ s l. read_now e l (postpone permit s)

unfoldable pub settle_confirmed : Replies → ℕ → Ledger → Returns (Unit {0})
unfolding require_confirmation
settle_confirmed e permit l = require_confirmation e permit l λ s l. (
  record (settled permit s l) {
    confirmation_confirmed = true;
    confirmation_result = some ConfirmationResult.canonical_result;
  },
  ok tt,
)

unfoldable pub settle_no_effect_confirmed : Replies → ℕ → Ledger → Returns (Unit {0})
unfolding require_confirmation
settle_no_effect_confirmed e permit l = require_confirmation e permit l λ s l. (
  record (settled permit s l) { confirmation_result = some ConfirmationResult.no_effect_confirmed },
  ok tt,
)
