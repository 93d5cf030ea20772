-- ===== src/Budget.antt =====
-- src/access/application/internal/budget-ledger.ts: what one write operation may still do, in rounds
-- of execution and in confirmations of an unknown result. A method takes the ledger to the ledger
-- after it, with what it returns or throws: a throw keeps the changes made before it.
-- A permit is an object with an identity, here the next number of a counter.
pub mod Execution
pub mod Confirmation
pub mod Native
pub mod Continuation
pub mod Calls
pub mod Limits
pub mod Flight
pub mod Permits
mod Tests
use pass_hub.Base.{
  ℕ, ◌+◌, ◌-◌, Bool, true, false, not, Option, none, some, List, [], ℤ, pos, negsuc, max_safe, ltb,
  leb, ◌==◌, if◌then◌else◌, Result, ok, err, Entries, lookup, ℕ_discrete,
}

pub record Config : Type 0 where
  pub execution_ms : ℕ
  pub max_rounds : ℕ
  pub single_command_ms : ℕ
  pub confirmation_ms : ℕ
  pub confirmation_slots : ℕ
  pub native_group_slots : ℕ
  pub native_group_ms : ℕ

abbrev pub default_config : Config
default_config = record {
  execution_ms = 15000;
  max_rounds = 3;
  single_command_ms = 2000;
  confirmation_ms = 10000;
  confirmation_slots = 7;
  native_group_slots = 2;
  native_group_ms = 2000;
}

-- The checks of `captureConfig`, of numbers that are natural already.
abbrev is_positive_safe : ℕ → Bool
is_positive_safe n = if leb 1 n then leb n max_safe else false

unfoldable pub capture_config : Config → Option Config
capture_config c =
    if not (is_positive_safe c.execution_ms)
    then none
    else if not (is_positive_safe c.max_rounds)
    then none
    else if not (is_positive_safe c.single_command_ms)
    then none
    else if not (is_positive_safe c.confirmation_ms)
    then none
    else if not (is_positive_safe c.confirmation_slots)
    then none
    else if not (is_positive_safe c.native_group_slots)
    then none
    else if not (is_positive_safe c.native_group_ms)
    then none
    else if not (c.max_rounds == 3)
    then none
    else if not (c.confirmation_slots == 7)
    then none
    else if not (c.native_group_slots == 2)
    then none
    else some c

pub data CommandKind : Type 0 where
  crud initial_commit : CommandKind

pub data ConfirmationOrigin : Type 0 where
  unknown_result precommit_cleanup : ConfirmationOrigin

pub data ConfirmationKind : Type 0 where
  original_commit canonical_read : ConfirmationKind

pub data ConfirmationResult : Type 0 where
  still_unknown canonical_result no_effect_confirmed : ConfirmationResult

pub data NativeOutcome : Type 0 where
  still_unknown no_effect_confirmed : NativeOutcome

pub data ErrorCode : Type 0 where
  budget_frozen clock_failure clock_rollback deadline_overflow owner_stale : ErrorCode
  continuation_evidence_rejected invalid_permit permit_already_used : ErrorCode
  execution_not_admitted execution_rounds_exhausted execution_deadline round_active : ErrorCode
  command_in_flight confirmation_not_started confirmation_not_due confirmation_window : ErrorCode
  confirmation_slots_exhausted confirmation_in_flight confirmation_already_confirmed : ErrorCode
  native_group_active native_group_not_allowed native_group_slots_exhausted : ErrorCode
  native_group_window native_group_commands_exhausted : ErrorCode

pub record RoundState : Type 0 where
  pub generation : ℕ
  pub active : Bool
  pub initial_commit_admitted : Bool

pub record CommandState : Type 0 where
  pub round : ℕ
  pub kind : CommandKind
  pub timeout_ms : ℕ
  pub active : Bool

pub record ConfirmationState : Type 0 where
  pub kind : ConfirmationKind
  pub attempt : ℕ
  pub timeout_ms : ℕ
  pub active : Bool

pub record GroupState : Type 0 where
  pub deadline_ms : ℕ
  pub generation : ℕ
  pub active : Bool
  pub attempts : ℕ
  pub command : Option ℕ

pub record GroupCommandState : Type 0 where
  pub group : ℕ
  pub attempt : ℕ
  pub timeout_ms : ℕ
  pub active : Bool

-- The variables and weak maps of one ledger; states are named by the permits that they belong to.
pub record Ledger : Type 0 where
  pub frozen : Bool
  pub last_now_ms : Option ℕ
  pub execution_start_ms : Option ℕ
  pub execution_deadline_ms : Option ℕ
  pub rounds_started : ℕ
  pub active_round : Option ℕ
  pub last_round_initial_commit : Bool
  pub execution_command : Option ℕ
  pub confirmation_start_ms : Option ℕ
  pub confirmation_deadline_ms : Option ℕ
  pub confirmation_slots_remaining : ℕ
  pub confirmation_attempt : ℕ
  pub confirmation_next_at_ms : Option ℕ
  pub confirmation_command : Option ℕ
  pub confirmation_confirmed : Bool
  pub confirmation_result : Option ConfirmationResult
  pub continuation_authorized : Bool
  pub unknown_result_seen : Bool
  pub precommit_cleanup_seen : Bool
  pub native_group : Option ℕ
  pub native_groups_reserved : ℕ
  pub rounds : Entries ℕ RoundState
  pub execution_commands : Entries ℕ CommandState
  pub confirmations : Entries ℕ ConfirmationState
  pub native_groups : Entries ℕ GroupState
  pub native_commands : Entries ℕ GroupCommandState
  pub consumed_evidence : List ℕ
  pub minted : ℕ

unfoldable pub create : Config → Ledger
create c = record {
  frozen = false;
  last_now_ms = none;
  execution_start_ms = none;
  execution_deadline_ms = none;
  rounds_started = 0;
  active_round = none;
  last_round_initial_commit = false;
  execution_command = none;
  confirmation_start_ms = none;
  confirmation_deadline_ms = none;
  confirmation_slots_remaining = c.confirmation_slots;
  confirmation_attempt = 0;
  confirmation_next_at_ms = none;
  confirmation_command = none;
  confirmation_confirmed = false;
  confirmation_result = none;
  continuation_authorized = false;
  unknown_result_seen = false;
  precommit_cleanup_seen = false;
  native_group = none;
  native_groups_reserved = 0;
  rounds = [];
  execution_commands = [];
  confirmations = [];
  native_groups = [];
  native_commands = [];
  consumed_evidence = [];
  minted = 0;
}

-- What the trusted callbacks do when a method calls them. A callback that calls a method of this
-- ledger freezes it, whatever it answers then.
pub data OwnerReply : Type 0 where
  is_current throws reenters thenable returns_value : OwnerReply

pub data ClockReply : Type 0 where
  reads : ℤ → ClockReply
  throws reenters thenable not_integer : ClockReply

pub data VerifierReply : Type 0 where
  accepts throws reenters thenable returns_value : VerifierReply

pub record Replies : Type 0 where
  pub owner : OwnerReply
  pub clock : ClockReply
  pub verifier : VerifierReply

abbrev pub Returns : Type 0 → Type 0
Returns A = Ledger × Result ErrorCode A

abbrev pub deny : {A : Type 0} → Ledger → ErrorCode → Returns A
deny l code = (l, err code)

unfoldable pub fail_closed : {A : Type 0} → Ledger → ErrorCode → Returns A
fail_closed l code = (record l { frozen = true }, err code)

abbrev pub current_owner : OwnerReply → Bool
current_owner is_current = true
current_owner _ = false

-- `transition` with `assertOwner`. No method is under way when a method is called, but from a
-- callback.
unfoldable pub transition : {A : Type 0} → Replies → Ledger → (Ledger → Returns A) → Returns A
unfolding fail_closed
transition e l work =
    if l.frozen
    then deny l budget_frozen
    else if not (current_owner e.owner)
    then fail_closed l owner_stale
    else work l

abbrev pub behind : ℕ → Option ℕ → Bool
behind now none = false
behind now (some last) = ltb now last

unfoldable pub accept_now :
    {A : Type 0} → ClockReply → Ledger → (Ledger → ℕ → Returns A) → Returns A
unfolding fail_closed
accept_now (reads (pos now)) l next =
    if ltb max_safe now
    then fail_closed l clock_failure
    else if behind now l.last_now_ms
    then fail_closed l clock_rollback
    else next (record l { last_now_ms = some now }) now
accept_now (reads (negsuc n)) l next = fail_closed l clock_failure
accept_now throws l next = fail_closed l clock_failure
accept_now reenters l next = fail_closed l clock_failure
accept_now thenable l next = fail_closed l clock_failure
accept_now not_integer l next = fail_closed l clock_failure

unfoldable pub read_now : {A : Type 0} → Replies → Ledger → (Ledger → ℕ → Returns A) → Returns A
unfolding accept_now
read_now e l next = accept_now e.clock l next

unfoldable pub add_deadline : {A : Type 0} → ℕ → ℕ → Ledger → (ℕ → Returns A) → Returns A
unfolding fail_closed
add_deadline now duration l next =
    if ltb (max_safe - duration) now then fail_closed l deadline_overflow else next (now + duration)

-- A state that a permit names, if it is active.
unfoldable pub require :
    {S A : Type 0} → Ledger → Entries ℕ S → ℕ → (S → Bool) → (S → Returns A) → Returns A
unfolding fail_closed
require l states permit is_active next = elim (lookup ℕ_discrete permit states) [
  | none ↦ fail_closed l invalid_permit
  | some s ↦ if is_active s then next s else fail_closed l permit_already_used
]

-- `x === state`, for the variable that holds the state of a permit.
abbrev pub names : Option ℕ → ℕ → Bool
names none permit = false
names (some current) permit = current == permit

-- A test of an instant that may not be set yet.
abbrev pub at_or_after : ℕ → Option ℕ → Bool
at_or_after now none = false
at_or_after now (some limit) = leb limit now
