-- ===== src/Budget/Execution.antt =====
-- Rounds of execution and their commands.
use pass_hub.Base.{
  ℕ, ◌+◌, ◌-◌, Bool, true, false, not, ◌&&◌, none, some, leb, ltb, min, if◌then◌else◌, is_some, ok,
  insert, ℕ_discrete,
}
use pass_hub.Budget.{
  Config, Ledger, Replies, Returns, RoundState, CommandState, CommandKind, crud, initial_commit,
  deny, fail_closed, transition, read_now, add_deadline, require, names, at_or_after,
  invalid_permit, execution_not_admitted, native_group_active, round_active,
  execution_rounds_exhausted, execution_deadline, command_in_flight,
}

-- The first round fixes the deadline of all rounds. The start is set before the deadline is
-- computed, also where that fails.
start_execution : Config → Ledger → ℕ → (Ledger → Returns ℕ) → Returns ℕ
start_execution c l now next = elim l.execution_start_ms [
  | some start ↦ next l
  | none ↦
      let started = record l { execution_start_ms = some now } in
      add_deadline now c.execution_ms started
        λ deadline. next (record started { execution_deadline_ms = some deadline })
]

open_round : Ledger → Returns ℕ
open_round l = (
  record l {
    rounds_started = l.rounds_started + 1;
    rounds =
        insert ℕ_discrete l.minted
          (record {
            generation = l.rounds_started + 1;
            active = true;
            initial_commit_admitted = false;
          })
          l.rounds;
    active_round = some l.minted;
    continuation_authorized = false;
    confirmation_result = if l.continuation_authorized then none else l.confirmation_result;
    minted = l.minted + 1;
  },
  ok l.minted,
)

begin_round_at : Config → Ledger → ℕ → Returns ℕ
unfolding start_execution open_round
begin_round_at c l now =
    if at_or_after now l.execution_deadline_ms
    then deny l execution_deadline
    else start_execution c l now open_round

begin_round_live : Config → Replies → Ledger → Returns ℕ
unfolding begin_round_at
begin_round_live c e l =
    if is_some l.confirmation_start_ms && not l.continuation_authorized
    then deny l execution_not_admitted
    else if is_some l.native_group
    then deny l native_group_active
    else if is_some l.active_round
    then deny l round_active
    else if leb c.max_rounds l.rounds_started
    then deny l execution_rounds_exhausted
    else read_now e l (begin_round_at c)

unfoldable pub begin_round : Config → Replies → Ledger → Returns ℕ
unfolding begin_round_live
begin_round c e l = transition e l (begin_round_live c e)

close_round : ℕ → Ledger → RoundState → Returns (Unit {0})
close_round permit l s =
    if not (names l.active_round permit)
    then fail_closed l invalid_permit
    else if is_some l.execution_command
    then deny l command_in_flight
    else (
      record l {
        last_round_initial_commit = s.initial_commit_admitted;
        rounds = insert ℕ_discrete permit (record s { active = false }) l.rounds;
        active_round = none;
      },
      ok tt,
    )

unfoldable pub finish_round : Replies → ℕ → Ledger → Returns (Unit {0})
unfolding close_round
finish_round e permit l =
    transition e l λ l. require l l.rounds permit (λ s. s.active) (close_round permit l)

abbrev pub is_commit : CommandKind → Bool
is_commit crud = false
is_commit initial_commit = true

unfoldable pub open_command : ℕ → CommandKind → RoundState → Ledger → ℕ → Returns ℕ
open_command round kind s l timeout = (
  record l {
    rounds =
        if is_commit kind
        then insert ℕ_discrete round (record s { initial_commit_admitted = true }) l.rounds
        else l.rounds;
    execution_commands =
        insert ℕ_discrete l.minted
          (record { round = round; kind = kind; timeout_ms = timeout; active = true })
          l.execution_commands;
    execution_command = some l.minted;
    minted = l.minted + 1;
  },
  ok l.minted,
)

-- After the first test of the deadline at least a millisecond is left.
unfoldable pub admit_command_at : Config → ℕ → CommandKind → RoundState → Ledger → ℕ → Returns ℕ
unfolding open_command
admit_command_at c round kind s l now = elim l.execution_deadline_ms [
  | none ↦ deny l execution_deadline
  | some deadline ↦
      if leb deadline now
      then deny l execution_deadline
      else if ltb (deadline - now) 1
      then deny l execution_deadline
      else if ltb (min c.single_command_ms (deadline - now)) 1
      then deny l execution_deadline
      else open_command round kind s l (min c.single_command_ms (deadline - now))
]

unfoldable pub admit_command : Config → Replies → ℕ → CommandKind → Ledger → RoundState → Returns ℕ
unfolding admit_command_at
admit_command c e round kind l s =
    if not (names l.active_round round)
    then fail_closed l invalid_permit
    else if is_some l.confirmation_start_ms
    then deny l execution_not_admitted
    else if is_some l.native_group
    then deny l native_group_active
    else if is_some l.execution_command
    then deny l command_in_flight
    else if is_commit kind && s.initial_commit_admitted
    then deny l execution_not_admitted
    else read_now e l (admit_command_at c round kind s)

unfoldable pub admit_execution_command : Config → Replies → ℕ → CommandKind → Ledger → Returns ℕ
unfolding admit_command
admit_execution_command c e round kind l =
    transition e l λ l. require l l.rounds round (λ s. s.active) (admit_command c e round kind l)

close_command : ℕ → Ledger → CommandState → Returns (Unit {0})
close_command permit l s =
    if not (names l.execution_command permit) then fail_closed l invalid_permit else (
      record l {
        execution_commands =
            insert ℕ_discrete permit (record s { active = false }) l.execution_commands;
        execution_command = none;
      },
      ok tt,
    )

unfoldable pub finish_execution_command : Replies → ℕ → Ledger → Returns (Unit {0})
unfolding close_command
finish_execution_command e permit l =
    transition e l
      λ l. require l l.execution_commands permit (λ s. s.active) (close_command permit l)
