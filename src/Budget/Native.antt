-- ===== src/Budget/Native.antt =====
-- Groups of native commands that clean up before a commit.
use pass_hub.Base.{
  ℕ, ◌+◌, ◌-◌, Bool, true, false, not, Option, none, some, leb, ltb, if◌then◌else◌, is_some, ok,
  lookup, insert, ℕ_discrete,
}
use pass_hub.Budget.{
  Config, Ledger, Replies, Returns, RoundState, GroupState, GroupCommandState, NativeOutcome,
  ConfirmationResult, deny, fail_closed, transition, read_now, add_deadline, require, names,
  at_or_after, invalid_permit, command_in_flight, native_group_active, native_group_not_allowed,
  native_group_slots_exhausted, native_group_window, native_group_commands_exhausted,
}

abbrev commit_admitted : Option RoundState → Bool
commit_admitted none = false
commit_admitted (some s) = s.initial_commit_admitted

-- Whether the active round, or else the last one, has had its initial commit admitted.
current_round_had_commit : Ledger → Bool
current_round_had_commit l = elim l.active_round [
  | none ↦ l.last_round_initial_commit
  | some round ↦ commit_admitted (lookup ℕ_discrete round l.rounds)
]

reserve : Config → Ledger → ℕ → Returns ℕ
reserve c l deadline = (
  record l {
    native_groups =
        insert ℕ_discrete l.minted
          (record {
            deadline_ms = deadline;
            generation = l.native_groups_reserved + 1;
            active = true;
            attempts = 0;
            command = none;
          })
          l.native_groups;
    native_group = some l.minted;
    native_groups_reserved = l.native_groups_reserved + 1;
    confirmation_slots_remaining = l.confirmation_slots_remaining - c.native_group_slots;
    minted = l.minted + 1;
  },
  ok l.minted,
)

reserve_at : Config → Ledger → ℕ → Returns ℕ
unfolding reserve
reserve_at c l now =
    if at_or_after now l.confirmation_deadline_ms
    then deny l native_group_window
    else add_deadline now c.native_group_ms l (reserve c l)

reserve_live : Config → Replies → Ledger → Returns ℕ
unfolding reserve_at current_round_had_commit
reserve_live c e l =
    if not (is_some l.confirmation_start_ms)
    then deny l native_group_not_allowed
    else if not (is_some l.confirmation_deadline_ms)
    then deny l native_group_not_allowed
    else if not l.precommit_cleanup_seen
    then deny l native_group_not_allowed
    else if l.confirmation_confirmed
    then deny l native_group_not_allowed
    else if current_round_had_commit l
    then deny l native_group_not_allowed
    else if is_some l.confirmation_command
    then deny l command_in_flight
    else if is_some l.execution_command
    then deny l command_in_flight
    else if is_some l.native_group
    then deny l native_group_active
    else if ltb l.confirmation_slots_remaining c.native_group_slots
    then deny l native_group_slots_exhausted
    else read_now e l (reserve_at c)

unfoldable pub reserve_native_precommit_group : Config → Replies → Ledger → Returns ℕ
unfolding reserve_live
reserve_native_precommit_group c e l = transition e l (reserve_live c e)

send : ℕ → GroupState → Ledger → ℕ → Returns ℕ
send group g l timeout = (
  record l {
    native_commands =
        insert ℕ_discrete l.minted
          (record { group = group; attempt = g.attempts; timeout_ms = timeout; active = true })
          l.native_commands;
    native_groups =
        insert ℕ_discrete group (record g { command = some l.minted; attempts = g.attempts + 1 })
          l.native_groups;
    minted = l.minted + 1;
  },
  ok l.minted,
)

send_at : ℕ → GroupState → Ledger → ℕ → Returns ℕ
unfolding send
send_at group g l now =
    if ltb (g.deadline_ms - now) 1
    then deny l native_group_window
    else send group g l (g.deadline_ms - now)

send_live : Replies → ℕ → Ledger → GroupState → Returns ℕ
unfolding send_at
send_live e group l g =
    if not (names l.native_group group)
    then fail_closed l invalid_permit
    else if is_some l.confirmation_command
    then deny l command_in_flight
    else if is_some l.execution_command
    then deny l command_in_flight
    else if is_some g.command
    then deny l command_in_flight
    else if leb 2 g.attempts
    then deny l native_group_commands_exhausted
    else read_now e l (send_at group g)

unfoldable pub admit_native_precommit_command : Replies → ℕ → Ledger → Returns ℕ
unfolding send_live
admit_native_precommit_command e group l =
    transition e l λ l. require l l.native_groups group (λ g. g.active) (send_live e group l)

-- The state of the group, which a command keeps in the source, is found by its permit.
close_native_command : ℕ → Ledger → GroupCommandState → Returns (Unit {0})
close_native_command permit l s = elim (lookup ℕ_discrete s.group l.native_groups) [
  | none ↦ fail_closed l invalid_permit
  | some g ↦ if not (names g.command permit) then fail_closed l invalid_permit else (
    record l {
      native_commands = insert ℕ_discrete permit (record s { active = false }) l.native_commands;
      native_groups = insert ℕ_discrete s.group (record g { command = none }) l.native_groups;
    },
    ok tt,
  )
]

unfoldable pub finish_native_precommit_command : Replies → ℕ → Ledger → Returns (Unit {0})
unfolding close_native_command
finish_native_precommit_command e permit l =
    transition e l
      λ l. require l l.native_commands permit (λ s. s.active) (close_native_command permit l)

abbrev outcome_result : NativeOutcome → ConfirmationResult
outcome_result NativeOutcome.still_unknown = ConfirmationResult.still_unknown
outcome_result NativeOutcome.no_effect_confirmed = ConfirmationResult.no_effect_confirmed

close_group : ℕ → NativeOutcome → Ledger → GroupState → Returns (Unit {0})
close_group permit outcome l g =
    if not (names l.native_group permit)
    then fail_closed l invalid_permit
    else if is_some g.command
    then deny l command_in_flight
    else (
      record l {
        native_groups = insert ℕ_discrete permit (record g { active = false }) l.native_groups;
        native_group = none;
        confirmation_result = some (outcome_result outcome);
      },
      ok tt,
    )

unfoldable pub finish_native_precommit_group :
    Replies → ℕ → NativeOutcome → Ledger → Returns (Unit {0})
unfolding close_group
finish_native_precommit_group e permit outcome l =
    transition e l
      λ l. require l l.native_groups permit (λ g. g.active) (close_group permit outcome l)
