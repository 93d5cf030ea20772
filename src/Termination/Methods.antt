-- ===== src/Termination/Methods.antt =====
-- The methods of the lifecycle, each under the owner fence.
use pass_hub.Base.{
  ℕ, ◌+◌, Bool, true, false, not, ◌&&◌, none, some, ltb, if◌then◌else◌, is_some, Result, ok, lookup,
  insert, ℕ_discrete,
}
use pass_hub.Budget.{NativeOutcome}
use pass_hub.Termination.{
  CommandState, ErrorCode, GroupState, Lifecycle, NativeGroups, Scope, Snapshot, call_native, deny,
  fail_closed, is_commit_unknown, is_current, is_sealed_precommit, make_snapshot, names,
  require_group, transition, precommit, commit_unknown, open_phase, sealed_precommit,
  sealed_commit_unknown, terminated, scope_not_sealed, scope_already_sealed,
  unknown_commit_abort_forbidden, lifecycle_terminated, abort_group_active, abort_group_terminated,
  invalid_abort_command, abort_command_already_settled, abort_command_in_flight,
  abort_group_unsettled,
}

module _ {L E : Type 0} where
  unfoldable pub seal_scope :
      Bool → Scope → Lifecycle L → Lifecycle L × Result (ErrorCode E) (Unit {0})
  unfolding transition
  seal_scope owner requested s = transition owner s (elim s.phase [
    | open_phase ↦ (
      record s {
        scope = some requested;
        phase = elim requested [
          | precommit ↦ sealed_precommit
          | commit_unknown ↦ sealed_commit_unknown
        ];
      },
      ok tt,
    )
    | _ ↦ deny s scope_already_sealed
  ])

  unfoldable pub reserve_group : Lifecycle L → ℕ → Lifecycle L × Result (ErrorCode E) ℕ
  reserve_group s native_permit = (
    record s {
      groups =
          insert ℕ_discrete s.minted
            (record {
              native_permit = native_permit;
              active = true;
              commands_admitted = 0;
              command = none;
            })
            s.groups;
      active_group = some s.minted;
      last_commands_admitted = 0;
      minted = s.minted + 1;
    },
    ok s.minted,
  )

  unfoldable pub reserve_abort_group :
      NativeGroups L E → Bool → Lifecycle L → Lifecycle L × Result (ErrorCode E) ℕ
  unfolding transition call_native reserve_group
  reserve_abort_group ops owner s = transition owner s (elim s.phase [
    | open_phase ↦ deny s scope_not_sealed
    | sealed_commit_unknown ↦ deny s unknown_commit_abort_forbidden
    | terminated ↦ deny s lifecycle_terminated
    | sealed_precommit ↦
        if is_some s.active_group
        then deny s abort_group_active
        else call_native s (ops.reserve s.ledger) reserve_group
  ])

  unfoldable pub start_command :
      ℕ → GroupState → Lifecycle L → ℕ → Lifecycle L × Result (ErrorCode E) ℕ
  start_command permit g s native_permit = (
    record s {
      commands =
          insert ℕ_discrete s.minted
            (record { group = permit; native_permit = native_permit; active = true }) s.commands;
      groups =
          insert ℕ_discrete permit
            (record g { command = some s.minted; commands_admitted = g.commands_admitted + 1 })
            s.groups;
      last_commands_admitted = g.commands_admitted + 1;
      minted = s.minted + 1;
    },
    ok s.minted,
  )

  -- `executeAbort` up to the send.
  unfoldable pub execute_abort :
      NativeGroups L E → Bool → ℕ → Lifecycle L → Lifecycle L × Result (ErrorCode E) ℕ
  unfolding transition call_native require_group start_command
  execute_abort ops owner permit s = transition owner s (
      require_group permit s λ g.
        if not (is_current permit g s)
        then deny s abort_group_terminated
        else if not (is_sealed_precommit s.phase)
        then deny s lifecycle_terminated
        else if is_some g.command
        then deny s abort_command_in_flight
        else call_native s (ops.admit g.native_permit s.ledger) (start_command permit g))

  unfoldable pub close_command :
      ℕ
      → CommandState
      → GroupState
      → Lifecycle L
      → Unit {0}
      → Lifecycle L × Result (ErrorCode E) (Unit {0})
  close_command id command g s done = (
    record s {
      commands = insert ℕ_discrete id (record command { active = false }) s.commands;
      groups = insert ℕ_discrete command.group (record g { command = none }) s.groups;
    },
    ok tt,
  )

  -- `settleCommand`, of a command that was sent: its state and its group are there.
  unfoldable pub settle_command :
      NativeGroups L E → Bool → ℕ → Lifecycle L → Lifecycle L × Result (ErrorCode E) (Unit {0})
  unfolding transition call_native close_command
  settle_command ops owner id s = transition owner s (elim (lookup ℕ_discrete id s.commands) [
    | none ↦ fail_closed s invalid_abort_command
    | some command ↦ elim (lookup ℕ_discrete command.group s.groups) [
      | none ↦ fail_closed s invalid_abort_command
      | some g ↦
          if not command.active
          then fail_closed s abort_command_already_settled
          else if not (is_current command.group g s && names g.command id)
          then fail_closed s invalid_abort_command
          else call_native s (ops.finish_command command.native_permit s.ledger)
              (close_command id command g)
    ]
  ])

  unfoldable pub end_group :
      ℕ → GroupState → Lifecycle L → Unit {0} → Lifecycle L × Result (ErrorCode E) (Unit {0})
  end_group permit g s done = (
    record s {
      groups = insert ℕ_discrete permit (record g { active = false }) s.groups;
      active_group = none;
      last_commands_admitted = g.commands_admitted;
      phase = terminated;
    },
    ok tt,
  )

  unfoldable pub terminate :
      NativeGroups L E
      → Bool
      → ℕ
      → NativeOutcome
      → Lifecycle L
      → Lifecycle L × Result (ErrorCode E) (Unit {0})
  unfolding transition call_native require_group end_group
  terminate ops owner permit outcome s = transition owner s (
      require_group permit s λ g.
        if not (is_current permit g s)
        then deny s abort_group_terminated
        else if is_some g.command
        then deny s abort_group_unsettled
        else if ltb g.commands_admitted 1
        then deny s abort_group_unsettled
        else call_native s (ops.finish_group g.native_permit outcome s.ledger) (end_group permit g))

  unfoldable pub close_unknown_commit :
      Bool → Lifecycle L → Lifecycle L × Result (ErrorCode E) (Unit {0})
  unfolding transition
  close_unknown_commit owner s = transition owner s (elim s.phase [
    | open_phase ↦ deny s scope_not_sealed
    | terminated ↦ deny s lifecycle_terminated
    | sealed_precommit ↦ deny s unknown_commit_abort_forbidden
    | sealed_commit_unknown ↦
        if not (is_commit_unknown s.scope)
        then deny s unknown_commit_abort_forbidden
        else if is_some s.active_group
        then fail_closed s abort_group_active
        else (record s { phase = terminated }, ok tt)
  ])

  unfoldable pub snapshot : Bool → Lifecycle L → Lifecycle L × Result (ErrorCode E) Snapshot
  unfolding transition
  snapshot owner s =
      if s.frozen then (s, ok (make_snapshot s)) else transition owner s (s, ok (make_snapshot s))
