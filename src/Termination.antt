-- ===== src/Termination.antt =====
-- src/access/application/internal/precommit-termination-lifecycle.ts: who may abort before a commit,
-- over the native groups of a budget ledger. A permit has no more than an identity, here the
-- next number of a counter. `executeAbort` is two events: it sends, and its send is settled later.
pub mod Methods
pub mod Calls
pub mod Closing
pub mod Native
pub mod Bounded
mod Tests
use pass_hub.Base.{
  ℕ, ◌+◌, Bool, true, false, not, ◌&&◌, ◌||◌, Option, none, some, List, [], ◌∷◌, leb, ltb, ◌==◌,
  if◌then◌else◌, is_some, Result, ok, err, Entries, lookup, insert, ℕ_discrete,
}
use pass_hub.Budget.{NativeOutcome}

pub data Scope : Type 0 where
  precommit commit_unknown : Scope

pub data Phase : Type 0 where
  open_phase sealed_precommit sealed_commit_unknown terminated : Phase

pub data ErrorCode (E : Type 0) : Type 0 where
  lifecycle_frozen owner_stale scope_not_sealed scope_already_sealed : ErrorCode E
  unknown_commit_abort_forbidden lifecycle_terminated abort_group_active : ErrorCode E
  invalid_abort_group abort_group_terminated invalid_abort_command : ErrorCode E
  abort_command_already_settled abort_command_in_flight abort_group_unsettled : ErrorCode E
  native : E → ErrorCode E

-- What the lifecycle calls of a ledger `L`, whose errors it passes on.
pub record NativeGroups (L E : Type 0) : Type 0 where
  pub reserve : L → L × Result E ℕ
  pub admit : ℕ → L → L × Result E ℕ
  pub finish_command : ℕ → L → L × Result E (Unit {0})
  pub finish_group : ℕ → NativeOutcome → L → L × Result E (Unit {0})

pub record GroupState : Type 0 where
  pub native_permit : ℕ
  pub active : Bool
  pub commands_admitted : ℕ
  pub command : Option ℕ

pub record CommandState : Type 0 where
  pub group : ℕ
  pub native_permit : ℕ
  pub active : Bool

pub record Lifecycle (L : Type 0) : Type 0 where
  pub ledger : L
  pub frozen : Bool
  pub phase : Phase
  pub scope : Option Scope
  pub active_group : Option ℕ
  pub last_commands_admitted : ℕ
  pub groups : Entries ℕ GroupState
  pub commands : Entries ℕ CommandState
  pub minted : ℕ

pub record Snapshot : Type 0 where
  pub frozen : Bool
  pub phase : Phase
  pub scope : Option Scope
  pub active_group : Bool
  pub abort_commands_admitted : ℕ
  pub abort_command_in_flight : Bool

abbrev pub names : Option ℕ → ℕ → Bool
names none id = false
names (some k) id = k == id

abbrev pub create : {L : Type 0} → L → Lifecycle L
create l = record {
  ledger = l;
  frozen = false;
  phase = open_phase;
  scope = none;
  active_group = none;
  last_commands_admitted = 0;
  groups = [];
  commands = [];
  minted = 0;
}

abbrev pub is_sealed_precommit : Phase → Bool
is_sealed_precommit sealed_precommit = true
is_sealed_precommit _ = false

abbrev pub is_commit_unknown : Option Scope → Bool
is_commit_unknown (some commit_unknown) = true
is_commit_unknown _ = false

abbrev pub is_current : {L : Type 0} → ℕ → GroupState → Lifecycle L → Bool
is_current permit g s = g.active && names s.active_group permit

-- The group that is active is there, since none is removed.
abbrev current_state : {L : Type 0} → Lifecycle L → Option GroupState
current_state s = elim s.active_group [ none ↦ none | some id ↦ lookup ℕ_discrete id s.groups ]

abbrev pub make_snapshot : {L : Type 0} → Lifecycle L → Snapshot
make_snapshot s = record {
  frozen = s.frozen;
  phase = s.phase;
  scope = s.scope;
  active_group = is_some s.active_group;
  abort_commands_admitted = elim (current_state s) [
    | none ↦ s.last_commands_admitted
    | some g ↦ g.commands_admitted
  ];
  abort_command_in_flight = elim (current_state s) [ none ↦ false | some g ↦ is_some g.command ];
}

module _ {L E : Type 0} where
  abbrev pub deny : {A : Type 0} → Lifecycle L → ErrorCode E → Lifecycle L × Result (ErrorCode E) A
  deny s code = (s, err code)

  abbrev pub fail_closed :
      {A : Type 0} → Lifecycle L → ErrorCode E → Lifecycle L × Result (ErrorCode E) A
  fail_closed s code = (record s { frozen = true }, err code)

  -- `owner` tells whether the owner fence returns undefined and does not call the lifecycle.
  unfoldable pub transition :
      {A : Type 0}
      → Bool
      → Lifecycle L
      → Lifecycle L × Result (ErrorCode E) A
      → Lifecycle L × Result (ErrorCode E) A
  transition owner s work =
      if s.frozen
      then deny s lifecycle_frozen
      else if not owner
      then fail_closed s owner_stale
      else work

  unfoldable pub call_native :
      {A B : Type 0}
      → Lifecycle L
      → L × Result E A
      → (Lifecycle L → A → Lifecycle L × Result (ErrorCode E) B)
      → Lifecycle L × Result (ErrorCode E) B
  call_native s (l, err code) next = (record s { ledger = l }, err (native code))
  call_native s (l, ok a) next = next (record s { ledger = l }) a

  unfoldable pub require_group :
      {A : Type 0}
      → ℕ
      → Lifecycle L
      → (GroupState → Lifecycle L × Result (ErrorCode E) A)
      → Lifecycle L × Result (ErrorCode E) A
  require_group permit s next = elim (lookup ℕ_discrete permit s.groups) [
    | none ↦ fail_closed s invalid_abort_group
    | some g ↦ next g
  ]
