-- ===== src/Budget/Permits.antt =====
-- Permits of execution commands: what an admitted one was given, and its second use.
use mathlib.Core.Path.{subst}
use pass_hub.Budget.Limits.{transition-elim, read_now-elim}
use pass_hub.Base.{
  if-elim, if-cases, if◌then◌else◌, min, ◌-◌, Option-cases, inl, inr, Entries, ok, err, is_some,
  not, lookup, lookup-insert_self, ℕ_discrete, ◌&&◌, ℕ, ◌+◌, ◌≤◌, Bool, true, false, Option, none,
  some, ◌≡◌, refl, arith,
}
use pass_hub.Budget.{
  Config, Ledger, invalid_permit, Returns, RoundState, CommandState, ErrorCode, fail_closed,
  permit_already_used, is_current, names, Replies, CommandKind, transition, require,
}
use pass_hub.Budget.Execution.{
  admit_execution_command, is_commit, admit_command_at, admit_command, open_command,
  finish_execution_command,
}

-- A permit for an execution command that was finished cannot be used again: to finish it again,
-- with a current owner, freezes the ledger, changes nothing else, and throws PERMIT_ALREADY_USED.
pub command_finished_once :
    (e e' : Replies) (p : ℕ) (l l' : Ledger)
    → e'.owner ≡ is_current
    → finish_execution_command e p l ≡ (l', ok tt)
    → finish_execution_command e' p l' ≡ (record l' { frozen = true }, err permit_already_used)
unfolding finish_execution_command transition require fail_closed
command_finished_once e e' p l l' h k =
    elim (Option-cases (lookup ℕ_discrete p l.execution_commands)) [
      | inl none_found ↦ ground arith
      | inr (s, found) ↦ ground (
        arith,
        lookup-insert_self ℕ_discrete p (record s { active = false }) l.execution_commands,
      )
    ]

-- What is said of an admitted execution command, for the ledger after it.
pub record InTime (c : Config) (round : ℕ) (l : Ledger) (p now deadline : ℕ) (s : CommandState)
    : Type 0 where
  pub positive : 1 ≤ s.timeout_ms
  pub single : s.timeout_ms ≤ c.single_command_ms
  pub ends : now + s.timeout_ms ≤ deadline
  pub active : s.active ≡ true
  pub of_round : (s.round ≡ round) × (l.active_round ≡ some round)
  pub in_flight : l.execution_command ≡ some p

abbrev AllInTime : Config → ℕ → Returns ℕ → Type 0
AllInTime c round (l, err code) = Unit {0}
AllInTime c round (l, ok p) =
    (now deadline : ℕ) (s : CommandState)
    → lookup ℕ_discrete p l.execution_commands ≡ some s
    → l.last_now_ms ≡ some now
    → l.execution_deadline_ms ≡ some deadline
    → InTime c round l p now deadline s

admit_command_at-AllInTime :
    (c : Config) (round : ℕ) (kind : CommandKind) (r : RoundState) (l : Ledger) (now : ℕ)
    → l.last_now_ms ≡ some now
    → l.active_round ≡ some round
    → AllInTime c round (admit_command_at c round kind r l now)
unfolding admit_command_at open_command
admit_command_at-AllInTime c round kind r l now h k = elim (Option-cases l.execution_deadline_ms) [
  | inl no_deadline ↦ ground arith
  | inr (deadline, found) ↦ ground (
    arith,
    lookup-insert_self ℕ_discrete l.minted
        (record {
          round = round;
          kind = kind;
          timeout_ms = min c.single_command_ms (deadline - now);
          active = true;
        })
        l.execution_commands,
  )
]

require-elim :
    {S A : Type 0} (Q : Returns A → Type 0) (l : Ledger) (states : Entries ℕ S) (p : ℕ)
    (is_active : S → Bool) (next : S → Returns A)
    → ((code : ErrorCode) → Q (fail_closed l code))
    → ((s : S) → Q (next s))
    → Q (require l states p is_active next)
unfolding require
require-elim {S = S} Q l states p is_active next v w = from (lookup ℕ_discrete p states)
  where
    from :
        (found : Option S)
        → Q (elim found [
          | none ↦ fail_closed l invalid_permit
          | some s ↦ if is_active s then next s else fail_closed l permit_already_used
        ])
    from none = v _
    from (some s) = if-cases Q (is_active s) _ _ (w s) (v _)

names-some : (current : Option ℕ) (p : ℕ) → not (names current p) ≡ false → current ≡ some p
names-some current p h = ground arith

admit_command-AllInTime :
    (c : Config) (e : Replies) (round : ℕ) (kind : CommandKind) (l : Ledger) (r : RoundState)
    → AllInTime c round (admit_command c e round kind l r)
unfolding admit_command fail_closed
admit_command-AllInTime c e round kind l r =
    let Q = AllInTime c round in
    if-elim Q (not (names l.active_round round)) _ _ (λ _. tt)
      λ h. if-cases Q (is_some l.confirmation_start_ms) _ _ tt (
        if-cases Q (is_some l.native_group) _ _ tt (
          if-cases Q (is_some l.execution_command) _ _ tt (
            if-cases Q (is_commit kind && r.initial_commit_admitted) _ _ tt (
              read_now-elim Q e l (admit_command_at c round kind r) (λ _. tt)
                λ now.
                  admit_command_at-AllInTime c round kind r _ now refl
                    (names-some l.active_round round h)))))

admit_execution_command-AllInTime :
    (c : Config) (e : Replies) (round : ℕ) (kind : CommandKind) (l : Ledger)
    → AllInTime c round (admit_execution_command c e round kind l)
unfolding admit_execution_command fail_closed
admit_execution_command-AllInTime c e round kind l =
    transition-elim (AllInTime c round) e l _ (λ _. tt) (λ _. tt)
      (require-elim (AllInTime c round) l l.rounds round _ _ (λ _. tt)
        (admit_command-AllInTime c e round kind l))

-- An execution command that was admitted has a time limit of at least 1 ms and at most
-- `single_command_ms`, and from the time that was read then it ends within the deadline of the
-- execution; it is active, in flight, and belongs to the active round that was asked for.
pub command-InTime :
    (c : Config) (e : Replies) (round : ℕ) (kind : CommandKind) (l l' : Ledger) (p now deadline : ℕ)
    (s : CommandState)
    → admit_execution_command c e round kind l ≡ (l', ok p)
    → lookup ℕ_discrete p l'.execution_commands ≡ some s
    → l'.last_now_ms ≡ some now
    → l'.execution_deadline_ms ≡ some deadline
    → InTime c round l' p now deadline s
command-InTime c e round kind l l' p now deadline s h =
    subst (AllInTime c round) h (admit_execution_command-AllInTime c e round kind l) now deadline s
