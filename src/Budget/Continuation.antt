-- ===== src/Budget/Continuation.antt =====
-- A round after a confirmation that the earlier rounds had no effect; and the snapshot.
use pass_hub.Base.{
  ℕ, ◌-◌, Bool, true, false, not, ◌||◌, Option, none, some, List, [], ◌∷◌, leb, ltb, ◌==◌,
  if◌then◌else◌, is_some, ok, lookup, ℕ_discrete,
}
use pass_hub.Budget.{
  Config, Ledger, Replies, Returns, RoundState, VerifierReply, accepts, ConfirmationResult, deny,
  fail_closed, ErrorCode, transition, read_now, execution_not_admitted, command_in_flight,
  confirmation_already_confirmed, execution_rounds_exhausted, execution_deadline,
  continuation_evidence_rejected,
}
use pass_hub.Budget.Confirmation.{is_no_effect}

-- Evidence is an object with an identity, or a value that is none.
pub data Evidence : Type 0 where
  primitive : Evidence
  opaque : ℕ → Evidence

unfoldable pub consumed : ℕ → List ℕ → Bool
consumed evidence [] = false
consumed evidence (used ∷ rest) = used == evidence || consumed evidence rest

abbrev pub is_accepted : VerifierReply → Bool
is_accepted accepts = true
is_accepted _ = false

unfoldable pub verify : Replies → Evidence → Ledger → Returns (Unit {0})
unfolding consumed
verify e primitive l = fail_closed l continuation_evidence_rejected
verify e (opaque evidence) l =
    if consumed evidence l.consumed_evidence
    then fail_closed l continuation_evidence_rejected
    else if not (is_accepted e.verifier)
    then fail_closed l continuation_evidence_rejected
    else (
      record l {
        consumed_evidence = evidence ∷ l.consumed_evidence;
        continuation_authorized = true;
      },
      ok tt,
    )

abbrev is_canonical : Option ConfirmationResult → Bool
is_canonical (some ConfirmationResult.canonical_result) = true
is_canonical _ = false

pub not_confirmed : Ledger → ErrorCode
not_confirmed l =
    if is_canonical l.confirmation_result || l.confirmation_confirmed
    then confirmation_already_confirmed
    else execution_not_admitted

unfoldable pub authorize_at : Replies → Evidence → ℕ → Ledger → ℕ → Returns (Unit {0})
unfolding verify
authorize_at e evidence deadline l now =
    if leb deadline now
    then deny l execution_deadline
    else if ltb (deadline - now) 1
    then deny l execution_deadline
    else verify e evidence l

unfoldable pub authorize_live : Config → Replies → Evidence → Ledger → Returns (Unit {0})
unfolding authorize_at not_confirmed
authorize_live c e evidence l =
    if not (is_some l.execution_start_ms) || not (is_some l.confirmation_start_ms)
    then deny l execution_not_admitted
    else if is_some l.active_round
        || is_some l.execution_command
        || is_some l.confirmation_command
        || is_some l.native_group
    then deny l command_in_flight
    else if l.continuation_authorized
    then deny l execution_not_admitted
    else if not (is_no_effect l.confirmation_result)
    then deny l (not_confirmed l)
    else if leb c.max_rounds l.rounds_started
    then deny l execution_rounds_exhausted
    else (elim l.execution_deadline_ms [
      | none ↦ deny l execution_not_admitted
      | some deadline ↦ read_now e l (authorize_at e evidence deadline)
    ])

unfoldable pub authorize_continuation : Config → Replies → Evidence → Ledger → Returns (Unit {0})
unfolding authorize_live
authorize_continuation c e evidence l = transition e l (authorize_live c e evidence)

pub record Snapshot : Type 0 where
  pub frozen : Bool
  pub execution_start_ms : Option ℕ
  pub execution_deadline_ms : Option ℕ
  pub rounds_started : ℕ
  pub active_round : Option ℕ
  pub execution_command_in_flight : Bool
  pub confirmation_start_ms : Option ℕ
  pub confirmation_deadline_ms : Option ℕ
  pub confirmation_slots_remaining : ℕ
  pub confirmation_attempt : ℕ
  pub confirmation_in_flight : Bool
  pub confirmation_confirmed : Bool
  pub confirmation_result : Option ConfirmationResult
  pub continuation_authorized : Bool
  pub native_group_active : Bool
  pub native_groups_reserved : ℕ

abbrev generation_of : Option RoundState → Option ℕ
generation_of none = none
generation_of (some s) = some s.generation

active_generation : Ledger → Option ℕ
active_generation l = elim l.active_round [
  | none ↦ none
  | some round ↦ generation_of (lookup ℕ_discrete round l.rounds)
]

make_snapshot : Ledger → Snapshot
unfolding active_generation
make_snapshot l = record {
  frozen = l.frozen;
  execution_start_ms = l.execution_start_ms;
  execution_deadline_ms = l.execution_deadline_ms;
  rounds_started = l.rounds_started;
  active_round = active_generation l;
  execution_command_in_flight = is_some l.execution_command;
  confirmation_start_ms = l.confirmation_start_ms;
  confirmation_deadline_ms = l.confirmation_deadline_ms;
  confirmation_slots_remaining = l.confirmation_slots_remaining;
  confirmation_attempt = l.confirmation_attempt;
  confirmation_in_flight = is_some l.confirmation_command;
  confirmation_confirmed = l.confirmation_confirmed;
  confirmation_result = l.confirmation_result;
  continuation_authorized = l.continuation_authorized;
  native_group_active = is_some l.native_group;
  native_groups_reserved = l.native_groups_reserved;
}

unfoldable pub snapshot : Replies → Ledger → Returns Snapshot
unfolding make_snapshot
snapshot e l =
    if l.frozen then (l, ok (make_snapshot l)) else transition e l λ l. (l, ok (make_snapshot l))
