-- ===== src/Coordinator.antt =====
-- src/access/application/internal/write-operation-coordinator.ts: the queue of the write operations
-- and the drain that runs them. A method takes the coordinator to the one after it, with what it
-- returns or throws. An operation is an object with an identity, here the next number of a
-- counter; the promises, the hooks and the gate do not call back into the coordinator.
pub mod Settling
pub mod Draining
pub mod Provisional
pub mod Recovering
pub mod Maintenance
pub mod Calls
pub mod Order
pub mod Wakes
mod Tests
use pass_hub.Base.{
  ℕ, ◌+◌, Bool, true, false, not, ◌&&◌, ◌||◌, Option, none, some, List, [], ◌∷◌, String, ℤ, ◌==◌,
  if◌then◌else◌, is_some, Result, ok, err,
}
use pass_hub.Quiescence.{
  Disposition, prestart_rejected, business_result_persisted, known_no_effect, unknown_effect,
}

pub data WriteOperationKind : Type 0 where
  management_create management_update management_revoke recognition : WriteOperationKind

-- A value of the caller: `value` stands for any but the two that are tested for.
pub data Value : Type 0 where
  undefined null : Value
  value : ℕ → Value

abbrev pub is_given : Value → Bool
is_given undefined = false
is_given null = false
is_given (value v) = true

pub record Candidate : Type 0 where
  pub kind : Disposition
  pub content : Value

pub data Validation : Type 0 where
  waiting_validation ready rejected : Validation

pub data RecoveryPhase : Type 0 where
  no_recovery requested paused terminal : RecoveryPhase

-- The promise of an operation. What it is rejected with is not kept.
pub data Completion : Type 0 where
  pending fulfilled failed : Completion

-- The lease of a recovery has the identity of its operation, which has at most one: `has_lease` tells
-- whether it was given out, `adopted` whether an owner has adopted it. `decided` belongs to the
-- provisional handle, and is true as long as none was given out.
pub record Operation : Type 0 where
  pub kind : WriteOperationKind
  pub operation_id : String
  pub sequence : ℕ
  pub received_at_ms : ℤ
  pub candidate : Option Candidate
  pub settlement_count : ℕ
  pub invalid_settlement : Bool
  pub active : Bool
  pub finalized : Bool
  pub validation_state : Validation
  pub input : Value
  pub maintenance_validation_canceled : Bool
  pub has_lease : Bool
  pub adopted : Bool
  pub recovery_phase : RecoveryPhase
  pub decided : Bool
  pub completion : Completion

-- What the observer of the lifecycle is told, the newest first.
pub data Notice : Type 0 where
  registered queued started blocked : ℕ → Notice
  settled : ℕ → Disposition → Notice

-- `run_settled` tells that the promise of `runOperation` is settled and that the drain, which waits
-- for it with `running` set, has its microtask ahead.
pub record Coordinator : Type 0 where
  pub queue : List ℕ
  pub operations : ℕ → Operation
  pub minted : ℕ
  pub issued_operation_ids : List String
  pub next_sequence : ℕ
  pub running : Bool
  pub run_settled : Bool
  pub drain_scheduled : Bool
  pub deferred_by_gate : Bool
  pub blocked : Bool
  pub current : Option ℕ
  pub notices : List Notice

-- An operation as it is registered.
abbrev pub new_operation : WriteOperationKind → String → ℕ → ℤ → Operation
new_operation kind operation_id sequence received_at_ms = record {
  kind = kind;
  operation_id = operation_id;
  sequence = sequence;
  received_at_ms = received_at_ms;
  candidate = none;
  settlement_count = 0;
  invalid_settlement = false;
  active = false;
  finalized = false;
  validation_state = waiting_validation;
  input = undefined;
  maintenance_validation_canceled = false;
  has_lease = false;
  adopted = false;
  recovery_phase = no_recovery;
  decided = true;
  completion = pending;
}

-- A number that is not given to an operation holds a new operation, for want of another.
unfoldable pub create : Coordinator
create = record {
  queue = [];
  operations = λ id. new_operation recognition "" 0 (ℤ.pos 0);
  minted = 0;
  issued_operation_ids = [];
  next_sequence = 0;
  running = false;
  run_settled = false;
  drain_scheduled = false;
  deferred_by_gate = false;
  blocked = false;
  current = none;
  notices = [];
}

pub data GateReply : Type 0 where
  allows defers fails : GateReply

-- What the hooks and the gate do when they are called for an operation: a hook returns undefined, as
-- it does where it is not given, or it does not. What the hook `blocked` does is ignored.
pub record Replies : Type 0 where
  pub registered_ok : Bool
  pub queued_ok : Bool
  pub started_ok : ℕ → Bool
  pub settled_ok : ℕ → Bool
  pub gate : ℕ → GateReply

pub data ErrorCode : Type 0 where
  not_current type_error already_decided lifecycle_failed coordinator_blocked : ErrorCode
  no_longer_queued clock_invalid no_unique_id not_paused already_adopted cleanup_failed : ErrorCode

abbrev pub Returns : Type 0 → Type 0
Returns A = Coordinator × Result ErrorCode A

abbrev pub set : ℕ → Operation → (ℕ → Operation) → ℕ → Operation
set id o operations k = if k == id then o else operations k

abbrev pub update : ℕ → (Operation → Operation) → Coordinator → Coordinator
update id f s = record s { operations = set id (f (s.operations id)) s.operations }

abbrev pub note : Notice → Coordinator → Coordinator
note n s = record s { notices = n ∷ s.notices }

-- `queue.indexOf` and `queue.splice`, of an operation that stands at most once in the queue.
unfoldable pub is_queued : ℕ → List ℕ → Bool
is_queued id [] = false
is_queued id (k ∷ ks) = k == id || is_queued id ks

unfoldable pub remove : ℕ → List ℕ → List ℕ
remove id [] = []
remove id (k ∷ ks) = let rest = k ∷ remove id ks in if k == id then ks else rest

abbrev pub same : Option ℕ → ℕ → Bool
same none id = false
same (some current) id = current == id

abbrev pub is_waiting : Validation → Bool
is_waiting waiting_validation = true
is_waiting _ = false

abbrev pub is_ready : Validation → Bool
is_ready ready = true
is_ready _ = false

abbrev pub is_rejected : Validation → Bool
is_rejected rejected = true
is_rejected _ = false

abbrev pub is_requested : RecoveryPhase → Bool
is_requested requested = true
is_requested _ = false

abbrev pub is_paused : RecoveryPhase → Bool
is_paused paused = true
is_paused _ = false

abbrev pub is_no_recovery : RecoveryPhase → Bool
is_no_recovery no_recovery = true
is_no_recovery _ = false

-- `assertCurrent`.
abbrev pub is_current : ℕ → Coordinator → Bool
is_current id s = same s.current id && (s.operations id).active && not (s.operations id).finalized

-- The microtask runs later, as an event of its own.
unfoldable pub schedule_drain : Coordinator → Coordinator
schedule_drain s =
    if s.drain_scheduled || s.running || s.blocked || s.deferred_by_gate
    then s
    else record s { drain_scheduled = true }

abbrev pub head_ready : List ℕ → (ℕ → Operation) → Bool
head_ready [] operations = false
head_ready (id ∷ ids) operations = is_ready (operations id).validation_state
