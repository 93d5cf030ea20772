-- ===== src/Quiescence.antt =====
-- src/access/application/internal/writer-quiescence.ts: the states of the writers, and the lease
-- under which an observation runs. A method takes the quiescence to the one after it, with what it
-- returns or throws. A lease is an object with an identity, here the next number of a counter.
pub mod Laws
pub mod Leases
mod Tests
use pass_hub.Base.{
  ℕ, ◌+◌, Bool, true, false, not, ◌||◌, Option, none, some, List, [], ◌∷◌, String, ℤ,
  is_safe_integer, if◌then◌else◌, is_some, is_empty, Result, ok, err, Entries, lookup, insert,
  delete, ℕ_discrete, String-discrete,
}

pub data WriterState : Type 0 where
  provisional queued running blocked unknown : WriterState

-- The parts of a receipt that are read. Its other numbers are checked only to be numbers.
pub record Receipt : Type 0 where
  pub operation_id : String
  pub received_at_ms : ℤ

pub data Disposition : Type 0 where
  prestart_rejected business_result_persisted known_no_effect unknown_effect : Disposition

pub data ErrorCode : Type 0 where
  invalid_receipt already_registered unexpected_state not_registered : ErrorCode
  invalid_lease clock_failure wake_already_bound : ErrorCode

-- `wakes` counts the calls of the coordinator's wake function, which is none until it is bound or
-- given; what it throws is dropped.
pub record Quiescence : Type 0 where
  pub states : Entries String WriterState
  pub read_lease_active : Bool
  pub leases : Entries ℕ Bool
  pub minted : ℕ
  pub has_wake : Bool
  pub wake_bound : Bool
  pub wakes : ℕ

-- The argument tells whether `onLeaseReleased` was given.
unfoldable pub create : Bool → Quiescence
create given = record {
  states = [];
  read_lease_active = false;
  leases = [];
  minted = 0;
  has_wake = given;
  wake_bound = false;
  wakes = 0;
}

abbrev pub Returns : Type 0 → Type 0
Returns A = Quiescence × Result ErrorCode A

abbrev is_valid : Receipt → Bool
is_valid r = if is_empty r.operation_id then false else is_safe_integer r.received_at_ms

abbrev pub same_state : WriterState → WriterState → Bool
same_state provisional provisional = true
same_state queued queued = true
same_state running running = true
same_state blocked blocked = true
same_state unknown unknown = true
same_state _ _ = false

abbrev is_in : WriterState → Option WriterState → Bool
is_in expected none = false
is_in expected (some s) = same_state s expected

abbrev pub put : Receipt → WriterState → Quiescence → Quiescence
put r s q = record q { states = insert String-discrete r.operation_id s q.states }

abbrev state_of : Receipt → Quiescence → Option WriterState
state_of r q = lookup String-discrete r.operation_id q.states

unfoldable pub registered : Receipt → Quiescence → Returns (Unit {0})
registered r q =
    if not (is_valid r)
    then (q, err invalid_receipt)
    else if is_some (state_of r q)
    then (q, err already_registered)
    else (put r provisional q, ok tt)

-- `queued` and `started`, which expect one state and set the next.
advance : WriterState → WriterState → Receipt → Quiescence → Returns (Unit {0})
advance expected next r q =
    if not (is_valid r)
    then (q, err invalid_receipt)
    else if not (is_in expected (state_of r q))
    then (q, err unexpected_state)
    else (put r next q, ok tt)

unfoldable pub queue : Receipt → Quiescence → Returns (Unit {0})
unfolding advance
queue r q = advance provisional queued r q

unfoldable pub start : Receipt → Quiescence → Returns (Unit {0})
unfolding advance
start r q = advance queued running r q

unfoldable pub block : Receipt → Quiescence → Returns (Unit {0})
block r q = if not (is_valid r) then (q, err invalid_receipt) else (put r blocked q, ok tt)

abbrev is_unknown : Disposition → Bool
is_unknown unknown_effect = true
is_unknown _ = false

unfoldable pub settle : Receipt → Disposition → Quiescence → Returns (Unit {0})
settle r d q =
    if not (is_valid r)
    then (q, err invalid_receipt)
    else if not (is_some (state_of r q))
    then (q, err not_registered)
    else if is_unknown d
    then (put r unknown q, ok tt)
    else (record q { states = delete String-discrete r.operation_id q.states }, ok tt)

unfoldable pub can_start_writer : Quiescence → Bool
can_start_writer q = not q.read_lease_active

abbrev pub notify_wake : Quiescence → Quiescence
notify_wake q = if q.has_wake then record q { wakes = q.wakes + 1 } else q

-- A call of the lifecycle.
pub data LifecycleCall : Type 0 where
  registers queues starts blocks : Receipt → LifecycleCall
  settles : Receipt → Disposition → LifecycleCall

unfoldable pub observe : Quiescence → LifecycleCall → Quiescence
observe q (registers r) = (registered r q).0
observe q (queues r) = (queue r q).0
observe q (starts r) = (start r q).0
observe q (blocks r) = (block r q).0
observe q (settles r d) = (settle r d q).0

unfoldable pub observe_all : Quiescence → List LifecycleCall → Quiescence
observe_all q [] = q
observe_all q (x ∷ xs) = observe_all (observe q x) xs

-- What the clock does when it is read: calls of the lifecycle, and then an answer.
pub data ClockReply : Type 0 where
  reads : ℤ → ClockReply
  throws : ClockReply

-- `ACQUIRED` with a lease and its time, or `TECHNICAL_BUSY`.
pub data Acquired : Type 0 where
  acquired : ℕ → ℤ → Acquired
  technical_busy : Acquired

abbrev pub is_empty_map : {K V : Type 0} → Entries K V → Bool
is_empty_map [] = true
is_empty_map (x ∷ xs) = false

abbrev give_back : Quiescence → Quiescence
give_back q = notify_wake (record q { read_lease_active = false })

grant : ℤ → Quiescence → Returns Acquired
grant now q = if not (is_empty_map q.states) then (give_back q, ok technical_busy) else (
  record q { leases = insert ℕ_discrete q.minted true q.leases; minted = q.minted + 1 },
  ok (acquired q.minted now),
)

answer : ClockReply → Quiescence → Returns Acquired
unfolding grant
answer (reads now) q =
    if not (is_safe_integer now) then (give_back q, err clock_failure) else grant now q
answer throws q = (give_back q, err clock_failure)

unfoldable pub acquire : List LifecycleCall → ClockReply → Quiescence → Returns Acquired
unfolding answer
acquire meanwhile reply q =
    if q.read_lease_active || not (is_empty_map q.states)
    then (q, ok technical_busy)
    else answer reply (observe_all (record q { read_lease_active = true }) meanwhile)

unfoldable pub release : ℕ → Quiescence → Returns (Unit {0})
release lease q = elim (lookup ℕ_discrete lease q.leases) [
  | none ↦ (q, err invalid_lease)
  | some active ↦ if not active then (q, err invalid_lease) else (
    notify_wake
        (record q { leases = insert ℕ_discrete lease false q.leases; read_lease_active = false }),
    ok tt,
  )
]

unfoldable pub bind_coordinator_wake : Quiescence → Returns (Unit {0})
bind_coordinator_wake q =
    if q.wake_bound
    then (q, err wake_already_bound)
    else (record q { wake_bound = true; has_wake = true }, ok tt)

pub record Counters : Type 0 where
  pub provisional : ℕ
  pub queued : ℕ
  pub running : ℕ
  pub blocked : ℕ
  pub unknown : ℕ

abbrev tally : WriterState → Counters → Counters
tally WriterState.provisional n = record n { provisional = n.provisional + 1 }
tally WriterState.queued n = record n { queued = n.queued + 1 }
tally WriterState.running n = record n { running = n.running + 1 }
tally WriterState.blocked n = record n { blocked = n.blocked + 1 }
tally WriterState.unknown n = record n { unknown = n.unknown + 1 }

-- The order in which the states are counted does not show in the sums.
unfoldable pub count : Entries String WriterState → Counters
count [] = record { provisional = 0; queued = 0; running = 0; blocked = 0; unknown = 0 }
count ((id, s) ∷ rest) = tally s (count rest)

unfoldable pub counters : Quiescence → Counters
unfolding count
counters q = count q.states
