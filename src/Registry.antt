-- ===== src/Registry.antt =====
-- src/access/application/internal/operation-registry.ts: the operations of this process by their
-- idempotency keys. A method takes the registry to the one after it, with what it returns or throws.
-- A lease, a permit and a reservation are objects with an identity, here the numbers of
-- counters. An entry has the identity of its key, since no method removes one.
pub mod Leases
pub mod Registration
pub mod Calls
pub mod Rules
pub mod Kept
pub mod Lifecycle
pub mod Refinement
pub mod Capacity
mod Tests
use pass_hub.Base.{
  ℕ, ◌+◌, ◌-◌, Bool, true, false, not, ◌&&◌, Option, none, some, List, [], String, leb, ◌==◌,
  if◌then◌else◌, Result, ok, err, Entries, lookup, insert, ℕ_discrete, String-discrete, ◌≡◌,
}
use mathlib.Core.Path.{ap}

abbrev pub EventKey : Type 0
EventKey = String × String

unfoldable pub EventKey-discrete : Discrete EventKey
EventKey-discrete (s, x) (t, y) = elim (String-discrete s t) [
  | no n ↦ no (λ p. n (ap (λ (k : EventKey). k.0) p))
  | yes p ↦ elim (String-discrete x y) [
    | no n ↦ no (λ q. n (ap (λ (k : EventKey). k.1) q))
    | yes q ↦ yes (λ i. (p i, q i))
  ]
]

pub data EntryState : Type 0 where
  in_flight unknown canonical safe_technical_terminal : EntryState

pub data ClaimDisposition : Type 0 where
  writable read_only stale : ClaimDisposition

pub data ErrorCode : Type 0 where
  registry_frozen reentrant trusted_dependency_failure write_not_allowed : ErrorCode
  dataset_epoch_mismatch registry_capacity_exhausted idempotency_conflict : ErrorCode
  invalid_capability invalid_reservation reservation_already_used entry_not_mutable : ErrorCode
  invalid_lease stale_lease lease_already_used invalid_permit stale_permit : ErrorCode
  permit_already_used continuation_already_authorized : ErrorCode

-- A capability as this registry sees it: without provenance, of another issuer, or its own.
pub data Capability (A : Type 0) : Type 0 where
  unissued foreign : Capability A
  issued : A → Capability A

pub record Entry : Type 0 where
  pub artifact : ℕ
  pub observation_reference : ℕ
  pub state : EntryState
  pub generation : ℕ
  pub result_reference : Option ℕ
  pub continuation_authorized : Bool

abbrev pub new_entry : ℕ → ℕ → Entry
new_entry artifact observation = record {
  artifact = artifact;
  observation_reference = observation;
  state = in_flight;
  generation = 1;
  result_reference = none;
  continuation_authorized = false;
}

pub data LeaseKind : Type 0 where
  execution confirmation : LeaseKind

pub record LeaseState : Type 0 where
  pub entry : EventKey
  pub generation : ℕ
  pub kind : LeaseKind
  pub active : Bool

pub record PermitState : Type 0 where
  pub entry : EventKey
  pub generation : ℕ
  pub active : Bool

-- What never changes. The epoch, the run and the owner are one for all that a registry issues.
pub record Setup : Type 0 where
  pub capacity : ℕ
  pub claim_disposition : ClaimDisposition

abbrev pub default_capacity : ℕ
default_capacity = 4096

-- The test of the capacity in `assertOptions`.
unfoldable pub is_capacity : ℕ → Bool
is_capacity n = leb 1 n && leb n default_capacity

pub record Registry : Type 0 where
  pub entries : Entries EventKey Entry
  pub leases : Entries ℕ LeaseState
  pub permits : Entries ℕ PermitState
  pub consumed_evidence : List ℕ
  pub reservations : Entries ℕ Bool
  pub size : ℕ
  pub reserved : ℕ
  pub frozen : Bool
  pub minted : ℕ

unfoldable pub create : Registry
create = record {
  entries = [];
  leases = [];
  permits = [];
  consumed_evidence = [];
  reservations = [];
  size = 0;
  reserved = 0;
  frozen = false;
  minted = 0;
}

-- What a trusted callback does: it returns a value of the documented kind, fails (it throws, returns
-- a promise or another value), or calls the registry, and passes on what that throws or drops it.
pub data TrustedReply (A : Type 0) : Type 0 where
  returns : A → TrustedReply A
  fails passes_on_reentry drops_reentry : TrustedReply A

pub record Replies : Type 0 where
  pub bridge_notifying : Bool
  pub owner : TrustedReply (Unit {0})
  pub same_artifact : TrustedReply Bool
  pub verifier : TrustedReply (Unit {0})

abbrev pub Returns : Type 0 → Type 0
Returns A = Registry × Result ErrorCode A

abbrev pub deny : {A : Type 0} → Registry → ErrorCode → Returns A
deny r code = (r, err code)

abbrev pub freeze : {A : Type 0} → Registry → ErrorCode → Returns A
freeze r code = (record r { frozen = true }, err code)

unfoldable pub call_trusted :
    {A B : Type 0} → TrustedReply A → Registry → (A → Returns B) → Returns B
call_trusted (returns a) r next = next a
call_trusted fails r next = freeze r trusted_dependency_failure
call_trusted passes_on_reentry r next = freeze r reentrant
call_trusted drops_reentry r next = freeze r registry_frozen

unfoldable pub assert_owner : {A : Type 0} → Replies → Registry → Returns A → Returns A
unfolding call_trusted
assert_owner e r next = call_trusted e.owner r (λ done. next)

unfoldable pub transition : {A : Type 0} → Replies → Registry → Returns A → Returns A
transition e r work =
    if e.bridge_notifying
    then deny r reentrant
    else if r.frozen
    then deny r registry_frozen
    else work

unfoldable pub require_key :
    {A : Type 0} → Capability EventKey → Registry → (EventKey → Returns A) → Returns A
require_key unissued r next = deny r invalid_capability
require_key foreign r next = deny r dataset_epoch_mismatch
require_key (issued key) r next = next key

-- `requireArtifact`, `requireResultReference` and `requireObservationReference`.
unfoldable pub require_capability :
    {A : Type 0} → Capability ℕ → Registry → (ℕ → Returns A) → Returns A
require_capability unissued r next = deny r invalid_capability
require_capability foreign r next = deny r invalid_capability
require_capability (issued token) r next = next token

abbrev pub find_entry : EventKey → Registry → Option Entry
find_entry key r = lookup EventKey-discrete key r.entries

abbrev pub put_entry : EventKey → Entry → Registry → Registry
put_entry key entry r = record r { entries = insert EventKey-discrete key entry r.entries }

abbrev pub is_writable : ClaimDisposition → Bool
is_writable writable = true
is_writable _ = false
