-- ===== src/Registry/Registration.antt =====
-- Registration and lookup by key, and the reservations of capacity.
use pass_hub.Base.{
  ℕ, ◌+◌, ◌-◌, Bool, true, false, not, Option, none, some, leb, if◌then◌else◌, ok, Entries, lookup,
  insert, ℕ_discrete, [], ◌∷◌,
}
use pass_hub.Registry.{
  EventKey, EntryState, in_flight, canonical, safe_technical_terminal, unknown, Entry, execution,
  Setup, Registry, Replies, Returns, Capability, deny, freeze, call_trusted, assert_owner,
  transition, require_key, require_capability, find_entry, put_entry, new_entry, is_writable,
  write_not_allowed, registry_capacity_exhausted, idempotency_conflict, invalid_reservation,
  reservation_already_used, trusted_dependency_failure, ClaimDisposition,
}
use pass_hub.Registry.Leases.{mint_lease}

-- `OperationRegistration` and `ExistingOperationLookup`; an entry is told by its key and its state
-- as it was then.
pub data Registration : Type 0 where
  registered : EventKey → Entry → ℕ → Registration
  joined : EventKey → Entry → Registration
  replay_canonical replay_safe_technical_terminal : EventKey → Entry → ℕ → Registration
  absent not_proven : Registration

abbrev pub replay : (ℕ → Registration) → Option ℕ → Registry → Returns Registration
replay kind none r = freeze r trusted_dependency_failure
replay kind (some result) r = (r, ok (kind result))

unfoldable pub existing_result : EventKey → Entry → Registry → Returns Registration
existing_result key entry r = elim entry.state [
  | in_flight ↦ (r, ok (joined key entry))
  | unknown ↦ (r, ok (joined key entry))
  | canonical ↦ replay (replay_canonical key entry) entry.result_reference r
  | safe_technical_terminal ↦
      replay (replay_safe_technical_terminal key entry) entry.result_reference r
]

-- `compareArtifact`: the artifact of an entry keeps the provenance that it was registered with.
unfoldable pub compare_artifact : {A : Type 0} → Replies → Registry → Returns A → Returns A
unfolding call_trusted
compare_artifact e r next =
    call_trusted e.same_artifact r λ same. if same then next else deny r idempotency_conflict

unfoldable pub add_entry : EventKey → ℕ → ℕ → Registry → Returns Registration
unfolding mint_lease
add_entry key artifact observation r =
    let entry = new_entry artifact observation in
    let leased =
      mint_lease execution key entry (put_entry key entry (record r { size = r.size + 1 })) in
    (leased.0, ok (registered key entry r.minted))

-- The observation reference is issued by the capabilities of this registry; `observation` is the
-- number that it has.
unfoldable pub register :
    Setup → Replies → Capability EventKey → Capability ℕ → ℕ → Registry → Returns Registration
unfolding existing_result compare_artifact add_entry
register c e key artifact observation r = transition e r (
    require_key key r λ k. require_capability artifact r λ a. elim (find_entry k r) [
      | some entry ↦ compare_artifact e r (existing_result k entry r)
      | none ↦
          if not (is_writable c.claim_disposition)
          then deny r write_not_allowed
          else assert_owner e r (
              if leb c.capacity (r.size + r.reserved)
              then deny r registry_capacity_exhausted
              else add_entry k a observation r)
    ])

unfoldable pub reserve_candidate : Setup → Replies → Registry → Returns ℕ
reserve_candidate c e r = transition e r (
    if not (is_writable c.claim_disposition)
    then deny r write_not_allowed
    else assert_owner e r (
        if leb c.capacity (r.size + r.reserved) then deny r registry_capacity_exhausted else (
          record r {
            reservations = insert ℕ_discrete r.minted true r.reservations;
            reserved = r.reserved + 1;
            minted = r.minted + 1;
          },
          ok r.minted,
        )))

unfoldable pub require_reservation : {A : Type 0} → ℕ → Registry → Returns A → Returns A
require_reservation reservation r next = elim (lookup ℕ_discrete reservation r.reservations) [
  | none ↦ deny r invalid_reservation
  | some active ↦ if active then next else deny r reservation_already_used
]

abbrev pub without_reservation : ℕ → Registry → Registry
without_reservation reservation r = record r {
  reservations = insert ℕ_discrete reservation false r.reservations;
  reserved = r.reserved - 1;
}

unfoldable pub release_reservation : Replies → ℕ → Registry → Returns (Unit {0})
unfolding require_reservation
release_reservation e reservation r =
    transition e r (require_reservation reservation r (without_reservation reservation r, ok tt))

-- The reservation is used up by a conflict, and kept where a trusted callback fails.
unfoldable pub compare_reserved : Replies → ℕ → EventKey → Entry → Registry → Returns Registration
unfolding existing_result call_trusted
compare_reserved e reservation key entry r = call_trusted e.same_artifact r λ same.
    if same
    then existing_result key entry (without_reservation reservation r)
    else deny (without_reservation reservation r) idempotency_conflict

unfoldable pub register_reserved :
    Setup
    → Replies
    → ℕ
    → Capability EventKey
    → Capability ℕ
    → Capability ℕ
    → Registry
    → Returns Registration
unfolding compare_reserved add_entry require_reservation
register_reserved c e reservation key artifact observation r = transition e r (
    require_reservation reservation r (
      require_key key r λ k. require_capability artifact r λ a.
        require_capability observation r λ o. elim (find_entry k r) [
          | some entry ↦ compare_reserved e reservation k entry r
          | none ↦
              if not (is_writable c.claim_disposition)
              then deny r write_not_allowed
              else assert_owner e r (add_entry k a o (without_reservation reservation r))
        ]))

unfoldable pub lookup_existing :
    Setup → Replies → Capability EventKey → Capability ℕ → Registry → Returns Registration
unfolding existing_result compare_artifact
lookup_existing c e key artifact r = transition e r (
    require_key key r λ k. require_capability artifact r λ a. elim (find_entry k r) [
      | some entry ↦ compare_artifact e r (existing_result k entry r)
      | none ↦ (r, ok (if is_writable c.claim_disposition then absent else not_proven))
    ])

pub record Snapshot : Type 0 where
  pub claim_disposition : ClaimDisposition
  pub capacity : ℕ
  pub size : ℕ
  pub frozen : Bool
  pub reserved : ℕ

abbrev make_snapshot : Setup → Registry → Snapshot
make_snapshot c r = record {
  claim_disposition = c.claim_disposition;
  capacity = c.capacity;
  size = r.size;
  frozen = r.frozen;
  reserved = r.reserved;
}

unfoldable pub snapshot : Setup → Replies → Registry → Returns Snapshot
snapshot c e r =
    if r.frozen then (r, ok (make_snapshot c r)) else transition e r (r, ok (make_snapshot c r))

abbrev one_if_unknown : EntryState → ℕ
one_if_unknown unknown = 1
one_if_unknown _ = 0

unfoldable pub unknown_count : Entries EventKey Entry → ℕ
unknown_count [] = 0
unknown_count ((key, entry) ∷ rest) = one_if_unknown entry.state + unknown_count rest
