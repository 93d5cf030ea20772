-- ===== src/Registry/Kept.antt =====
-- What every method keeps: a property of registries that the few ways in which a registry changes keep.
pub mod Settling
pub mod Registering
pub mod Runs
use pass_hub.Base.{
  ok, ℕ, ◌+◌, ◌-◌, ◌≤◌, ◌<◌, Bool, true, false, not, ◌&&◌, ◌||◌, Option, none, some, List, [], ◌∷◌,
  ◌≡◌, refl, arith, leb, if-cases, if-elim, lookup, insert, ℕ_discrete, Entries, if◌then◌else◌,
}
use pass_hub.Registry.{
  trusted_dependency_failure, EventKey, EntryState, in_flight, unknown, canonical,
  safe_technical_terminal, Entry, new_entry, LeaseState, LeaseKind, execution, confirmation,
  PermitState, Setup, Registry, Replies, Returns, Capability, ErrorCode, deny, freeze, find_entry,
  put_entry, is_writable,
}
use pass_hub.Registry.Leases.{
  mint_lease, end_lease, end_permit, finish_live, finish_terminal, mark_live, mark_unknown,
  authorize_verified, authorize_live, authorize_continuation, consumed, resume_live, resume_unknown,
  is_execution, is_in_flight, is_unknown,
}
use pass_hub.Registry.Registration.{
  existing_result, compare_artifact, add_entry, register, reserve_candidate, without_reservation,
  release_reservation, compare_reserved, register_reserved, lookup_existing, snapshot, Snapshot,
  replay, Registration, joined, replay_canonical, replay_safe_technical_terminal,
}
use pass_hub.Registry.Calls.{
  Call, registers, reserves, releases, registers_reserved, looks_up, marks_unknown,
  completes_canonical, completes_safe, authorizes, resumes, snapshots, step, run,
}
use pass_hub.Registry.Lifecycle.{Moves, loses_result, is_authorized, continues, finishes, is_live}
use pass_hub.Registry.Rules.{
  call_trusted-rule, assert_owner-rule, transition-rule, require_key-rule, require_capability-rule,
  find-rule, require_lease-rule, require_kind-rule, require_permit-rule, require_reservation-rule,
}

pub record Closed (c : Setup) (P : Registry → Type 0) : Type 0 where
  pub other :
      (r : Registry) (leases : Entries ℕ LeaseState) (permits : Entries ℕ PermitState)
      (evidence : List ℕ) (frozen : Bool) (minted : ℕ)
      → r.minted ≤ minted
      → P r
      → P (record r {
        leases = leases;
        permits = permits;
        consumed_evidence = evidence;
        frozen = frozen;
        minted = minted;
      })
  pub moved :
      (r : Registry) (key : EventKey) (a b : Entry)
      → find_entry key r ≡ some a
      → Moves a b
      → P r
      → P (put_entry key b r)
  pub added :
      (r : Registry) (key : EventKey) (artifact observation : ℕ)
      → find_entry key r ≡ none
      → r.size + r.reserved < c.capacity
      → P r
      → P (put_entry key (new_entry artifact observation) (record r { size = r.size + 1 }))
  pub redeemed :
      (r : Registry) (key : EventKey) (artifact observation reservation : ℕ)
      → find_entry key r ≡ none
      → lookup ℕ_discrete reservation r.reservations ≡ some true
      → P r
      → P (
          put_entry key
            (new_entry artifact observation)
            (record (without_reservation reservation r) { size = r.size + 1 }))
  pub claimed :
      (r : Registry)
      → r.size + r.reserved < c.capacity
      → P r
      → P (record r {
        reservations = insert ℕ_discrete r.minted true r.reservations;
        reserved = r.reserved + 1;
        minted = r.minted + 1;
      })
  pub released :
      (r : Registry) (reservation : ℕ)
      → lookup ℕ_discrete reservation r.reservations ≡ some true
      → P r
      → P (without_reservation reservation r)

module _ (c : Setup) (P : Registry → Type 0) (closed : Closed c P) where
  pub freeze-keeps : (r : Registry) → P r → ErrorCode → P (record r { frozen = true })
  freeze-keeps r p code =
      closed.other r r.leases r.permits r.consumed_evidence true r.minted (omega arith) p

  pub end_lease-keeps : (r : Registry) (lease : ℕ) (s : LeaseState) → P r → P (end_lease lease s r)
  end_lease-keeps r lease s p =
      closed.other r _ r.permits r.consumed_evidence r.frozen r.minted (omega arith) p

  pub end_permit-keeps :
      (r : Registry) (permit : ℕ) (s : PermitState) → P r → P (end_permit permit s r)
  end_permit-keeps r permit s p =
      closed.other r r.leases _ r.consumed_evidence r.frozen r.minted (omega arith) p

  pub mint_lease-keeps :
      (kind : LeaseKind) (key : EventKey) (entry : Entry) (r : Registry)
      → P r
      → P (mint_lease kind key entry r).0
  unfolding mint_lease
  mint_lease-keeps kind key entry r p =
      closed.other r _ r.permits r.consumed_evidence r.frozen (r.minted + 1) (omega arith) p
