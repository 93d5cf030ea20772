-- ===== src/Registry/Leases.antt =====
-- The leases of an entry and its way from one state to the next.
use pass_hub.Base.{
  ℕ, ◌+◌, Bool, true, false, not, ◌&&◌, ◌||◌, none, some, List, [], ◌∷◌, ◌==◌, if◌then◌else◌, ok,
  lookup, insert, ℕ_discrete,
}
use mathlib.Core.Logic.{ite}
use pass_hub.Registry.{
  EventKey, EventKey-discrete, EntryState, in_flight, unknown, canonical, safe_technical_terminal,
  Entry, LeaseKind, execution, confirmation, LeaseState, PermitState, Registry, Replies, Returns,
  Capability, deny, call_trusted, assert_owner, transition, require_capability, find_entry,
  put_entry, entry_not_mutable, invalid_lease, stale_lease, lease_already_used, invalid_permit,
  stale_permit, permit_already_used, continuation_already_authorized,
}

abbrev pub is_execution : LeaseKind → Bool
is_execution execution = true
is_execution confirmation = false

abbrev pub is_in_flight : EntryState → Bool
is_in_flight in_flight = true
is_in_flight _ = false

abbrev pub is_unknown : EntryState → Bool
is_unknown unknown = true
is_unknown _ = false

unfoldable pub mint_lease : LeaseKind → EventKey → Entry → Registry → Returns ℕ
mint_lease kind key entry r = (
  record r {
    leases =
        insert ℕ_discrete r.minted
          (record { entry = key; generation = entry.generation; kind = kind; active = true })
          r.leases;
    minted = r.minted + 1;
  },
  ok r.minted,
)

abbrev pub end_lease : ℕ → LeaseState → Registry → Registry
end_lease lease s r = record r {
  leases = insert ℕ_discrete lease (record s { active = false }) r.leases;
}

-- The entry of a lease is there, since none is removed.
unfoldable pub require_lease :
    {A : Type 0} → ℕ → Registry → (LeaseState → Entry → Returns A) → Returns A
require_lease lease r next = elim (lookup ℕ_discrete lease r.leases) [
  | none ↦ deny r invalid_lease
  | some s ↦ elim (find_entry s.entry r) [
    | none ↦ deny r invalid_lease
    | some entry ↦
        if not s.active
        then deny r lease_already_used
        else if not (s.generation == entry.generation)
        then deny (end_lease lease s r) stale_lease
        else next s entry
  ]
]

-- `requireExecutionLease` and `requireConfirmationLease`.
unfoldable pub require_kind :
    {A : Type 0} → Bool → ℕ → Registry → (LeaseState → Entry → Returns A) → Returns A
unfolding require_lease
require_kind wants_execution lease r next = require_lease lease r λ s entry.
    if is_execution s.kind
    then (if wants_execution then next s entry else deny r invalid_lease)
    else (if wants_execution then deny r invalid_lease else next s entry)

unfoldable pub finish_live : EntryState → ℕ → Registry → ℕ → LeaseState → Entry → Returns (Unit {0})
finish_live state lease r result s entry =
    if is_execution s.kind && not (is_in_flight entry.state)
    then deny r entry_not_mutable
    else if not (is_execution s.kind) && not (is_unknown entry.state)
    then deny r entry_not_mutable
    else (
      put_entry s.entry
          (record entry {
            continuation_authorized = false;
            result_reference = some result;
            state = state;
          })
          (end_lease lease s r),
      ok tt,
    )

unfoldable pub finish_terminal :
    EntryState → Replies → ℕ → Capability ℕ → Registry → Returns (Unit {0})
unfolding finish_live require_lease
finish_terminal state e lease reference r = transition e r (
    require_capability reference r λ result.
      require_lease lease r λ s entry. assert_owner e r (finish_live state lease r result s entry))

abbrev pub complete_canonical : Replies → ℕ → Capability ℕ → Registry → Returns (Unit {0})
complete_canonical = finish_terminal canonical

abbrev pub complete_safe_technical_terminal :
    Replies → ℕ → Capability ℕ → Registry → Returns (Unit {0})
complete_safe_technical_terminal = finish_terminal safe_technical_terminal

unfoldable pub mark_live : ℕ → Registry → LeaseState → Entry → Returns ℕ
unfolding mint_lease
mark_live lease r s entry =
    if not (is_in_flight entry.state)
    then deny r entry_not_mutable
    else mint_lease confirmation s.entry entry (
        put_entry s.entry (record entry { state = unknown; continuation_authorized = false })
          (end_lease lease s r))

unfoldable pub mark_unknown : Replies → ℕ → Registry → Returns ℕ
unfolding mark_live require_kind
mark_unknown e lease r =
    transition e r
      (require_kind true lease r λ s entry. assert_owner e r (mark_live lease r s entry))

unfoldable pub consumed : ℕ → List ℕ → Bool
consumed evidence [] = false
consumed evidence (used ∷ rest) = used == evidence || consumed evidence rest

unfoldable pub authorize_verified : ℕ → Registry → LeaseState → Entry → Returns ℕ
authorize_verified evidence r s entry = (
  put_entry s.entry (record entry { continuation_authorized = true })
      (record r {
        consumed_evidence = evidence ∷ r.consumed_evidence;
        permits =
            insert ℕ_discrete r.minted
              (record { entry = s.entry; generation = s.generation; active = true }) r.permits;
        minted = r.minted + 1;
      }),
  ok r.minted,
)

unfoldable pub authorize_live : Replies → ℕ → Registry → LeaseState → Entry → Returns ℕ
unfolding consumed authorize_verified call_trusted
authorize_live e evidence r s entry =
    if not (is_unknown entry.state)
    then deny r entry_not_mutable
    else if entry.continuation_authorized
    then deny r continuation_already_authorized
    else if consumed evidence r.consumed_evidence
    then deny r permit_already_used
    else call_trusted e.verifier r (λ done. authorize_verified evidence r s entry)

unfoldable pub authorize_continuation : Replies → ℕ → ℕ → Registry → Returns ℕ
unfolding authorize_live require_kind
authorize_continuation e lease evidence r =
    transition e r
      (require_kind false lease r λ s entry. assert_owner e r (authorize_live e evidence r s entry))

abbrev pub end_permit : ℕ → PermitState → Registry → Registry
end_permit permit p r = record r {
  permits = insert ℕ_discrete permit (record p { active = false }) r.permits;
}

unfoldable pub resume_live : ℕ → ℕ → PermitState → Registry → LeaseState → Entry → Returns ℕ
unfolding mint_lease
resume_live lease permit p r s entry =
    if not (is_unknown entry.state) || not entry.continuation_authorized
    then deny r entry_not_mutable
    else (let resumed = record entry {
      continuation_authorized = false;
      generation = entry.generation + 1;
      state = in_flight;
    } in
        mint_lease execution s.entry resumed
          (put_entry s.entry resumed (end_permit permit p (end_lease lease s r))))

unfoldable pub require_permit :
    {A : Type 0} → ℕ → LeaseState → Registry → (PermitState → Returns A) → Returns A
require_permit permit s r next = elim (lookup ℕ_discrete permit r.permits) [
  | none ↦ deny r invalid_permit
  | some p ↦
      if not p.active
      then deny r permit_already_used
      else ite (EventKey-discrete p.entry s.entry)
          (if p.generation == s.generation
            then next p
            else deny (end_permit permit p r) stale_permit)
          (deny (end_permit permit p r) stale_permit)
]

unfoldable pub resume_unknown : Replies → ℕ → ℕ → Registry → Returns ℕ
unfolding resume_live require_permit require_kind
resume_unknown e lease permit r = transition e r (
    require_kind false lease r λ s entry.
      require_permit permit s r λ p. assert_owner e r (resume_live lease permit p r s entry))
