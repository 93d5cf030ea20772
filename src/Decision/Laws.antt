-- ===== src/Decision/Laws.antt =====
-- When an access is granted, and what its effects agree with.
use pass_hub.Base.{true, none, ◌≤ℤ◌, IsSafeInteger, ok, refl, ◌≡◌, ◌↔◌, ◌⊎◌, arith}
use pass_hub.Qualification.{
  Presence, not_entered, inside, QualificationState, decide_qualification_expiration,
}
use pass_hub.Qualification.WellFormed.{IsWellFormed, check_sound, check_complete}
use pass_hub.Qualification.Management.{IsOpen}
use pass_hub.Decision.{
  IdentityResolution, Direction, entry, exit, accepted, rejected, resolved, AccessInput,
  AccessDecision, expire_not_entered, release, decide_access, grant_entry, record_exit,
}

-- An entry is granted exactly from an active source, to a holder whose qualification is well
-- formed and open, at a safe instant not before the window.
pub entry_granted_iff :
    (i : AccessInput) (q : QualificationState)
    → i.direction ≡ entry
    → i.resolution ≡ resolved q
    → (decide_access i ≡ ok grant_entry) ↔ (
        (i.source_active ≡ true)
        × IsSafeInteger i.received_at_ms
        × IsWellFormed q
        × IsOpen q i.received_at_ms
        × (q.valid_from_ms ≤ℤ i.received_at_ms))
unfolding decide_access
entry_granted_iff i q he hr = (
  λ h. ground (arith, check_sound q),
  λ (active, safe, w, o, started). ground (arith, check_complete q w),
)

-- An exit is recorded exactly from an active source, for a holder whose qualification is well
-- formed and inside, at a safe instant: neither the window nor an expiration is looked at.
pub exit_recorded_iff :
    (i : AccessInput) (q : QualificationState)
    → i.direction ≡ exit
    → i.resolution ≡ resolved q
    → (decide_access i ≡ ok record_exit) ↔ (
        (i.source_active ≡ true)
        × IsSafeInteger i.received_at_ms
        × IsWellFormed q
        × (q.presence ≡ inside))
unfolding decide_access
exit_recorded_iff i q he hr =
    (λ h. ground (arith, check_sound q), λ (active, safe, w, p). ground (arith, check_complete q w))

-- The presence that an accepted decision starts from, and which decision it is.
abbrev pub IsMove : Direction → Presence → AccessDecision → Type 0
IsMove entry p d = (p ≡ not_entered) × (d ≡ grant_entry)
IsMove exit p d = (p ≡ inside) × (d ≡ record_exit)

accepted_by :
    (i : AccessInput) (d : AccessDecision) (r : IdentityResolution)
    → i.resolution ≡ r
    → decide_access i ≡ ok d
    → d.outcome ≡ accepted
    → (q : QualificationState) × (r ≡ resolved q) × IsMove i.direction q.presence d
unfolding decide_access
accepted_by i d (resolved q) e h a = (q, refl, ground arith)
accepted_by i d _ e h a = ground arith

-- A decision is accepted only as the grant of an entry to a holder who has not entered, or the
-- record of an exit of a holder who is inside.
pub accepted_only :
    (i : AccessInput) (d : AccessDecision)
    → decide_access i ≡ ok d
    → d.outcome ≡ accepted
    → (q : QualificationState) × (i.resolution ≡ resolved q) × IsMove i.direction q.presence d
accepted_only i d h a = accepted_by i d i.resolution refl h a

-- For a well-formed qualification, an entry from an active source at a safe instant asks for the
-- expiration exactly when the expiration decision makes it terminal at that instant.
pub entry_expires_iff :
    (i : AccessInput) (q : QualificationState) (d : AccessDecision)
    → i.direction ≡ entry
    → i.source_active ≡ true
    → i.resolution ≡ resolved q
    → decide_access i ≡ ok d
    → (d.qualification_effect ≡ expire_not_entered) ↔ (
        decide_qualification_expiration q i.received_at_ms
        ≡ ok (record { terminalize = true; release_face_mapping = true }))
unfolding decide_access decide_qualification_expiration
entry_expires_iff i q d he active hr hd =
    (λ h. ground (arith, check_sound q), λ h. ground (arith, check_sound q))

-- The face mapping is released exactly by the record of an exit and by an expiration, and no
-- rejection moves the holder.
pub release_iff :
    (i : AccessInput) (d : AccessDecision)
    → decide_access i ≡ ok d
    → ((d.face_mapping_effect ≡ release)
        ↔ ((d ≡ record_exit) ⊎ (d.qualification_effect ≡ expire_not_entered)))
      × (d.outcome ≡ rejected → d.presence_transition ≡ none)
unfolding decide_access
release_iff i d h = (((λ e. ground arith), λ e. ground arith), λ e. ground arith)
