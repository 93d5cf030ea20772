-- ===== src/Qualification/Management.antt =====
-- When a qualification may be changed, revoked, expired, or keep its face mapping.
use pass_hub.Base.{
  Bool, true, false, Option, none, some, String, ℤ, ◌<ℤ◌, IsSafeInteger, is_empty, ok, ◌≡◌, ◌↔◌,
  ◌⊎◌, arith,
}
use pass_hub.Qualification.{
  not_entered, inside, QualificationState, ExpirationDecision, decide_mutable_qualification,
  decide_qualification_window, decide_qualification_update, decide_qualification_revocation,
  decide_qualification_expiration, qualification_can_retain_face_mapping, allowed,
}
use pass_hub.Qualification.WellFormed.{IsWellFormed, check_sound, check_complete}

-- Neither used, revoked nor expired at the instant.
pub record IsOpen (q : QualificationState) (now : ℤ) : Type 0 where
  pub unused : q.presence ≡ not_entered
  pub unrevoked : q.revoked_at_ms ≡ none
  pub unexpired : q.expired_terminal_at_ms ≡ none
  pub current : now <ℤ q.valid_until_ms

pub mutable_sound :
    (q : QualificationState) (now : ℤ)
    → decide_mutable_qualification q now ≡ ok none
    → IsWellFormed q × IsSafeInteger now × IsOpen q now
unfolding decide_mutable_qualification
mutable_sound q now h = ground (arith, check_sound q)

pub mutable_complete :
    (q : QualificationState) (now : ℤ)
    → IsWellFormed q
    → IsSafeInteger now
    → IsOpen q now
    → decide_mutable_qualification q now ≡ ok none
unfolding decide_mutable_qualification
mutable_complete q now w s o = ground (arith, check_complete q w)

-- An update is allowed exactly for a well-formed open qualification and a proposed window of safe
-- instants that is increasing and ends after the instant of receipt.
pub update_allowed_iff :
    (q : QualificationState) (from until now : ℤ)
    → (decide_qualification_update q from until now ≡ ok allowed) ↔ (
        IsWellFormed q
        × IsOpen q now
        × IsSafeInteger now
        × IsSafeInteger from
        × IsSafeInteger until
        × (from <ℤ until)
        × (now <ℤ until))
unfolding decide_qualification_update decide_qualification_window
update_allowed_iff q from until now = (
  λ h. ground (arith, mutable_sound q now),
  λ (w, o, s, sf, su, inc, later). ground (arith, mutable_complete q now w s o),
)

-- A revocation is allowed exactly for a well-formed open qualification with a reason that is
-- not empty.
pub revocation_allowed_iff :
    (q : QualificationState) (now : ℤ) (reason : Option String)
    → (decide_qualification_revocation q now reason ≡ ok allowed) ↔ (
        IsWellFormed q
        × IsOpen q now
        × IsSafeInteger now
        × ((r : String) × (reason ≡ some r) × (is_empty r ≡ false)))
unfolding decide_qualification_revocation
revocation_allowed_iff q now reason = (
  λ h. ground (arith, mutable_sound q now),
  λ (w, o, s, given). ground (arith, mutable_complete q now w s o),
)

-- The face mapping may be kept exactly by a well-formed qualification that is inside, or open.
retain_iff :
    (q : QualificationState) (now : ℤ)
    → (qualification_can_retain_face_mapping q now ≡ ok true)
      ↔ (IsWellFormed q × IsSafeInteger now × ((q.presence ≡ inside) ⊎ IsOpen q now))
unfolding qualification_can_retain_face_mapping
retain_iff q now =
    (λ h. ground (arith, check_sound q), λ (w, s, o). ground (arith, check_complete q w))

-- Where neither decision throws, an expiration is made terminal, and the face mapping released
-- with it, exactly for a qualification that is neither used, revoked nor expired yet and that may
-- not keep its face mapping at that instant.
pub expiration_ends_retention :
    (q : QualificationState) (now : ℤ) (e : ExpirationDecision) (r : Bool)
    → decide_qualification_expiration q now ≡ ok e
    → qualification_can_retain_face_mapping q now ≡ ok r
    → (e.release_face_mapping ≡ e.terminalize)
      × ((e.terminalize ≡ true) ↔ (
          (q.presence ≡ not_entered)
          × (q.revoked_at_ms ≡ none)
          × (q.expired_terminal_at_ms ≡ none)
          × (r ≡ false)))
unfolding decide_qualification_expiration qualification_can_retain_face_mapping
expiration_ends_retention q now e r he hr = (ground arith, ((λ h. ground arith), λ h. ground arith))
