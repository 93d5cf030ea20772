-- ===== src/Qualification/WellFormed.antt =====
-- What the check of a qualification's state establishes.
use pass_hub.Base.{
  false, Option, none, some, String, ℤ, ◌<ℤ◌, IsSafeInteger, is_empty, ok, ◌↔◌, ◌≡◌, ◌≢◌, ◌⊎◌,
  arith,
}
use pass_hub.Qualification.{
  Presence, not_entered, inside, exited, QualificationState, assert_qualification_state,
}

abbrev pub IsSafeNullable : Option ℤ → Type 0
IsSafeNullable none = Unit
IsSafeNullable (some v) = IsSafeInteger v

abbrev pub IsPaired : Option ℤ → Option String → Type 0
IsPaired none none = Unit
IsPaired (some at) (some reason) = is_empty reason ≡ false
IsPaired _ _ = ⊥

-- Which timestamps each presence allows.
abbrev pub HasShape : Presence → QualificationState → Type 0
HasShape not_entered q =
    (q.entered_at_ms ≡ none)
    × (q.exited_at_ms ≡ none)
    × ((q.revoked_at_ms ≡ none) ⊎ (q.expired_terminal_at_ms ≡ none))
HasShape inside q =
    (q.entered_at_ms ≢ none)
    × (q.exited_at_ms ≡ none)
    × (q.revoked_at_ms ≡ none)
    × (q.expired_terminal_at_ms ≡ none)
HasShape exited q =
    (q.entered_at_ms ≢ none)
    × (q.exited_at_ms ≢ none)
    × (q.revoked_at_ms ≡ none)
    × (q.expired_terminal_at_ms ≡ none)

pub record IsWellFormed (q : QualificationState) : Type 0 where
  pub safe_from : IsSafeInteger q.valid_from_ms
  pub safe_until : IsSafeInteger q.valid_until_ms
  pub safe_entered : IsSafeNullable q.entered_at_ms
  pub safe_exited : IsSafeNullable q.exited_at_ms
  pub safe_revoked : IsSafeNullable q.revoked_at_ms
  pub safe_expired : IsSafeNullable q.expired_terminal_at_ms
  pub increasing : q.valid_from_ms <ℤ q.valid_until_ms
  pub paired : IsPaired q.revoked_at_ms q.revocation_reason
  pub shape : HasShape q.presence q

pub check_sound : (q : QualificationState) → assert_qualification_state q ≡ ok tt → IsWellFormed q
unfolding assert_qualification_state
check_sound q h = record {
  safe_from = ground arith;
  safe_until = ground arith;
  safe_entered = ground arith;
  safe_exited = ground arith;
  safe_revoked = ground arith;
  safe_expired = ground arith;
  increasing = ground arith;
  paired = ground arith;
  shape = ground arith;
}

pub check_complete :
    (q : QualificationState) → IsWellFormed q → assert_qualification_state q ≡ ok tt
unfolding assert_qualification_state
check_complete q w = ground arith

-- The check returns exactly for a well-formed state: instants that are safe, a window that is
-- increasing, a revocation with a reason that is not empty or neither, and the timestamps that
-- the presence allows.
pub check_iff : (q : QualificationState) → (assert_qualification_state q ≡ ok tt) ↔ IsWellFormed q
check_iff q = (check_sound q, check_complete q)
