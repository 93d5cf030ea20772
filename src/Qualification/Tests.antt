-- ===== src/Qualification/Tests.antt =====
-- The decisions on a qualification at concrete inputs.
use pass_hub.Base.{
  true, false, none, some, String, pos, ◌<ℤ◌, IsSafeInteger, is_empty, ok, err, ◌≡◌, refl, ◌↔◌,
}
use pass_hub.Qualification.{
  not_entered, inside, QualificationState, ExpirationDecision, assert_qualification_state,
  decide_qualification_update, decide_qualification_revocation, decide_qualification_expiration,
  qualification_can_retain_face_mapping, decide_mutable_qualification, allowed, refused,
  already_expired, bad_inside_timestamps,
}
use pass_hub.Qualification.WellFormed.{IsWellFormed, check_iff}
use pass_hub.Qualification.Management.{
  IsOpen, update_allowed_iff, revocation_allowed_iff, expiration_ends_retention,
}

abbrev waiting : QualificationState
waiting = record {
  valid_from_ms = pos 100;
  valid_until_ms = pos 200;
  presence = not_entered;
  entered_at_ms = none;
  exited_at_ms = none;
  revoked_at_ms = none;
  revocation_reason = none;
  expired_terminal_at_ms = none;
}

-- An inside holder without a time of entry.
torn : assert_qualification_state (record waiting { presence = inside }) ≡ err bad_inside_timestamps
unfolding assert_qualification_state
torn = refl

late :
    decide_qualification_update waiting (pos 150) (pos 300) (pos 200) ≡ ok (refused already_expired)
unfolding decide_qualification_update decide_mutable_qualification assert_qualification_state
late = refl

check_iff_example : (assert_qualification_state waiting ≡ ok tt) ↔ IsWellFormed waiting
check_iff_example = check_iff waiting

update_allowed_iff_example :
    (decide_qualification_update waiting (pos 150) (pos 300) (pos 120) ≡ ok allowed) ↔ (
      IsWellFormed waiting
      × IsOpen waiting (pos 120)
      × IsSafeInteger (pos 120)
      × IsSafeInteger (pos 150)
      × IsSafeInteger (pos 300)
      × (pos 150 <ℤ pos 300)
      × (pos 120 <ℤ pos 300))
update_allowed_iff_example = update_allowed_iff waiting (pos 150) (pos 300) (pos 120)

revocation_allowed_iff_example :
    (decide_qualification_revocation waiting (pos 120) (some "lost") ≡ ok allowed) ↔ (
      IsWellFormed waiting
      × IsOpen waiting (pos 120)
      × IsSafeInteger (pos 120)
      × ((r : String) × (some "lost" ≡ some r) × (is_empty r ≡ false)))
revocation_allowed_iff_example = revocation_allowed_iff waiting (pos 120) (some "lost")

abbrev ended : ExpirationDecision
ended = record { terminalize = true; release_face_mapping = true }

expiration_ends_retention_example :
    (ended.release_face_mapping ≡ ended.terminalize)
    × ((ended.terminalize ≡ true) ↔ (
        (waiting.presence ≡ not_entered)
        × (waiting.revoked_at_ms ≡ none)
        × (waiting.expired_terminal_at_ms ≡ none)
        × (false ≡ false)))
unfolding decide_qualification_expiration qualification_can_retain_face_mapping
    assert_qualification_state
expiration_ends_retention_example =
    expiration_ends_retention waiting (pos 200) ended false refl refl
