-- ===== src/Decision/Tests.antt =====
-- The decisions at a gate at concrete inputs.
use pass_hub.Base.{true, false, none, some, ℤ, pos, ◌≤ℤ◌, IsSafeInteger, ok, ◌≡◌, refl, ◌⊎◌, ◌↔◌}
use pass_hub.Qualification.{
  not_entered, inside, QualificationState, decide_qualification_expiration,
  assert_qualification_state,
}
use pass_hub.Qualification.WellFormed.{IsWellFormed}
use pass_hub.Qualification.Management.{IsOpen}
use pass_hub.Decision.{
  entry, exit, rejected, resolved, AccessInput, release, expire, expire_not_entered, grant_entry,
  record_exit, decide_access,
}
use pass_hub.Decision.Laws.{
  entry_granted_iff, exit_recorded_iff, accepted_only, entry_expires_iff, release_iff, IsMove,
}

abbrev holder : QualificationState
holder = record {
  valid_from_ms = pos 100;
  valid_until_ms = pos 200;
  presence = not_entered;
  entered_at_ms = none;
  exited_at_ms = none;
  revoked_at_ms = none;
  revocation_reason = none;
  expired_terminal_at_ms = none;
}

abbrev visitor : QualificationState
visitor = record holder { presence = inside; entered_at_ms = some (pos 110) }

abbrev comes : ℤ → AccessInput
comes now = record {
  direction = entry;
  source_active = true;
  resolution = resolved holder;
  received_at_ms = now;
}

abbrev leaves : AccessInput
leaves = record {
  direction = exit;
  source_active = true;
  resolution = resolved visitor;
  received_at_ms = pos 900;
}

comes_in_time : decide_access (comes (pos 100)) ≡ ok grant_entry
unfolding decide_access assert_qualification_state
comes_in_time = refl

comes_late : decide_access (comes (pos 200)) ≡ ok (expire false)
unfolding decide_access assert_qualification_state
comes_late = refl

leaves_late : decide_access leaves ≡ ok record_exit
unfolding decide_access assert_qualification_state
leaves_late = refl

entry_granted_iff_example : (decide_access (comes (pos 100)) ≡ ok grant_entry) ↔ (
    (true ≡ true)
    × IsSafeInteger (pos 100)
    × IsWellFormed holder
    × IsOpen holder (pos 100)
    × (pos 100 ≤ℤ pos 100))
entry_granted_iff_example = entry_granted_iff (comes (pos 100)) holder refl refl

exit_recorded_iff_example :
    (decide_access leaves ≡ ok record_exit)
    ↔ ((true ≡ true) × IsSafeInteger (pos 900) × IsWellFormed visitor × (visitor.presence ≡ inside))
exit_recorded_iff_example = exit_recorded_iff leaves visitor refl refl

accepted_only_example :
    (q : QualificationState) × (leaves.resolution ≡ resolved q)
    × IsMove leaves.direction q.presence record_exit
accepted_only_example = accepted_only leaves record_exit leaves_late refl

entry_expires_iff_example : ((expire false).qualification_effect ≡ expire_not_entered) ↔ (
    decide_qualification_expiration holder (pos 200)
    ≡ ok (record { terminalize = true; release_face_mapping = true }))
entry_expires_iff_example =
    entry_expires_iff (comes (pos 200)) holder (expire false) refl refl refl comes_late

release_iff_example :
    ((record_exit.face_mapping_effect ≡ release)
      ↔ ((record_exit ≡ record_exit) ⊎ (record_exit.qualification_effect ≡ expire_not_entered)))
    × (record_exit.outcome ≡ rejected → record_exit.presence_transition ≡ none)
release_iff_example = release_iff leaves record_exit leaves_late
