-- ===== src/Decision.antt =====
-- src/access/domain/access-decision.ts: what happens to a recognised holder at a gate. The checks
-- of an unknown direction, kind or flag are on values that these types do not have.
pub mod Laws
mod Tests
use pass_hub.Base.{
  Bool, true, false, not, ◌||◌, Option, none, some, ℤ, leb_ℤ, ltb_ℤ, is_safe_integer, is_some,
  if◌then◌else◌, Result, ok, err, ◌>>◌, guard,
}
use pass_hub.Qualification.{
  Presence, not_entered, inside, exited, QualificationState, DomainInvariantError,
  assert_qualification_state,
}

pub data Direction : Type 0 where
  entry exit : Direction

pub data Outcome : Type 0 where
  accepted rejected : Outcome

pub data ReasonCode : Type 0 where
  source_inactive invalid_qr_credential face_unknown face_subject_not_mapped : ReasonCode
  qualification_revoked already_inside qualification_already_used : ReasonCode
  qualification_not_yet_valid qualification_expired entry_granted : ReasonCode
  not_inside already_exited exit_recorded : ReasonCode

pub data IdentityResolution : Type 0 where
  resolved : QualificationState → IdentityResolution
  invalid_qr_credential face_unknown face_subject_not_mapped : IdentityResolution

pub data QualificationEffect : Type 0 where
  no_effect expire_not_entered : QualificationEffect

pub data FaceMappingEffect : Type 0 where
  keep release : FaceMappingEffect

pub record PresenceTransition : Type 0 where
  pub from : Presence
  pub to : Presence

pub record AccessDecision : Type 0 where
  pub outcome : Outcome
  pub reason_code : ReasonCode
  pub presence_transition : Option PresenceTransition
  pub qualification_effect : QualificationEffect
  pub face_mapping_effect : FaceMappingEffect

pub record AccessInput : Type 0 where
  pub direction : Direction
  pub source_active : Bool
  pub resolution : IdentityResolution
  pub received_at_ms : ℤ

pub data AccessError : Type 0 where
  domain_invariant : DomainInvariantError → AccessError
  unsafe_received_at : AccessError

abbrev pub reject : ReasonCode → AccessDecision
reject reason = record {
  outcome = rejected;
  reason_code = reason;
  presence_transition = none;
  qualification_effect = no_effect;
  face_mapping_effect = keep;
}

abbrev pub expire : Bool → AccessDecision
expire already_terminal = record {
  outcome = rejected;
  reason_code = qualification_expired;
  presence_transition = none;
  qualification_effect = if already_terminal then no_effect else expire_not_entered;
  face_mapping_effect = if already_terminal then keep else release;
}

abbrev pub grant_entry : AccessDecision
grant_entry = record {
  outcome = accepted;
  reason_code = entry_granted;
  presence_transition = some (record { from = not_entered; to = inside });
  qualification_effect = no_effect;
  face_mapping_effect = keep;
}

abbrev pub record_exit : AccessDecision
record_exit = record {
  outcome = accepted;
  reason_code = exit_recorded;
  presence_transition = some (record { from = inside; to = exited });
  qualification_effect = no_effect;
  face_mapping_effect = release;
}

entry_by_window : QualificationState → ℤ → AccessDecision
entry_by_window q now =
    if ltb_ℤ now q.valid_from_ms
    then reject qualification_not_yet_valid
    else if is_some q.expired_terminal_at_ms || leb_ℤ q.valid_until_ms now
    then expire (is_some q.expired_terminal_at_ms)
    else grant_entry

entry_by_presence : Presence → QualificationState → ℤ → AccessDecision
unfolding entry_by_window
entry_by_presence inside q now = reject already_inside
entry_by_presence exited q now = reject qualification_already_used
entry_by_presence not_entered q now = entry_by_window q now

decide_entry : QualificationState → ℤ → AccessDecision
unfolding entry_by_presence
decide_entry q now =
    if is_some q.revoked_at_ms
    then reject qualification_revoked
    else entry_by_presence q.presence q now

exit_by_presence : Presence → AccessDecision
exit_by_presence not_entered = reject not_inside
exit_by_presence exited = reject already_exited
exit_by_presence inside = record_exit

decide_exit : QualificationState → AccessDecision
unfolding exit_by_presence
decide_exit q = exit_by_presence q.presence

abbrev by_direction : Direction → QualificationState → ℤ → AccessDecision
by_direction entry q now = decide_entry q now
by_direction exit q now = decide_exit q

abbrev checked :
    Result DomainInvariantError (Unit {0}) → AccessDecision → Result AccessError AccessDecision
checked (ok _) decision = ok decision
checked (err e) decision = err (domain_invariant e)

decide_resolved : AccessInput → IdentityResolution → Result AccessError AccessDecision
unfolding decide_entry decide_exit
decide_resolved i invalid_qr_credential = ok (reject ReasonCode.invalid_qr_credential)
decide_resolved i face_unknown = ok (reject ReasonCode.face_unknown)
decide_resolved i face_subject_not_mapped = ok (reject ReasonCode.face_subject_not_mapped)
decide_resolved i (resolved q) =
    checked (assert_qualification_state q) (by_direction i.direction q i.received_at_ms)

unfoldable pub decide_access : AccessInput → Result AccessError AccessDecision
unfolding decide_resolved
decide_access i = do
  guard (is_safe_integer i.received_at_ms) unsafe_received_at
  if i.source_active then decide_resolved i i.resolution else ok (reject source_inactive)
