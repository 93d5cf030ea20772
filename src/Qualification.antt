-- ===== src/Qualification.antt =====
-- src/access/domain/qualification.ts: the state of a qualification, the check that it is well
-- formed, and the decisions of the management operations on it.
pub mod WellFormed
pub mod Management
mod Tests
use pass_hub.Base.{
  Bool, true, false, not, ◌&&◌, ◌||◌, Option, none, some, String, ℤ, leb_ℤ, ltb_ℤ, is_safe_integer,
  is_some, is_empty, if◌then◌else◌, Result, ok, err, ◌>>=◌, ◌>>◌, guard,
}

pub data Presence : Type 0 where
  not_entered inside exited : Presence

pub record QualificationState : Type 0 where
  pub valid_from_ms : ℤ
  pub valid_until_ms : ℤ
  pub presence : Presence
  pub entered_at_ms : Option ℤ
  pub exited_at_ms : Option ℤ
  pub revoked_at_ms : Option ℤ
  pub revocation_reason : Option String
  pub expired_terminal_at_ms : Option ℤ

-- The field that an instant check names.
pub data Field : Type 0 where
  valid_from valid_until entered_at exited_at revoked_at expired_terminal_at : Field
  received_at at : Field

-- One constructor for each message of a thrown `DomainInvariantError`.
pub data DomainInvariantError : Type 0 where
  unsafe_instant : Field → DomainInvariantError
  window_not_increasing unpaired_revocation empty_reason : DomainInvariantError
  timestamps_before_entry revoked_and_expired : DomainInvariantError
  terminal_after_entry bad_inside_timestamps bad_exited_timestamps : DomainInvariantError

abbrev pub Checked {ℓ} : Type ℓ → Type ℓ
Checked = Result DomainInvariantError

unfoldable pub assert_instant : ℤ → Field → Checked (Unit {0})
assert_instant value field = guard (is_safe_integer value) (unsafe_instant field)

unfoldable pub assert_nullable_instant : Option ℤ → Field → Checked (Unit {0})
unfolding assert_instant
assert_nullable_instant none field = ok tt
assert_nullable_instant (some value) field = assert_instant value field

assert_reason : Option String → Checked (Unit {0})
assert_reason none = ok tt
assert_reason (some reason) = guard (not (is_empty reason)) empty_reason

-- The part of the check that depends on the presence, from line 116 on.
assert_presence_shape : Presence → QualificationState → Checked (Unit {0})
assert_presence_shape not_entered q = do
  guard (not (is_some q.entered_at_ms || is_some q.exited_at_ms)) timestamps_before_entry
  guard (not (is_some q.revoked_at_ms && is_some q.expired_terminal_at_ms)) revoked_and_expired
assert_presence_shape inside q = do
  guard (not (is_some q.revoked_at_ms || is_some q.expired_terminal_at_ms)) terminal_after_entry
  guard (is_some q.entered_at_ms && not (is_some q.exited_at_ms)) bad_inside_timestamps
assert_presence_shape exited q = do
  guard (not (is_some q.revoked_at_ms || is_some q.expired_terminal_at_ms)) terminal_after_entry
  guard (is_some q.entered_at_ms && is_some q.exited_at_ms) bad_exited_timestamps

-- `hasRevocation === hasReason`.
abbrev same : Bool → Bool → Bool
same true b = b
same false b = not b

unfoldable pub assert_qualification_state : QualificationState → Checked (Unit {0})
unfolding assert_instant assert_nullable_instant assert_reason assert_presence_shape
assert_qualification_state q = do
  assert_instant q.valid_from_ms valid_from
  assert_instant q.valid_until_ms valid_until
  assert_nullable_instant q.entered_at_ms entered_at
  assert_nullable_instant q.exited_at_ms exited_at
  assert_nullable_instant q.revoked_at_ms revoked_at
  assert_nullable_instant q.expired_terminal_at_ms expired_terminal_at
  guard (ltb_ℤ q.valid_from_ms q.valid_until_ms) window_not_increasing
  guard (same (is_some q.revoked_at_ms) (is_some q.revocation_reason)) unpaired_revocation
  assert_reason q.revocation_reason
  assert_presence_shape q.presence q

pub data RejectionReason : Type 0 where
  until_not_after_from until_not_after_received : RejectionReason
  already_entered already_used already_revoked already_expired : RejectionReason
  revocation_reason_required : RejectionReason

pub data Verdict : Type 0 where
  allowed : Verdict
  refused : RejectionReason → Verdict

unfoldable pub decide_qualification_window : ℤ → ℤ → ℤ → Checked Verdict
unfolding assert_instant
decide_qualification_window from until now = do
  assert_instant from valid_from
  assert_instant until valid_until
  assert_instant now received_at
  ok (
      if leb_ℤ until from
      then refused until_not_after_from
      else if leb_ℤ until now
      then refused until_not_after_received
      else allowed)

-- The chain of returns in `decideMutableQualification`; `none` is its `null`.
immutable_reason : Presence → QualificationState → ℤ → Option RejectionReason
immutable_reason inside q now = some already_entered
immutable_reason exited q now = some already_used
immutable_reason not_entered q now =
    if is_some q.revoked_at_ms
    then some already_revoked
    else if is_some q.expired_terminal_at_ms || leb_ℤ q.valid_until_ms now
    then some already_expired
    else none

unfoldable pub decide_mutable_qualification :
    QualificationState → ℤ → Checked (Option RejectionReason)
unfolding assert_instant immutable_reason
decide_mutable_qualification q now = do
  assert_qualification_state q
  assert_instant now received_at
  ok (immutable_reason q.presence q now)

abbrev unless : Option RejectionReason → Checked Verdict → Checked Verdict
unless (some reason) next = ok (refused reason)
unless none next = next

-- The proposed window, and the instant of receipt.
unfoldable pub decide_qualification_update : QualificationState → ℤ → ℤ → ℤ → Checked Verdict
decide_qualification_update q from until now = do
  reason ← decide_mutable_qualification q now
  unless reason (decide_qualification_window from until now)

abbrev given_reason : Option String → Verdict
given_reason none = refused revocation_reason_required
given_reason (some reason) = if is_empty reason then refused revocation_reason_required else allowed

unfoldable pub decide_qualification_revocation :
    QualificationState → ℤ → Option String → Checked Verdict
decide_qualification_revocation q now reason = do
  immutable ← decide_mutable_qualification q now
  unless immutable (ok (given_reason reason))

abbrev pub is_not_entered : Presence → Bool
is_not_entered not_entered = true
is_not_entered _ = false

abbrev pub is_inside : Presence → Bool
is_inside inside = true
is_inside _ = false

abbrev pub is_exited : Presence → Bool
is_exited exited = true
is_exited _ = false

pub record ExpirationDecision : Type 0 where
  pub terminalize : Bool
  pub release_face_mapping : Bool

unfoldable pub decide_qualification_expiration : QualificationState → ℤ → Checked ExpirationDecision
unfolding assert_instant
decide_qualification_expiration q now = do
  assert_qualification_state q
  assert_instant now received_at
  let expires =
      is_not_entered q.presence
      && not (is_some q.revoked_at_ms)
      && not (is_some q.expired_terminal_at_ms)
      && leb_ℤ q.valid_until_ms now
  ok (record { terminalize = expires; release_face_mapping = expires })

unfoldable pub qualification_can_retain_face_mapping : QualificationState → ℤ → Checked Bool
unfolding assert_instant
qualification_can_retain_face_mapping q now = do
  assert_qualification_state q
  assert_instant now at
  ok (
      not (is_exited q.presence)
      && not (is_some q.revoked_at_ms)
      && not (is_some q.expired_terminal_at_ms)
      && (is_inside q.presence || ltb_ℤ now q.valid_until_ms))
