-- ===== src/Cursor.antt =====
-- src/access/application/internal/query-cursor.ts: the cursor of a query, which names the last
-- record that was read. JSON, base64url, UTF-8, dates and `trim` are JavaScript's, and a parameter.
pub mod Codec
mod Tests
pub mod Laws
pub mod Canonical
use Prim.Native.Char.{code}
use text.Mathlib.Text.{◌==◌}
use pass_hub.Base.{
  ℕ, ◌+◌, suc, Bool, true, false, not, ◌&&◌, ◌||◌, Option, none, some, List, [], ◌∷◌, ◌++◌, String,
  ℤ, leb, is_safe_integer, Result, ok, err, guard, ◌>>◌, ◌>>=◌, if◌then◌else◌,
}

-- A value in the array of a cursor: `scalar` is a number or a Boolean, `nested` an array or an object.
pub data Json : Type 0 where
  null scalar nested : Json
  string : String → Json

-- A parsed text.
pub data Parsed : Type 0 where
  array : List Json → Parsed
  no_array : Parsed

-- Of JavaScript: `none` stands for a throw, and in `date_parse` for NaN.
pub record Platform : Type 0 where
  pub stringify : List Json → String
  pub parse : String → Option Parsed
  pub to_base64url : String → String
  pub from_base64url : String → Option String
  pub trim : String → String
  pub to_iso : ℤ → Option String
  pub date_parse : String → Option ℤ

pub record Filters : Type 0 where
  pub qualification_id : Option String
  pub outcome : Option String
  pub reason_code : Option String

pub record AfterKey : Type 0 where
  pub last_time_ms : ℤ
  pub last_id : String

pub data Refusal : Type 0 where
  invalid_cursor dataset_epoch_mismatch cursor_scope_mismatch : Refusal

pub data Decoded : Type 0 where
  empty : Decoded
  valid : AfterKey → Decoded
  refused : Refusal → Decoded

pub data ErrorCode : Type 0 where
  epoch_invalid endpoint_invalid filters_not_allowed filters_invalid id_invalid : ErrorCode
  time_invalid encoding_invalid : ErrorCode

-- The parts of a UUID: hexadecimal digits, the version and the variant, and the dashes.
pub data Part : Type 0 where
  hex dash version variant : Part

abbrev is_digit : ℕ → Bool
is_digit c = leb b'0' c && leb c b'9'

abbrev is_hex : ℕ → Bool
is_hex c = is_digit c || leb b'a' c && leb c b'f'

abbrev is_code : ℕ → ℕ → Bool
is_code a c = leb a c && leb c a

abbrev is_part : Part → ℕ → Bool
is_part hex c = is_hex c
is_part dash c = is_code b'-' c
is_part version c = is_code b'4' c
is_part variant c = is_code b'8' c || is_code b'9' c || is_code b'a' c || is_code b'b' c

abbrev four : List Part → List Part
four ps = hex ∷ hex ∷ hex ∷ hex ∷ ps

abbrev uuid_v4 : List Part
uuid_v4 = four (
    four (
      dash
      ∷ four (
          dash
          ∷ version
          ∷ hex
          ∷ hex
          ∷ hex
          ∷ dash
          ∷ variant
          ∷ hex
          ∷ hex
          ∷ hex
          ∷ dash
          ∷ four (four (four [])))))

unfoldable pub matches : List Part → String → Bool
matches [] String.[] = true
matches [] (String.◌∷◌ c s) = false
matches (p ∷ ps) String.[] = false
matches (p ∷ ps) (String.◌∷◌ c s) = is_part p (code c) && matches ps s

unfoldable pub is_uuid : String → Bool
unfolding matches
is_uuid s = matches uuid_v4 s

abbrev is_base64url_code : ℕ → Bool
is_base64url_code c =
    leb b'A' c && leb c b'Z'
    || leb b'a' c && leb c b'z'
    || is_digit c
    || is_code b'_' c
    || is_code b'-' c

unfoldable pub all_base64url : String → Bool
all_base64url String.[] = true
all_base64url (String.◌∷◌ c s) = is_base64url_code (code c) && all_base64url s

-- In code points, which for the texts that pass the other test are the units of JavaScript.
unfoldable pub text_length : String → ℕ
text_length String.[] = 0
text_length (String.◌∷◌ c s) = suc (text_length s)

-- `assertCanonicalEncoding`.
unfoldable pub is_encoding : String → Bool
unfolding all_base64url text_length
is_encoding s = leb 1 (text_length s) && leb (text_length s) 512 && all_base64url s

unfoldable pub includes : String → List String → Bool
includes s [] = false
includes s (t ∷ ts) = t == s || includes s ts

abbrev pub endpoints : List String
endpoints = "qualifications" ∷ "inside" ∷ "events" ∷ []

abbrev pub outcomes : List String
outcomes = "ACCEPTED" ∷ "REJECTED" ∷ []

abbrev pub reason_codes : List String
reason_codes =
    "SOURCE_INACTIVE" ∷ "INVALID_QR_CREDENTIAL" ∷ "FACE_UNKNOWN" ∷ "FACE_SUBJECT_NOT_MAPPED"
    ∷ "QUALIFICATION_REVOKED" ∷ "ALREADY_INSIDE" ∷ "QUALIFICATION_ALREADY_USED"
    ∷ "QUALIFICATION_NOT_YET_VALID" ∷ "QUALIFICATION_EXPIRED" ∷ "ENTRY_GRANTED" ∷ "NOT_INSIDE"
    ∷ "ALREADY_EXITED" ∷ "EXIT_RECORDED" ∷ []

abbrev pub null_or : (String → Bool) → Option String → Bool
null_or test none = true
null_or test (some s) = test s

abbrev pub is_null : Option String → Bool
is_null none = true
is_null (some s) = false

unfoldable pub is_nullable_outcome : Option String → Bool
unfolding includes
is_nullable_outcome o = null_or (λ s. includes s outcomes) o

unfoldable pub is_nullable_reason_code : Option String → Bool
unfolding includes
is_nullable_reason_code r = null_or (λ s. includes s reason_codes) r

abbrev pub no_filters : Filters → Bool
no_filters f = is_null f.qualification_id && is_null f.outcome && is_null f.reason_code

unfoldable pub cursor_shape_matches_endpoint : String → Filters → Bool
unfolding is_uuid
cursor_shape_matches_endpoint endpoint f =
    if not (endpoint == "events") then no_filters f else null_or is_uuid f.qualification_id

unfoldable pub assert_filters : String → Filters → Result ErrorCode (Unit {0})
unfolding is_uuid is_nullable_outcome is_nullable_reason_code
assert_filters endpoint f =
    guard (endpoint == "events" || no_filters f) filters_not_allowed
    >> guard (is_nullable_outcome f.outcome && is_nullable_reason_code f.reason_code)
        filters_invalid
    >> guard (null_or is_uuid f.qualification_id) id_invalid

unfoldable pub assert_scope : String → String → Filters → Result ErrorCode (Unit {0})
unfolding is_uuid includes assert_filters
assert_scope epoch endpoint f =
    guard (is_uuid epoch) epoch_invalid
    >> guard (includes endpoint endpoints) endpoint_invalid
    >> assert_filters endpoint f
