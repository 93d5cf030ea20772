-- ===== src/Cursor/Codec.antt =====
-- src/access/application/internal/query-cursor.ts: `encode` and `decode`, over the tuple of a cursor.
use Prim.Native.Char.{code}
use text.Mathlib.Text.{◌==◌}
use pass_hub.Base.{
  Bool, true, false, ◌&&◌, Option, none, some, List, [], ◌∷◌, String, ℤ, is_safe_integer, Result,
  ok, err, guard, ◌>>◌, ◌>>=◌,
}
use pass_hub.Cursor.{
  null, string, array, no_array, time_invalid, encoding_invalid, id_invalid, invalid_cursor,
  dataset_epoch_mismatch, cursor_scope_mismatch, empty, valid, refused, Json, Parsed, Platform,
  Filters, AfterKey, Refusal, Decoded, ErrorCode, is_uuid, is_encoding, includes, endpoints,
  is_nullable_outcome, is_nullable_reason_code, cursor_shape_matches_endpoint, assert_scope,
}

abbrev pub of_nullable : Option String → Json
of_nullable none = null
of_nullable (some s) = string s

-- The array of a cursor.
abbrev pub cursor_tuple : String → String → Filters → String → String → List Json
cursor_tuple epoch endpoint f last_time last_id =
    string "p1"
    ∷ string epoch
    ∷ string endpoint
    ∷ of_nullable f.qualification_id
    ∷ of_nullable f.outcome
    ∷ of_nullable f.reason_code
    ∷ string last_time
    ∷ string last_id
    ∷ []

abbrev pub encode_tuple : Platform → List Json → String
encode_tuple p t = p.to_base64url (p.stringify t)

abbrev pub or_throw : {A : Type 0} {E : Type 0} → E → Option A → Result E A
or_throw code none = err code
or_throw code (some a) = ok a

-- `assertAfter` and what follows it in `encode`.
unfoldable pub encode_after :
    Platform → String → String → Filters → AfterKey → Result ErrorCode String
unfolding is_uuid is_encoding
encode_after p epoch endpoint f after =
    guard (is_safe_integer after.last_time_ms) time_invalid
    >> (or_throw time_invalid (p.to_iso after.last_time_ms) >>= λ last_time.
        let encoded = encode_tuple p (cursor_tuple epoch endpoint f last_time after.last_id) in
        guard (is_uuid after.last_id) id_invalid
        >> (guard (is_encoding encoded) encoding_invalid >> ok encoded))

unfoldable pub encode : Platform → String → String → Filters → AfterKey → Result ErrorCode String
unfolding assert_scope encode_after
encode p epoch endpoint f after =
    assert_scope epoch endpoint f >> encode_after p epoch endpoint f after

abbrev pub as_text : Json → Option String
as_text (string s) = some s
as_text _ = none

abbrev pub as_nullable : Json → Option (Option String)
as_nullable null = some none
as_nullable (string s) = some (some s)
as_nullable _ = none

-- `parseCanonicalIso`.
unfoldable pub parse_canonical_iso : Platform → String → Result Refusal ℤ
parse_canonical_iso p last_time = or_throw invalid_cursor (p.date_parse last_time) >>= λ parsed.
    guard (is_safe_integer parsed) invalid_cursor
    >> (or_throw invalid_cursor (p.to_iso parsed) >>= λ written.
        guard (written == last_time) invalid_cursor >> ok parsed)

abbrev pub same_nullable : Option String → Option String → Bool
same_nullable none none = true
same_nullable (some s) (some t) = s == t
same_nullable _ _ = false

abbrev pub same_scope : String → Filters → String → Filters → Bool
same_scope cursor_endpoint g endpoint f =
    cursor_endpoint == endpoint
    && same_nullable g.qualification_id f.qualification_id
    && same_nullable g.outcome f.outcome
    && same_nullable g.reason_code f.reason_code

-- From the array, with the values that were found in it.
unfoldable pub decode_fields :
    Platform
    → String
    → List Json
    → String
    → String
    → Filters
    → String
    → String
    → Filters
    → String
    → String
    → Result Refusal AfterKey
unfolding includes is_uuid is_nullable_outcome is_nullable_reason_code cursor_shape_matches_endpoint
    parse_canonical_iso
decode_fields p raw tuple epoch endpoint f cursor_epoch cursor_endpoint g last_time last_id =
    guard (is_uuid cursor_epoch) invalid_cursor
    >> guard (includes cursor_endpoint endpoints) invalid_cursor
    >> guard (is_nullable_outcome g.outcome && is_nullable_reason_code g.reason_code) invalid_cursor
    >> guard (cursor_shape_matches_endpoint cursor_endpoint g) invalid_cursor
    >> (parse_canonical_iso p last_time >>= λ last_time_ms.
        guard (is_uuid last_id) invalid_cursor
        >> guard (encode_tuple p tuple == raw) invalid_cursor
        >> guard (cursor_epoch == epoch) dataset_epoch_mismatch
        >> guard (same_scope cursor_endpoint g endpoint f) cursor_scope_mismatch
        >> ok (record { last_time_ms = last_time_ms; last_id = last_id }))

unfoldable pub decode_values :
    Platform
    → String
    → List Json
    → String
    → String
    → Filters
    → Json
    → Json
    → Json
    → Json
    → Json
    → Json
    → Json
    → Json
    → Result Refusal AfterKey
unfolding decode_fields
decode_values p raw tuple epoch endpoint f v e n q o r time id =
    or_throw invalid_cursor (as_text v) >>= λ version.
    or_throw invalid_cursor (as_text e) >>= λ cursor_epoch.
    or_throw invalid_cursor (as_text n) >>= λ cursor_endpoint.
    or_throw invalid_cursor (as_nullable q) >>= λ qualification_id.
    or_throw invalid_cursor (as_nullable o) >>= λ outcome.
    or_throw invalid_cursor (as_nullable r) >>= λ reason_code.
    or_throw invalid_cursor (as_text time) >>= λ last_time.
    or_throw invalid_cursor (as_text id) >>= λ last_id.
    guard (version == "p1") invalid_cursor
    >> decode_fields p raw tuple epoch endpoint f cursor_epoch cursor_endpoint
        (record {
          qualification_id = qualification_id;
          outcome = outcome;
          reason_code = reason_code;
        })
        last_time last_id

-- An array of another length is no cursor.
unfoldable pub decode_tuple :
    Platform → String → String → String → Filters → List Json → Result Refusal AfterKey
unfolding decode_values
decode_tuple p raw epoch endpoint f (v ∷ e ∷ n ∷ q ∷ o ∷ r ∷ time ∷ id ∷ []) =
    decode_values p raw (v ∷ e ∷ n ∷ q ∷ o ∷ r ∷ time ∷ id ∷ []) epoch endpoint f v e n q o r time
      id
decode_tuple p raw epoch endpoint f _ = err invalid_cursor

abbrev pub array_of : Parsed → Option (List Json)
array_of (array t) = some t
array_of no_array = none

unfoldable pub decode_text : Platform → String → String → String → Filters → Result Refusal AfterKey
unfolding is_encoding decode_tuple
decode_text p raw epoch endpoint f =
    guard (is_encoding raw && p.trim raw == raw) invalid_cursor
    >> (or_throw invalid_cursor (p.from_base64url raw) >>= λ decoded.
        or_throw invalid_cursor (p.parse decoded) >>= λ parsed.
        or_throw invalid_cursor (array_of parsed) >>= λ tuple.
        decode_tuple p raw epoch endpoint f tuple)

abbrev pub as_decoded : Result Refusal AfterKey → Decoded
as_decoded (ok after) = valid after
as_decoded (err refusal) = refused refusal

unfoldable pub decode :
    Platform → Option String → String → String → Filters → Result ErrorCode Decoded
unfolding assert_scope decode_text
decode p none epoch endpoint f = assert_scope epoch endpoint f >> ok empty
decode p (some raw) epoch endpoint f =
    assert_scope epoch endpoint f >> ok (as_decoded (decode_text p raw epoch endpoint f))
