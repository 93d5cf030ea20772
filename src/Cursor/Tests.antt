-- ===== src/Cursor/Tests.antt =====
-- A cursor on a small platform: fields are joined by `Z`, and base64url leaves a text as it is.
use Prim.Native.Char.{code}
use mathlib.Core.Path.{subst}
use text.Mathlib.Text.{◌==◌}
use pass_hub.Base.{
  ℕ, zero, suc, true, Option, none, some, List, [], ◌∷◌, String, ℤ, pos, negsuc, ok, ◌≡◌, refl,
  if◌then◌else◌, leb, ◌&&◌,
}
use pass_hub.Cursor.{
  Json, null, string, array, Platform, Filters, AfterKey, valid, is_uuid, matches, includes,
  is_nullable_outcome, is_nullable_reason_code, assert_filters, assert_scope, text_length, refused,
  dataset_epoch_mismatch,
}
use pass_hub.Cursor.Codec.{encode, decode, cursor_tuple}
use pass_hub.Cursor.Laws.{decode-encode, Restores}
use pass_hub.Cursor.Canonical.{decode_canonical}

abbrev append : String → String → String
append String.[] t = t
append (String.◌∷◌ c s) t = String.◌∷◌ c (append s t)

abbrev join : List Json → String
join [] = ""
join (string s ∷ t) = append s (append "Z" (join t))
join (j ∷ t) = append "NZ" (join t)

abbrev field : String → Json
field s = if s == "N" then null else string s

-- The second text is what was read of the field so far.
abbrev split : String → String → List Json
split String.[] s = []
split (String.◌∷◌ c rest) s =
    let here = split rest (append s (String.◌∷◌ c "")) in
    let next = split rest "" in
    if leb (code c) b'Z' && leb b'Z' (code c) then field s ∷ next else here

abbrev ticks : ℕ → String
ticks zero = ""
ticks (suc n) = append "t" (ticks n)

abbrev written : ℤ → Option String
written (pos n) = some (ticks n)
written (negsuc n) = none

abbrev small : Platform
small = record {
  stringify = join;
  parse = λ s. some (array (split s ""));
  to_base64url = λ s. s;
  from_base64url = some;
  trim = λ s. s;
  to_iso = written;
  date_parse = λ s. some (pos (text_length s));
}

abbrev epoch : String
epoch = "0d0d0d0d-1e1e-4a4a-8b8b-0123456789ab"

abbrev other_epoch : String
other_epoch = "1d0d0d0d-1e1e-4a4a-8b8b-0123456789ab"

abbrev accepted : Filters
accepted = record {
  qualification_id = none;
  outcome = some "ACCEPTED";
  reason_code = some "ENTRY_GRANTED";
}

abbrev last : AfterKey
last = record { last_time_ms = pos 3; last_id = "ffffffff-1e1e-4a4a-bb8b-0123456789ab" }

abbrev cursor : String
cursor =
    "p1Z0d0d0d0d-1e1e-4a4a-8b8b-0123456789abZeventsZNZACCEPTEDZENTRY_GRANTEDZtttZffffffff-1e1e-4a4a-bb8b-0123456789abZ"

encoded : encode small epoch "events" accepted last ≡ ok cursor
unfolding encode
encoded = refl

time_of :
    (s : String) (Q : String → Type 0)
    → ◌≡◌ {A = Option String} (some "ttt") (some s)
    → Q "ttt"
    → Q s
time_of s Q e q = subst Q (of_some e) q
  where
    of_some : {s t : String} → ◌≡◌ {A = Option String} (some s) (some t) → s ≡ t
    of_some e = cc

in_scope : (s : String) → is_uuid s ≡ true → assert_scope s "events" accepted ≡ ok tt
unfolding assert_scope assert_filters includes is_nullable_outcome is_nullable_reason_code
in_scope s h = simp (h)

-- The cursor is answered with its key for its own query, and refused for another epoch.
decode-encode_example :
    decode small (some cursor) other_epoch "events" accepted ≡ ok (refused dataset_epoch_mismatch)
unfolding is_uuid matches text_length
decode-encode_example =
    decode-encode small epoch "events" accepted last cursor
      (λ s e. time_of s (λ t. small.date_parse t ≡ some (pos 3)) e refl)
      (λ s e.
        time_of s (λ t. Restores small (cursor_tuple epoch "events" accepted t last.last_id)) e
          (refl, refl))
      (λ h. refl) encoded other_epoch "events" accepted (in_scope other_epoch refl)

decoded : decode small (some cursor) epoch "events" accepted ≡ ok (valid last)
unfolding is_uuid matches text_length
decoded =
    decode-encode small epoch "events" accepted last cursor
      (λ s e. time_of s (λ t. small.date_parse t ≡ some (pos 3)) e refl)
      (λ s e.
        time_of s (λ t. Restores small (cursor_tuple epoch "events" accepted t last.last_id)) e
          (refl, refl))
      (λ h. refl) encoded epoch "events" accepted (in_scope epoch refl)

decode_canonical_example : encode small epoch "events" accepted last ≡ ok cursor
decode_canonical_example = decode_canonical small cursor epoch "events" accepted last decoded
