-- ===== src/Cursor/Laws.antt =====
-- A cursor and the key that it was made from.
use text.Mathlib.Text.{◌==◌}
use text.Mathlib.TextEquality.{eq_iff}
use text.Mathlib.TextPositions.{eq_refl}
use mathlib.Core.Path.{subst}
use pass_hub.Base.{
  Bool-cases, inl, inr, Bool, true, false, not, ◌&&◌, ◌||◌, Option, none, some, List, String, ℤ,
  is_safe_integer, Result, ok, err, guard, ◌>>◌, ◌>>=◌, if◌then◌else◌, ◌≡◌, refl, sym, ap, ◌∙◌,
  arith,
}
use pass_hub.Cursor.{
  Json, array, Platform, Filters, AfterKey, Refusal, dataset_epoch_mismatch, cursor_scope_mismatch,
  Decoded, valid, refused, ErrorCode, is_uuid, is_encoding, includes, endpoints, null_or,
  no_filters, is_nullable_outcome, is_nullable_reason_code, cursor_shape_matches_endpoint,
  assert_filters, assert_scope,
}
use pass_hub.Cursor.Codec.{
  cursor_tuple, encode_tuple, or_throw, encode_after, encode, parse_canonical_iso, same_scope,
  decode_fields, decode_values, decode_tuple, decode_text, as_decoded, decode,
}

pub guard_true : {E : Type 0} (b : Bool) (e : E) → guard b e ≡ ok tt → b ≡ true
guard_true true e h = refl
guard_true false e h = cc

module _ {E A : Type 0} where
  pub then_ok :
      (x : Result E (Unit {0})) (next : Result E A) (v : A)
      → (x >> next) ≡ ok v
      → (x ≡ ok tt) × (next ≡ ok v)
  then_ok (ok tt) next v h = (refl, h)
  then_ok (err e) next v h = cc

  pub bind_ok :
      {B : Type 0} (x : Result E B) (next : B → Result E A) (v : A)
      → (x >>= next) ≡ ok v
      → (b : B) × (x ≡ ok b) × (next b ≡ ok v)
  bind_ok (ok b) next v h = (b, refl, h)
  bind_ok (err e) next v h = cc

  pub or_throw_ok : (e : E) (o : Option A) (a : A) → or_throw e o ≡ ok a → o ≡ some a
  or_throw_ok e none a h = cc
  or_throw_ok e (some b) a h = cc

shape_of_filters :
    (endpoint : String) (f : Filters)
    → (endpoint == "events" || no_filters f) ≡ true
    → null_or is_uuid f.qualification_id ≡ true
    → cursor_shape_matches_endpoint endpoint f ≡ true
unfolding cursor_shape_matches_endpoint
shape_of_filters endpoint f h q = ground arith

-- What the checks of the arguments find.
assert_scope_ok :
    (epoch endpoint : String) (f : Filters)
    → assert_scope epoch endpoint f ≡ ok tt
    → (is_uuid epoch ≡ true)
      × (includes endpoint endpoints ≡ true)
      × ((is_nullable_outcome f.outcome && is_nullable_reason_code f.reason_code) ≡ true)
      × (cursor_shape_matches_endpoint endpoint f ≡ true)
unfolding assert_scope assert_filters
assert_scope_ok epoch endpoint f h =
    let a = then_ok _ _ tt h in
    let b = then_ok _ _ tt a.0 in
    let c = then_ok _ _ tt a.1 in
    let d = then_ok _ _ tt c.0 in
    (
      guard_true _ _ b.0,
      guard_true _ _ b.1,
      guard_true _ _ d.1,
      shape_of_filters endpoint f (guard_true _ _ d.0) (guard_true _ _ c.1),
    )

-- What a cursor is answered with, by the query that it was made for and the query that it is used for.
abbrev pub answer : String → String → Filters → AfterKey → String → String → Filters → Decoded
answer cursor_epoch cursor_endpoint g after epoch endpoint f =
    if not (cursor_epoch == epoch)
    then refused dataset_epoch_mismatch
    else if not (same_scope cursor_endpoint g endpoint f)
    then refused cursor_scope_mismatch
    else valid after

own_fields :
    (p : Platform) (raw : String) (tuple : List Json) (epoch endpoint : String) (f : Filters)
    (e n : String) (g : Filters) (after : AfterKey) (time : String)
    → is_uuid e ≡ true
    → includes n endpoints ≡ true
    → (is_nullable_outcome g.outcome && is_nullable_reason_code g.reason_code) ≡ true
    → cursor_shape_matches_endpoint n g ≡ true
    → parse_canonical_iso p time ≡ ok after.last_time_ms
    → is_uuid after.last_id ≡ true
    → (encode_tuple p tuple == raw) ≡ true
    → as_decoded (decode_fields p raw tuple epoch endpoint f e n g time after.last_id)
      ≡ answer e n g after epoch endpoint f
unfolding decode_fields
own_fields p raw tuple epoch endpoint f e n g after time he hn ho hs ht hi hr =
    elim (Bool-cases (e == epoch)) [
      | inr a ↦ simp (he, hn, ho, hs, ht, hi, hr, a)
      | inl a ↦ elim (Bool-cases (same_scope n g endpoint f)) [
        | inl b ↦ simp (he, hn, ho, hs, ht, hi, hr, a, b)
        | inr b ↦ simp (he, hn, ho, hs, ht, hi, hr, a, b)
      ]
    ]

-- What an encoding that returns has found.
encode_ok :
    (p : Platform) (e n : String) (g : Filters) (after : AfterKey) (raw : String)
    → encode p e n g after ≡ ok raw
    → (time : String) × (assert_scope e n g ≡ ok tt)
      × (is_safe_integer after.last_time_ms ≡ true)
      × (p.to_iso after.last_time_ms ≡ some time)
      × (is_uuid after.last_id ≡ true)
      × (is_encoding raw ≡ true)
      × (encode_tuple p (cursor_tuple e n g time after.last_id) ≡ raw)
unfolding encode encode_after
encode_ok p e n g after raw h =
    let a = then_ok (assert_scope e n g) _ raw h in
    let b = then_ok (guard (is_safe_integer after.last_time_ms) _) _ raw a.1 in
    let c = bind_ok (or_throw _ (p.to_iso after.last_time_ms)) _ raw b.1 in
    let d = then_ok (guard (is_uuid after.last_id) _) _ raw c.2 in
    let encoded = encode_tuple p (cursor_tuple e n g c.0 after.last_id) in
    let x = then_ok (guard (is_encoding encoded) _) _ raw d.1 in
    let same = ok_injective encoded raw x.1 in
    (
      c.0,
      a.0,
      guard_true _ _ b.0,
      or_throw_ok _ _ c.0 c.1,
      guard_true _ _ d.0,
      ap is_encoding (sym same) ∙ guard_true _ _ x.0,
      same,
    )
  where
    ok_injective : (s t : String) → ◌≡◌ {A = Result ErrorCode String} (ok s) (ok t) → s ≡ t
    ok_injective s t q = cc

own_time :
    (p : Platform) (ms : ℤ) (time : String)
    → is_safe_integer ms ≡ true
    → p.to_iso ms ≡ some time
    → p.date_parse time ≡ some ms
    → parse_canonical_iso p time ≡ ok ms
unfolding parse_canonical_iso
own_time p ms time hs hi hd = simp (hs, hi, hd, eq_refl)

-- JavaScript reads the JSON and the base64url of a tuple that it has written.
abbrev pub Restores : Platform → List Json → Type 0
Restores p tuple =
    (p.from_base64url (encode_tuple p tuple) ≡ some (p.stringify tuple))
    × (p.parse (p.stringify tuple) ≡ some (array tuple))

own_tuple :
    (p : Platform) (raw epoch endpoint : String) (f : Filters) (e n : String) (g : Filters)
    (time id : String)
    → decode_tuple p raw epoch endpoint f (cursor_tuple e n g time id)
      ≡ decode_fields p raw (cursor_tuple e n g time id) epoch endpoint f e n g time id
unfolding decode_tuple decode_values
own_tuple p raw epoch endpoint f e n g time id = from g.qualification_id g.outcome g.reason_code
  where
    from :
        (q o r : Option String)
        → ◌≡◌ {A = Result Refusal AfterKey}
            (decode_tuple p raw epoch endpoint f (
              cursor_tuple e n
                (record { qualification_id = q; outcome = o; reason_code = r })
                time
                id))
            (decode_fields p raw
              (cursor_tuple e n
                (record { qualification_id = q; outcome = o; reason_code = r })
                time
                id)
              epoch
              endpoint
              f
              e
              n
              (record { qualification_id = q; outcome = o; reason_code = r })
              time
              id)
    from none none none = refl
    from none none (some r) = refl
    from none (some o) none = refl
    from none (some o) (some r) = refl
    from (some q) none none = refl
    from (some q) none (some r) = refl
    from (some q) (some o) none = refl
    from (some q) (some o) (some r) = refl

-- The round trip of a cursor: where JavaScript reads back the tuple and the time that it has written,
-- and trims nothing from a text that is an encoding, a cursor that `encode` returned is decoded, for
-- any query whose arguments pass the checks: in the same epoch and with the same endpoint and filters
-- to the key that it was made from; in another epoch it is refused as of another epoch, and with
-- another endpoint or filters as of another scope.
pub decode-encode :
    (p : Platform) (cursor_epoch cursor_endpoint : String) (g : Filters) (after : AfterKey)
    (raw : String)
    → ((time : String)
        → p.to_iso after.last_time_ms ≡ some time
        → p.date_parse time ≡ some after.last_time_ms)
    → ((time : String)
        → p.to_iso after.last_time_ms ≡ some time
        → Restores p (cursor_tuple cursor_epoch cursor_endpoint g time after.last_id))
    → (is_encoding raw ≡ true → p.trim raw ≡ raw)
    → encode p cursor_epoch cursor_endpoint g after ≡ ok raw
    → (epoch endpoint : String) (f : Filters) → assert_scope epoch endpoint f ≡ ok tt
    → decode p (some raw) epoch endpoint f
      ≡ ok (answer cursor_epoch cursor_endpoint g after epoch endpoint f)
unfolding decode decode_text
decode-encode p e n g after raw dates restores trims h epoch endpoint f scope =
    let found = encode_ok p e n g after raw h in
    let time = found.0 in
    let checked = assert_scope_ok e n g found.1 in
    let read = restores time found.3 in
    let written = cursor_tuple e n g time after.last_id in
    let trimmed = (eq_iff (p.trim raw) raw).1 (trims found.5) in
    let bytes = subst (λ s. p.from_base64url s ≡ some (p.stringify written)) found.6 read.0 in
    let fields =
      own_fields p raw written epoch endpoint f e n g after time checked.0 checked.1 checked.2
        checked.3 (own_time p after.last_time_ms time found.2 found.3 (dates time found.3)) found.4
        ((eq_iff (encode_tuple p written) raw).1 found.6) in
    simp (
      scope,
      found.5,
      trimmed,
      bytes,
      read.1,
      own_tuple p raw epoch endpoint f e n g time after.last_id,
      fields,
    )
