-- ===== src/Cursor/Canonical.antt =====
-- A cursor that is valid for a query, and the one that `encode` returns for it.
use mathlib.Core.Path.{subst}
use text.Mathlib.Text.{◌==◌}
use text.Mathlib.TextEquality.{eq_iff}
use pass_hub.Base.{
  Bool, true, false, ◌&&◌, Option, none, some, List, [], ◌∷◌, String, ℤ, is_safe_integer, Result,
  ok, err, guard, ◌≡◌, refl, sym, ap, ◌∙◌,
}
use pass_hub.Cursor.{
  Json, null, string, scalar, nested, Platform, Filters, AfterKey, Refusal, Decoded, valid,
  ErrorCode, is_uuid, is_encoding, assert_scope,
}
use pass_hub.Cursor.Codec.{
  of_nullable, cursor_tuple, encode_tuple, or_throw, encode_after, encode, as_text, as_nullable,
  parse_canonical_iso, same_nullable, same_scope, decode_fields, decode_values, decode_tuple,
  array_of, decode_text, as_decoded, decode,
}
use pass_hub.Cursor.Laws.{guard_true, then_ok, bind_ok, or_throw_ok}

ok_injective : {E A : Type 0} (a b : A) → ◌≡◌ {A = Result E A} (ok a) (ok b) → a ≡ b
ok_injective a b h = cc

valid_ok :
    (x : Result Refusal AfterKey) (after : AfterKey)
    → ◌≡◌ {A = Result ErrorCode Decoded} (ok (as_decoded x)) (ok (valid after))
    → x ≡ ok after
valid_ok (ok a) after h = cc
valid_ok (err r) after h = cc

same_nullable_lem : (a b : Option String) → same_nullable a b ≡ true → a ≡ b
same_nullable_lem none none h = refl
same_nullable_lem none (some t) h = cc
same_nullable_lem (some s) none h = cc
same_nullable_lem (some s) (some t) h = ap some ((eq_iff s t).0 h)

same_scope_lem :
    (n : String) (g : Filters) (endpoint : String) (f : Filters)
    → same_scope n g endpoint f ≡ true
    → (n ≡ endpoint) × (g ≡ f)
same_scope_lem n g endpoint f h =
    let parts = ands (n == endpoint) _ _ _ h in
    let q = same_nullable_lem g.qualification_id f.qualification_id parts.1 in
    let o = same_nullable_lem g.outcome f.outcome parts.2 in
    let r = same_nullable_lem g.reason_code f.reason_code parts.3 in
    (
      (eq_iff n endpoint).0 parts.0,
      λ i. record { qualification_id = q i; outcome = o i; reason_code = r i },
    )
  where
    ands :
        (a b c d : Bool)
        → (a && b && c && d) ≡ true
        → (a ≡ true) × (b ≡ true) × (c ≡ true) × (d ≡ true)
    ands true true true d e = (refl, refl, refl, e)
    ands true true false d e = cc
    ands true false c d e = cc
    ands false b c d e = cc

canonical_time :
    (p : Platform) (time : String) (ms : ℤ)
    → parse_canonical_iso p time ≡ ok ms
    → (is_safe_integer ms ≡ true) × (p.to_iso ms ≡ some time)
unfolding parse_canonical_iso
canonical_time p time ms h =
    let a = bind_ok (or_throw _ (p.date_parse time)) _ ms h in
    let b = then_ok (guard (is_safe_integer a.0) _) _ ms a.2 in
    let c = bind_ok (or_throw _ (p.to_iso a.0)) _ ms b.1 in
    let d = then_ok (guard (c.0 == time) _) _ ms c.2 in
    let same = ok_injective a.0 ms d.1 in
    (
      ap is_safe_integer (sym same) ∙ guard_true _ _ b.0,
      ap p.to_iso (sym same)
          ∙ or_throw_ok _ (p.to_iso a.0) c.0 c.1
          ∙ ap some ((eq_iff c.0 time).0 (guard_true _ _ d.0)),
    )

fields_ok :
    (p : Platform) (raw : String) (tuple : List Json) (epoch endpoint : String) (f : Filters)
    (e n : String) (g : Filters) (time id : String) (after : AfterKey)
    → decode_fields p raw tuple epoch endpoint f e n g time id ≡ ok after
    → (e ≡ epoch)
      × (n ≡ endpoint)
      × (g ≡ f)
      × (id ≡ after.last_id)
      × (is_safe_integer after.last_time_ms ≡ true)
      × (p.to_iso after.last_time_ms ≡ some time)
      × (is_uuid id ≡ true)
      × (encode_tuple p tuple ≡ raw)
unfolding decode_fields
fields_ok p raw tuple epoch endpoint f e n g time id after h =
    let a = then_ok _ _ after h in
    let b = bind_ok (parse_canonical_iso p time) _ after a.1 in
    let x = then_ok _ _ after b.2 in
    let y = then_ok _ (guard (same_scope n g endpoint f) _) tt x.0 in
    let z = then_ok _ (guard (e == epoch) _) tt y.0 in
    let w = then_ok (guard (is_uuid id) _) (guard (encode_tuple p tuple == raw) _) tt z.0 in
    let scope = same_scope_lem n g endpoint f (guard_true _ _ y.1) in
    let after_eq = ok_injective _ after x.1 in
    let times = canonical_time p time b.0 b.1 in
    let ms_eq = ap (λ (k : AfterKey). k.last_time_ms) after_eq in
    (
      (eq_iff e epoch).0 (guard_true _ _ z.1),
      scope.0,
      scope.1,
      ap (λ (k : AfterKey). k.last_id) after_eq,
      subst (λ m. is_safe_integer m ≡ true) ms_eq times.0,
      subst (λ m. p.to_iso m ≡ some time) ms_eq times.1,
      guard_true _ _ w.0,
      (eq_iff (encode_tuple p tuple) raw).0 (guard_true _ _ w.1),
    )

text_lem : (j : Json) (s : String) → as_text j ≡ some s → j ≡ string s
text_lem null s h = cc
text_lem scalar s h = cc
text_lem nested s h = cc
text_lem (string t) s h = cc

nullable_lem : (j : Json) (o : Option String) → as_nullable j ≡ some o → j ≡ of_nullable o
nullable_lem null none h = refl
nullable_lem null (some s) h = cc
nullable_lem scalar o h = cc
nullable_lem nested o h = cc
nullable_lem (string t) none h = cc
nullable_lem (string t) (some s) h = cc

-- What a decoding that succeeds has found in the array.
values_ok :
    (p : Platform) (raw : String) (tuple : List Json) (epoch endpoint : String) (f : Filters)
    (v e n q o r time id : Json) (after : AfterKey)
    → decode_values p raw tuple epoch endpoint f v e n q o r time id ≡ ok after
    → (written : String) × ((v ∷ e ∷ n ∷ q ∷ o ∷ r ∷ time ∷ id ∷ [])
        ≡ cursor_tuple epoch endpoint f written after.last_id)
      × (is_safe_integer after.last_time_ms ≡ true)
      × (p.to_iso after.last_time_ms ≡ some written)
      × (is_uuid after.last_id ≡ true)
      × (encode_tuple p tuple ≡ raw)
unfolding decode_values
values_ok p raw tuple epoch endpoint f v e n q o r time id after h =
    let a = bind_ok (or_throw _ (as_text v)) _ after h in
    let b = bind_ok (or_throw _ (as_text e)) _ after a.2 in
    let c = bind_ok (or_throw _ (as_text n)) _ after b.2 in
    let d = bind_ok (or_throw _ (as_nullable q)) _ after c.2 in
    let x = bind_ok (or_throw _ (as_nullable o)) _ after d.2 in
    let y = bind_ok (or_throw _ (as_nullable r)) _ after x.2 in
    let z = bind_ok (or_throw _ (as_text time)) _ after y.2 in
    let w = bind_ok (or_throw _ (as_text id)) _ after z.2 in
    let u = then_ok (guard (a.0 == "p1") _) _ after w.2 in
    let g : Filters = record { qualification_id = d.0; outcome = x.0; reason_code = y.0 } in
    let found = fields_ok p raw tuple epoch endpoint f b.0 c.0 g z.0 w.0 after u.1 in
    let v_eq =
      text_lem v a.0 (or_throw_ok _ _ a.0 a.1)
      ∙ ap string ((eq_iff a.0 "p1").0 (guard_true _ _ u.0)) in
    let e_eq = text_lem e b.0 (or_throw_ok _ _ b.0 b.1) ∙ ap string found.0 in
    let n_eq = text_lem n c.0 (or_throw_ok _ _ c.0 c.1) ∙ ap string found.1 in
    let q_eq =
      nullable_lem q d.0 (or_throw_ok _ _ d.0 d.1)
      ∙ ap (λ (k : Filters). of_nullable k.qualification_id) found.2 in
    let o_eq =
      nullable_lem o x.0 (or_throw_ok _ _ x.0 x.1)
      ∙ ap (λ (k : Filters). of_nullable k.outcome) found.2 in
    let r_eq =
      nullable_lem r y.0 (or_throw_ok _ _ y.0 y.1)
      ∙ ap (λ (k : Filters). of_nullable k.reason_code) found.2 in
    let time_eq = text_lem time z.0 (or_throw_ok _ _ z.0 z.1) in
    let id_eq = text_lem id w.0 (or_throw_ok _ _ w.0 w.1) ∙ ap string found.3 in
    (
      z.0,
      λ i. v_eq i ∷ e_eq i ∷ n_eq i ∷ q_eq i ∷ o_eq i ∷ r_eq i ∷ time_eq i ∷ id_eq i ∷ [],
      found.4,
      found.5,
      subst (λ s. is_uuid s ≡ true) found.3 found.6,
      found.7,
    )

tuple_ok :
    (p : Platform) (raw epoch endpoint : String) (f : Filters) (t : List Json) (after : AfterKey)
    → decode_tuple p raw epoch endpoint f t ≡ ok after
    → (written : String) × (t ≡ cursor_tuple epoch endpoint f written after.last_id)
      × (is_safe_integer after.last_time_ms ≡ true)
      × (p.to_iso after.last_time_ms ≡ some written)
      × (is_uuid after.last_id ≡ true)
      × (encode_tuple p t ≡ raw)
unfolding decode_tuple
tuple_ok p raw epoch endpoint f [] after h = cc
tuple_ok p raw epoch endpoint f (a ∷ []) after h = cc
tuple_ok p raw epoch endpoint f (a ∷ b ∷ []) after h = cc
tuple_ok p raw epoch endpoint f (a ∷ b ∷ c ∷ []) after h = cc
tuple_ok p raw epoch endpoint f (a ∷ b ∷ c ∷ d ∷ []) after h = cc
tuple_ok p raw epoch endpoint f (a ∷ b ∷ c ∷ d ∷ e ∷ []) after h = cc
tuple_ok p raw epoch endpoint f (a ∷ b ∷ c ∷ d ∷ e ∷ g ∷ []) after h = cc
tuple_ok p raw epoch endpoint f (a ∷ b ∷ c ∷ d ∷ e ∷ g ∷ i ∷ []) after h = cc
tuple_ok p raw epoch endpoint f (v ∷ e ∷ n ∷ q ∷ o ∷ r ∷ time ∷ id ∷ []) after h =
    values_ok p raw _ epoch endpoint f v e n q o r time id after h
tuple_ok p raw epoch endpoint f (a ∷ b ∷ c ∷ d ∷ e ∷ g ∷ i ∷ j ∷ k ∷ t) after h = cc

own_encode :
    (p : Platform) (epoch endpoint : String) (f : Filters) (after : AfterKey) (time raw : String)
    → assert_scope epoch endpoint f ≡ ok tt
    → is_safe_integer after.last_time_ms ≡ true
    → p.to_iso after.last_time_ms ≡ some time
    → is_uuid after.last_id ≡ true
    → encode_tuple p (cursor_tuple epoch endpoint f time after.last_id) ≡ raw
    → is_encoding raw ≡ true
    → encode p epoch endpoint f after ≡ ok raw
unfolding encode encode_after
own_encode p epoch endpoint f after time raw a s t i e r = simp (a, s, t, i, e, r)

-- A cursor is canonical: one that is valid for a query is the one that `encode` returns for the same
-- query and the key that was decoded, whatever JavaScript makes of JSON, base64url and dates.
pub decode_canonical :
    (p : Platform) (raw epoch endpoint : String) (f : Filters) (after : AfterKey)
    → decode p (some raw) epoch endpoint f ≡ ok (valid after)
    → encode p epoch endpoint f after ≡ ok raw
unfolding decode decode_text
decode_canonical p raw epoch endpoint f after h =
    let a = then_ok (assert_scope epoch endpoint f) _ (valid after) h in
    let b =
      then_ok (guard (is_encoding raw && p.trim raw == raw) _) _ after (valid_ok _ after a.1) in
    let c = bind_ok (or_throw _ (p.from_base64url raw)) _ after b.1 in
    let d = bind_ok (or_throw _ (p.parse c.0)) _ after c.2 in
    let x = bind_ok (or_throw _ (array_of d.0)) _ after d.2 in
    let found = tuple_ok p raw epoch endpoint f x.0 after x.2 in
    let same = sym (ap (encode_tuple p) found.1) ∙ found.5 in
    own_encode p epoch endpoint f after found.0 raw a.0 found.2 found.3 found.4 same
      (and_first (is_encoding raw) _ (guard_true _ _ b.0))
  where
    and_first : (s t : Bool) → (s && t) ≡ true → s ≡ true
    and_first true t e = refl
    and_first false t e = cc
