-- ===== src/Resource/Acquire.antt =====
-- What an admission takes of the pools.
use mathlib.Core.Logic.{if_pos, if_neg}
use native.Mathlib.Decide.{dec_le}
use pass_hub.Base.{
  ℕ, ◌+◌, ◌≤◌, ◌<◌, Bool, true, false, Option, none, some, List, [], ◌∷◌, if◌then◌else◌, ◌≡◌, refl,
  ◌≢◌, arith, ◌⊎◌, inl, inr, All, if-elim,
}
use pass_hub.Resource.{
  PoolName, http_ordinary, http_retry, validation_write, validation_login, validation_query,
  validation_retry, origin, limit, Store, http_leases, validation_leases, origin_leases,
  ancillary_leases, Ledger, mint, is_http, is_validation, ResourceClass, management,
  normal_recognition, login, query, existing_only, is_full, plan_of, Bundle, mint_bundle,
  try_acquire, AncillaryClass, try_acquire_ancillary, pool_of, scrypt, query_db, canonical_replay,
  original_confirm,
}
use pass_hub.Resource.Pools.{Inv, belongs, mint-Inv, used-mint}

-- The slots that each class of request holds while it is worked on.
abbrev pub needs : ResourceClass → PoolName → Bool
needs management http_ordinary = true
needs management validation_write = true
needs management origin = true
needs normal_recognition http_ordinary = true
needs normal_recognition validation_write = true
needs normal_recognition origin = true
needs login http_ordinary = true
needs login validation_login = true
needs query http_ordinary = true
needs query validation_query = true
needs existing_only http_retry = true
needs existing_only validation_retry = true
needs _ _ = false

abbrev pub added : Bool → ℕ
added b = if b then 1 else 0

try_acquire_full :
    (c : ResourceClass) (l : Ledger) (p : PoolName)
    → needs c p ≡ true
    → limit p ≤ l.used p
    → try_acquire c l ≡ (l, none)
unfolding try_acquire is_full
try_acquire_full management l p n f = ground arith
try_acquire_full normal_recognition l p n f = ground arith
try_acquire_full login l p n f = ground arith
try_acquire_full query l p n f = ground arith
try_acquire_full existing_only l p n f = ground arith

used-mint_bundle :
    (c : ResourceClass) (l : Ledger) (q : PoolName)
    → (mint_bundle (plan_of c) l).0.used q ≡ l.used q + added (needs c q)
unfolding mint_bundle mint plan_of
used-mint_bundle management l q = ground arith
used-mint_bundle normal_recognition l q = ground arith
used-mint_bundle login l q = ground arith
used-mint_bundle query l q = ground arith
used-mint_bundle existing_only l q = ground arith

abbrev pub HasRoom : ResourceClass → Ledger → Type 0
HasRoom c l = (p : PoolName) → needs c p ≡ true → l.used p < limit p

abbrev granted : ResourceClass → Ledger → Ledger × Option Bundle
granted c l = ((mint_bundle (plan_of c) l).0, some (mint_bundle (plan_of c) l).1)

try_acquire_room : (c : ResourceClass) (l : Ledger) → HasRoom c l → try_acquire c l ≡ granted c l
unfolding try_acquire is_full
try_acquire_room management l room =
    ground (arith, room http_ordinary refl, room validation_write refl, room origin refl)
try_acquire_room normal_recognition l room =
    ground (arith, room http_ordinary refl, room validation_write refl, room origin refl)
try_acquire_room login l room = ground (arith, room http_ordinary refl, room validation_login refl)
try_acquire_room query l room = ground (arith, room http_ordinary refl, room validation_query refl)
try_acquire_room existing_only l room =
    ground (arith, room http_retry refl, room validation_retry refl)

abbrev pub IsFull : ResourceClass → Ledger → Type 0
IsFull c l = (p : PoolName) × (needs c p ≡ true) × (limit p ≤ l.used p)

find-IsFull :
    (c : ResourceClass) (l : Ledger) (ps : List PoolName)
    → All (λ p. needs c p ≡ true) ps
    → IsFull c l ⊎ All (λ p. l.used p < limit p) ps
find-IsFull c l [] n = inr tt
find-IsFull c l (p ∷ ps) n = elim (dec_le (limit p) (l.used p)) [
  | yes full ↦ inl (p, n.0, full)
  | no room ↦ elim (find-IsFull c l ps n.1) [
    | inl full ↦ inl full
    | inr rest ↦ inr (omega arith, rest)
  ]
]

room_of {ℓ} : {A B R : Type ℓ} → A ⊎ B → (B → R) → A ⊎ R
room_of (inl a) f = inl a
room_of (inr b) f = inr (f b)

-- Either some pool that the class needs is full, or all of them have room.
decide_room : (c : ResourceClass) (l : Ledger) → IsFull c l ⊎ HasRoom c l
decide_room management l =
    room_of
      (find-IsFull management l (http_ordinary ∷ validation_write ∷ origin ∷ []) (ground arith))
      (λ a p n. ground (arith, a))
decide_room normal_recognition l =
    room_of
      (find-IsFull normal_recognition l (http_ordinary ∷ validation_write ∷ origin ∷ [])
        (ground arith))
      (λ a p n. ground (arith, a))
decide_room login l =
    room_of (find-IsFull login l (http_ordinary ∷ validation_login ∷ []) (ground arith))
      (λ a p n. ground (arith, a))
decide_room query l =
    room_of (find-IsFull query l (http_ordinary ∷ validation_query ∷ []) (ground arith))
      (λ a p n. ground (arith, a))
decide_room existing_only l =
    room_of (find-IsFull existing_only l (http_retry ∷ validation_retry ∷ []) (ground arith))
      (λ a p n. ground (arith, a))

abbrev pub Grants : ResourceClass → Ledger → Ledger × Option Bundle → Type 0
Grants c l r =
    (b : Bundle) × (r.1 ≡ some b) × ((p : PoolName) → r.0.used p ≡ l.used p + added (needs c p))

-- Either some pool that the class needs is full, and the admission is refused with nothing
-- changed; or all of them have room, a bundle is given out, each of these pools counts one more,
-- and no other pool changes.
pub try_acquire_all_or_none :
    (c : ResourceClass) (l : Ledger)
    → (IsFull c l × (try_acquire c l ≡ (l, none))) ⊎ (HasRoom c l × Grants c l (try_acquire c l))
try_acquire_all_or_none c l = elim (decide_room c l) [
  | inl (p, n, full) ↦ inl ((p, n, full), try_acquire_full c l p n full)
  | inr room ↦ inr (
    room,
    rw (try_acquire_room c l room) ((mint_bundle (plan_of c) l).1, refl, used-mint_bundle c l),
  )
]

mint-room :
    (p q : PoolName) (store : Store) (l : Ledger)
    → p ≢ q
    → l.used q < limit q
    → (mint p store l).used q < limit q
mint-room p q store l other room = rw (used-mint p store l q, if_neg _ other) room

two-Inv :
    (h v : PoolName) (l : Ledger)
    → h ≢ v
    → is_http h ≡ true
    → is_validation v ≡ true
    → l.used h < limit h
    → l.used v < limit v
    → Inv l
    → Inv (mint v validation_leases (mint h http_leases l))
two-Inv h v l other at_http at_validation room_h room_v inv =
    mint-Inv v validation_leases _ (mint-room h v http_leases l other room_v) at_validation
      (mint-Inv h http_leases l room_h at_http inv)

three-Inv :
    (l : Ledger)
    → l.used http_ordinary < limit http_ordinary
    → l.used validation_write < limit validation_write
    → l.used origin < limit origin
    → Inv l
    → Inv (
        mint origin origin_leases
          (mint validation_write validation_leases (mint http_ordinary http_leases l)))
three-Inv l room_h room_v room_o inv =
    mint-Inv origin origin_leases _
      (mint-room validation_write origin validation_leases _ (λ e. cc)
        (mint-room http_ordinary origin http_leases l (λ e. cc) room_o))
      (if_pos _ refl true false)
      (two-Inv http_ordinary validation_write l (λ e. cc) refl refl room_h room_v inv)

mint_bundle-Inv :
    (c : ResourceClass) (l : Ledger) → HasRoom c l → Inv l → Inv (mint_bundle (plan_of c) l).0
unfolding mint_bundle plan_of
mint_bundle-Inv management l room v =
    three-Inv l (room http_ordinary refl) (room validation_write refl) (room origin refl) v
mint_bundle-Inv normal_recognition l room v =
    three-Inv l (room http_ordinary refl) (room validation_write refl) (room origin refl) v
mint_bundle-Inv login l room v =
    two-Inv http_ordinary validation_login l (λ e. cc) refl refl (room http_ordinary refl)
      (room validation_login refl) v
mint_bundle-Inv query l room v =
    two-Inv http_ordinary validation_query l (λ e. cc) refl refl (room http_ordinary refl)
      (room validation_query refl) v
mint_bundle-Inv existing_only l room v =
    two-Inv http_retry validation_retry l (λ e. cc) refl refl (room http_retry refl)
      (room validation_retry refl) v

pub try_acquire-Inv : (c : ResourceClass) (l : Ledger) → Inv l → Inv (try_acquire c l).0
try_acquire-Inv c l v = elim (decide_room c l) [
  | inl (p, n, full) ↦ rw (try_acquire_full c l p n full) v
  | inr room ↦ rw (try_acquire_room c l room) (mint_bundle-Inv c l room v)
]

ancillary_belongs : (a : AncillaryClass) → belongs ancillary_leases (pool_of a) ≡ true
unfolding pool_of
ancillary_belongs scrypt = refl
ancillary_belongs query_db = refl
ancillary_belongs canonical_replay = refl
ancillary_belongs original_confirm = refl

pub try_acquire_ancillary-Inv :
    (a : AncillaryClass) (l : Ledger) → Inv l → Inv (try_acquire_ancillary a l).0
unfolding try_acquire_ancillary is_full
try_acquire_ancillary-Inv a l v =
    if-elim (λ (r : Ledger × Option ℕ). Inv r.0) (is_full l (pool_of a)) _ _ (λ full. v)
      λ room. mint-Inv (pool_of a) ancillary_leases l (ground arith) (ancillary_belongs a) v
