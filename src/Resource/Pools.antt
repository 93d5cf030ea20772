-- ===== src/Resource/Pools.antt =====
-- The slots of a pool that are in use, and its active leases.
use mathlib.Core.Logic.{ite}
use pass_hub.Base.{
  ℕ, ◌+◌, ◌≤◌, ◌<◌, Bool, true, false, none, some, [], ◌∷◌, if◌then◌else◌, ◌≡◌, refl, Entries,
  lookup, insert, ℕ_discrete, All, arith,
}
use pass_hub.Resource.{
  PoolName, PoolName-discrete, origin, limit, Store, http_leases, validation_leases, origin_leases,
  ancillary_leases, LeaseState, Ledger, create, mint, is_http, is_validation, is_pool,
}

abbrev pub weight : PoolName → LeaseState → ℕ
weight p s = ite (PoolName-discrete s.pool p) (if s.active then 1 else 0) 0

abbrev pub active_in : PoolName → Entries ℕ LeaseState → ℕ
active_in p [] = 0
active_in p ((i, s) ∷ m) = weight p s + active_in p m

-- The pools whose leases stand in each map.
abbrev pub belongs : Store → PoolName → Bool
belongs http_leases p = is_http p
belongs validation_leases p = is_validation p
belongs origin_leases p = is_pool origin p
belongs ancillary_leases PoolName.scrypt = true
belongs ancillary_leases PoolName.query_db = true
belongs ancillary_leases PoolName.canonical_replay = true
belongs ancillary_leases PoolName.original_confirm = true
belongs ancillary_leases _ = false

abbrev pub IsPlaced : ℕ → ℕ × LeaseState → Type 0
IsPlaced n (i, s) = (i < n) × (belongs s.store s.pool ≡ true)

-- The count of each pool is that of its active leases and within its limit; each lease was given
-- out before, and stands in the map of its pool.
pub record Inv (l : Ledger) : Type 0 where
  pub balanced : (p : PoolName) → l.used p ≡ active_in p l.leases
  pub within : (p : PoolName) → l.used p ≤ limit p
  pub placed : All (IsPlaced l.minted) l.leases

pub active_in-insert_new :
    (p : PoolName) (k : ℕ) (s : LeaseState) (m : Entries ℕ LeaseState)
    → lookup ℕ_discrete k m ≡ none
    → active_in p (insert ℕ_discrete k s m) ≡ active_in p m + weight p s
unfolding lookup insert
active_in-insert_new p k s [] h = omega arith
active_in-insert_new p k s ((i, t) ∷ m) h = ground (arith, active_in-insert_new p k s m)

pub active_in-insert_old :
    (p : PoolName) (k : ℕ) (s t : LeaseState) (m : Entries ℕ LeaseState)
    → lookup ℕ_discrete k m ≡ some t
    → active_in p (insert ℕ_discrete k s m) + weight p t ≡ active_in p m + weight p s
unfolding lookup insert
active_in-insert_old p k s t [] h = cc
active_in-insert_old p k s t ((i, u) ∷ m) h = ground (arith, active_in-insert_old p k s t m)

pub lookup_unminted :
    (n : ℕ) (m : Entries ℕ LeaseState) → All (IsPlaced n) m → lookup ℕ_discrete n m ≡ none
unfolding lookup
lookup_unminted n m a = below n n m (omega arith) a
  where
    below :
        (n k : ℕ) (m : Entries ℕ LeaseState)
        → n ≤ k
        → All (IsPlaced n) m
        → lookup ℕ_discrete k m ≡ none
    below n k [] h a = refl
    below n k ((i, s) ∷ m) h a = ground (arith, below n k m h a.1)

IsPlaced-mono : (n : ℕ) (m : Entries ℕ LeaseState) → All (IsPlaced n) m → All (IsPlaced (n + 1)) m
IsPlaced-mono n [] a = tt
IsPlaced-mono n ((i, s) ∷ m) a = ground (arith, IsPlaced-mono n m a.1)

pub insert-IsPlaced :
    (n k : ℕ) (s : LeaseState) (m : Entries ℕ LeaseState)
    → k < n
    → belongs s.store s.pool ≡ true
    → All (IsPlaced n) m
    → All (IsPlaced n) (insert ℕ_discrete k s m)
unfolding insert
insert-IsPlaced n k s [] h b a = ((h, b), tt)
insert-IsPlaced n k s ((i, t) ∷ m) h b a = ground (arith, insert-IsPlaced n k s m h b a.1)

pub create-Inv : Inv create
unfolding create
create-Inv = record { balanced = λ p. refl; within = λ p. omega arith; placed = tt }

-- A lease that is given out adds one to its pool and to no other.
pub used-mint :
    (p : PoolName) (store : Store) (l : Ledger) (q : PoolName)
    → (mint p store l).used q ≡ ite (PoolName-discrete p q) (l.used p + 1) (l.used q)
unfolding mint
used-mint p store l q = refl

pub mint-Inv :
    (p : PoolName) (store : Store) (l : Ledger)
    → l.used p < limit p
    → belongs store p ≡ true
    → Inv l
    → Inv (mint p store l)
unfolding mint
mint-Inv p store l room own v = record {
  balanced = λ q. ground (
    arith,
    v.balanced q,
    v.balanced p,
    active_in-insert_new q l.minted (record { store = store; pool = p; active = true }) l.leases
        (lookup_unminted l.minted l.leases v.placed),
  );
  within = λ q. ground (arith, v.within q);
  placed =
      insert-IsPlaced (l.minted + 1) l.minted _ l.leases (omega arith) own
        (IsPlaced-mono l.minted l.leases v.placed);
}
