-- ===== src/Resource/Release.antt =====
-- What a release does to the counts, and the same release a second time.
use mathlib.Core.Logic.{if_pos, if_neg}
use pass_hub.Base.{
  ℕ, if-elim, not, [], ◌∷◌, ◌+◌, ◌≤◌, Bool, true, false, Option, none, some, ◌≡◌, refl, Entries,
  lookup, lookup-insert_self, lookup-All, ℕ_discrete, All, arith, inl, inr, ◌⊎◌,
}
use pass_hub.Resource.{
  PoolName, Store, Store-discrete, LeaseState, Ledger, ErrorCode, Released, done, throws,
  lease_already_released, invalid_lease, free, release, release_found,
}
use pass_hub.Resource.Pools.{
  Inv, IsPlaced, weight, active_in, active_in-insert_old, insert-IsPlaced,
}

-- The lease is active, in the store and of a pool that the method expects.
pub record IsHeld (lease : ℕ) (expected : PoolName → Bool) (store : Store) (s : LeaseState)
    (l : Ledger) : Type 0 where
  pub found : lookup ℕ_discrete lease l.leases ≡ some s
  pub stands : s.store ≡ store
  pub fits : expected s.pool ≡ true
  pub live : s.active ≡ true

-- A release frees a held lease, or throws and changes nothing.
pub data Releases (lease : ℕ) (expected : PoolName → Bool) (store : Store) (l : Ledger)
    (r : Ledger × Released) : Type 0 where
  frees :
      (s : LeaseState)
      → IsHeld lease expected store s l
      → r ≡ (free lease s l, done)
      → Releases lease expected store l r
  refuses : (e : ErrorCode) → r ≡ (l, throws e) → Releases lease expected store l r

release_cases :
    (lease : ℕ) (expected : PoolName → Bool) (store : Store) (l : Ledger)
    (found : Option LeaseState)
    → lookup ℕ_discrete lease l.leases ≡ found
    → Releases lease expected store l (release_found lease expected store found l)
unfolding release_found
release_cases lease expected store l none e = refuses invalid_lease refl
release_cases lease expected store l (some s) e = elim (Store-discrete s.store store) [
  | no other ↦ rw (if_neg _ other) (refuses invalid_lease refl)
  | yes same ↦ rw (if_pos _ same) (
      if-elim P (not (expected s.pool)) _ _ (λ _. refuses invalid_lease refl)
        λ fits.
          if-elim P (not s.active) _ _ (λ _. refuses lease_already_released refl)
            λ live.
              frees s
                (record { found = e; stands = same; fits = ground arith; live = ground arith })
                refl)
]
  where
    P : Ledger × Released → Type 0
    P = Releases lease expected store l

pub release-Releases :
    (lease : ℕ) (expected : PoolName → Bool) (store : Store) (l : Ledger)
    → Releases lease expected store l (release lease expected store l)
unfolding release
release-Releases lease expected store l =
    release_cases lease expected store l (lookup ℕ_discrete lease l.leases) refl

-- An active lease counts in its pool.
held_counts :
    (p : PoolName) (k : ℕ) (s : LeaseState) (m : Entries ℕ LeaseState)
    → lookup ℕ_discrete k m ≡ some s
    → weight p s ≤ active_in p m
unfolding lookup
held_counts p k s [] e = cc
held_counts p k s ((i, t) ∷ m) e = ground (arith, held_counts p k s m)

-- The slot that a freed lease gives back is one that its pool counted.
pub used-free :
    (lease : ℕ) (expected : PoolName → Bool) (store : Store) (s : LeaseState) (l : Ledger)
    (q : PoolName)
    → Inv l
    → IsHeld lease expected store s l
    → (free lease s l).used q + weight q s ≡ l.used q
unfolding free
used-free lease expected store s l q v h =
    ground (arith, v.balanced s.pool, held_counts s.pool lease s l.leases h.found, h.live)

-- The counts after a lease is freed are those of the active leases that are left.
active-free :
    (lease : ℕ) (s : LeaseState) (l : Ledger) (q : PoolName)
    → lookup ℕ_discrete lease l.leases ≡ some s
    → active_in q (free lease s l).leases + weight q s ≡ active_in q l.leases
unfolding free
active-free lease s l q e =
    ground (arith, active_in-insert_old q lease (record s { active = false }) s l.leases e)

free-IsPlaced :
    (lease : ℕ) (s : LeaseState) (l : Ledger)
    → All (IsPlaced l.minted) l.leases
    → lookup ℕ_discrete lease l.leases ≡ some s
    → All (IsPlaced l.minted) (free lease s l).leases
unfolding free
free-IsPlaced lease s l a e =
    let (old, own) = lookup-All ℕ_discrete (IsPlaced l.minted) lease s l.leases a e in
    insert-IsPlaced l.minted lease (record s { active = false }) l.leases old own a

free-Inv :
    (lease : ℕ) (expected : PoolName → Bool) (store : Store) (s : LeaseState) (l : Ledger)
    → Inv l
    → IsHeld lease expected store s l
    → Inv (free lease s l)
unfolding free
free-Inv lease expected store s l v h = record {
  balanced = λ q. omega (
    arith,
    v.balanced q,
    used-free lease expected store s l q v h,
    active-free lease s l q h.found,
  );
  within = λ q. omega (arith, v.within q, used-free lease expected store s l q v h);
  placed = free-IsPlaced lease s l v.placed h.found;
}

pub release-Inv :
    (lease : ℕ) (expected : PoolName → Bool) (store : Store) (l : Ledger)
    → Inv l
    → Inv (release lease expected store l).0
release-Inv lease expected store l v = elim (release-Releases lease expected store l) [
  | frees s h e ↦ rw e (free-Inv lease expected store s l v h)
  | refuses e same ↦ rw same v
]

held_frees :
    (lease : ℕ) (expected : PoolName → Bool) (store : Store) (s : LeaseState) (l : Ledger)
    → IsHeld lease expected store s l
    → release lease expected store l ≡ (free lease s l, done)
unfolding release release_found
held_frees lease expected store s l h = ground (arith, h)

freed_again :
    (lease : ℕ) (expected : PoolName → Bool) (store : Store) (s : LeaseState) (l : Ledger)
    → IsHeld lease expected store s l
    → release lease expected store (free lease s l)
      ≡ (free lease s l, throws lease_already_released)
unfolding release release_found free
freed_again lease expected store s l h =
    ground (arith, h, lookup-insert_self ℕ_discrete lease (record s { active = false }) l.leases)

-- A release succeeds exactly for a lease that is held in the store and of a pool of the method;
-- it then takes one from the count of the pool of the lease and from no other. Any other release
-- throws and changes nothing.
pub release_lem :
    (lease : ℕ) (expected : PoolName → Bool) (store : Store) (l : Ledger)
    → Inv l
    → ((s : LeaseState) × IsHeld lease expected store s l
        × ((release lease expected store l).1 ≡ done)
        × ((q : PoolName) → (release lease expected store l).0.used q + weight q s ≡ l.used q))
      ⊎ (((s : LeaseState) → ¬ IsHeld lease expected store s l)
          × ((e : ErrorCode) × (release lease expected store l ≡ (l, throws e))))
release_lem lease expected store l v = elim (release-Releases lease expected store l) [
  | frees s h e ↦ inl (s, h, rw e refl, λ q. rw e (used-free lease expected store s l q v h))
  | refuses e same ↦
      inr ((λ s h. ground (arith, same, held_frees lease expected store s l h)), (e, same))
]

-- A lease that was released cannot be released again, by the same method: the second time throws
-- and changes nothing.
pub release_twice :
    (lease : ℕ) (expected : PoolName → Bool) (store : Store) (l : Ledger)
    → (release lease expected store l).1 ≡ done
    → release lease expected store (release lease expected store l).0
      ≡ ((release lease expected store l).0, throws lease_already_released)
release_twice lease expected store l h = elim (release-Releases lease expected store l) [
  | frees s held e ↦ rw e (freed_again lease expected store s l held)
  | refuses e same ↦ ground (arith, same)
]
