-- ===== src/Resource/Histories.antt =====
-- The ledger over any calls of its methods, also with leases that it did not give out.
use pass_hub.Base.{ℕ, ◌≤◌, Bool, true, some, ◌≡◌, ◌≢◌, List, [], ◌∷◌, All, arith, ◌⊎◌, inl, inr}
use pass_hub.Resource.{
  PoolName, http_retry, validation_retry, limit, Ledger, create, ResourceClass, existing_only,
  scrypt, query_db, canonical_replay, original_confirm, Bundle, ancillary_leases, pool_of,
  AncillaryClass, try_acquire, try_acquire_ancillary, release, release_http, release_validation,
  release_origin, release_ancillary, Store,
}
use pass_hub.Resource.Pools.{Inv, create-Inv, used-mint}
use pass_hub.Resource.Acquire.{
  IsFull, needs, added, try_acquire-Inv, try_acquire_ancillary-Inv, try_acquire_all_or_none,
}
use pass_hub.Resource.Release.{release-Inv, release_lem}

pub data Call : Type 0 where
  acquires : ResourceClass → Call
  acquires_ancillary : AncillaryClass → Call
  releases_http releases_validation releases_origin : ℕ → Call
  releases_ancillary : AncillaryClass → ℕ → Call

unfoldable pub step : Ledger → Call → Ledger
step l (acquires c) = (try_acquire c l).0
step l (acquires_ancillary a) = (try_acquire_ancillary a l).0
step l (releases_http lease) = (release_http lease l).0
step l (releases_validation lease) = (release_validation lease l).0
step l (releases_origin lease) = (release_origin lease l).0
step l (releases_ancillary a lease) = (release_ancillary a lease l).0

unfoldable pub run : Ledger → List Call → Ledger
run l [] = l
run l (c ∷ cs) = run (step l c) cs

step-Inv : (l : Ledger) (c : Call) → Inv l → Inv (step l c)
unfolding step release_http release_validation release_origin release_ancillary
step-Inv l (acquires c) v = try_acquire-Inv c l v
step-Inv l (acquires_ancillary a) v = try_acquire_ancillary-Inv a l v
step-Inv l (releases_http lease) v = release-Inv lease _ _ l v
step-Inv l (releases_validation lease) v = release-Inv lease _ _ l v
step-Inv l (releases_origin lease) v = release-Inv lease _ _ l v
step-Inv l (releases_ancillary a lease) v = release-Inv lease _ _ l v

pub run-Inv : (l : Ledger) (cs : List Call) → Inv l → Inv (run l cs)
unfolding run
run-Inv l [] v = v
run-Inv l (c ∷ cs) v = run-Inv (step l c) cs (step-Inv l c v)

-- After any calls on a new ledger, releases of unknown, foreign and used leases included, the
-- count of each pool is the number of its active leases and within its limit, and each lease
-- stands in the map of its pool.
pub calls-Inv : (cs : List Call) → Inv (run create cs)
calls-Inv cs = run-Inv create cs create-Inv

-- No call but an admission of class `EXISTING_ONLY` takes retry capacity.
abbrev pub IsOrdinary : Call → Type 0
IsOrdinary (acquires c) = c ≢ existing_only
IsOrdinary _ = Unit

release_le :
    (lease : ℕ) (expected : PoolName → Bool) (store : Store) (l : Ledger) (q : PoolName)
    → Inv l
    → (release lease expected store l).0.used q ≤ l.used q
release_le lease expected store l q v = elim (release_lem lease expected store l v) [
  | inl (s, h, ok, used) ↦ omega (arith, used q)
  | inr (unheld, (e, same)) ↦ rw same (omega arith)
]

abbrev IsRetry : PoolName → Type 0
IsRetry q = (q ≡ http_retry) ⊎ (q ≡ validation_retry)

acquire_le :
    (c : ResourceClass) (l : Ledger) (q : PoolName)
    → c ≢ existing_only
    → IsRetry q
    → (try_acquire c l).0.used q ≤ l.used q
acquire_le c l q other retry = elim (try_acquire_all_or_none c l) [
  | inl (full, same) ↦ rw same (omega arith)
  | inr (room, (b, given, used)) ↦ omega (arith, used q, unneeded c q other retry)
]
  where
    unneeded :
        (c : ResourceClass) (q : PoolName) → c ≢ existing_only → IsRetry q → added (needs c q) ≡ 0
    unneeded c q other retry = ground arith

ancillary_le :
    (a : AncillaryClass) (l : Ledger) (q : PoolName)
    → IsRetry q
    → (try_acquire_ancillary a l).0.used q ≤ l.used q
unfolding try_acquire_ancillary pool_of
ancillary_le scrypt l q retry = ground (arith, used-mint PoolName.scrypt ancillary_leases l q)
ancillary_le query_db l q retry = ground (arith, used-mint PoolName.query_db ancillary_leases l q)
ancillary_le canonical_replay l q retry =
    ground (arith, used-mint PoolName.canonical_replay ancillary_leases l q)
ancillary_le original_confirm l q retry =
    ground (arith, used-mint PoolName.original_confirm ancillary_leases l q)

step_le :
    (l : Ledger) (c : Call) (q : PoolName)
    → Inv l
    → IsOrdinary c
    → IsRetry q
    → (step l c).used q ≤ l.used q
unfolding step release_http release_validation release_origin release_ancillary
step_le l (acquires c) q v o r = acquire_le c l q o r
step_le l (acquires_ancillary a) q v o r = ancillary_le a l q r
step_le l (releases_http lease) q v o r = release_le lease _ _ l q v
step_le l (releases_validation lease) q v o r = release_le lease _ _ l q v
step_le l (releases_origin lease) q v o r = release_le lease _ _ l q v
step_le l (releases_ancillary a lease) q v o r = release_le lease _ _ l q v

run_le :
    (l : Ledger) (cs : List Call) (q : PoolName)
    → Inv l
    → All IsOrdinary cs
    → IsRetry q
    → (run l cs).used q ≤ l.used q
unfolding run
run_le l [] q v o r = omega arith
run_le l (c ∷ cs) q v o r =
    omega (arith, step_le l c q v o.0 r, run_le (step l c) cs q (step-Inv l c v) o.1 r)

existing_only_pools : (q : PoolName) → needs existing_only q ≡ true → IsRetry q
existing_only_pools q h = ground arith

limit_pos : (q : PoolName) → 1 ≤ limit q
unfolding limit
limit_pos q = ground arith

-- After any calls on a new ledger without an admission of class `EXISTING_ONLY`, the next
-- admission of that class is given its bundle.
pub retry_capacity_kept :
    (cs : List Call)
    → All IsOrdinary cs
    → (b : Bundle) × ((try_acquire existing_only (run create cs)).1 ≡ some b)
unfolding create
retry_capacity_kept cs o = elim (try_acquire_all_or_none existing_only (run create cs)) [
  | inl (full, same) ↦ absurd (not_full full)
  | inr (room, (b, given, used)) ↦ (b, given)
]
  where
    not_full : ¬ IsFull existing_only (run create cs)
    not_full (q, needed, full) =
        omega
          (arith, full, limit_pos q, run_le create cs q create-Inv o (existing_only_pools q needed))
