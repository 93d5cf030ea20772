-- ===== src/Resource/Tests.antt =====
-- The resource ledger at concrete calls.
use pass_hub.Base.{◌+◌, true, none, some, List, [], ◌∷◌, ◌≡◌, refl, ◌⊎◌, arith, lookup, insert}
use pass_hub.Resource.{
  PoolName, http_ordinary, http_leases, LeaseState, Ledger, ErrorCode, done, throws,
  lease_already_released, Bundle, create, login, management, existing_only, try_acquire, release,
  is_http, mint, limit,
}
use pass_hub.Resource.Pools.{Inv, weight, create-Inv, mint-Inv}
use pass_hub.Resource.Acquire.{IsFull, HasRoom, Grants, try_acquire_all_or_none}
use pass_hub.Resource.Release.{IsHeld, release_lem, release_twice}
use pass_hub.Resource.Histories.{
  Call, acquires, releases_http, releases_origin, run, calls-Inv, retry_capacity_kept,
}

abbrev busy : List Call
busy = acquires management ∷ acquires login ∷ releases_http 0 ∷ releases_origin 3 ∷ []

try_acquire_all_or_none_example :
    (IsFull login create × (try_acquire login create ≡ (create, none)))
    ⊎ (HasRoom login create × Grants login create (try_acquire login create))
try_acquire_all_or_none_example = try_acquire_all_or_none login create

calls-Inv_example : Inv (run create busy)
calls-Inv_example = calls-Inv busy

retry_capacity_kept_example :
    (b : Bundle) × ((try_acquire existing_only (run create busy)).1 ≡ some b)
retry_capacity_kept_example = retry_capacity_kept busy ((λ e. cc), ((λ e. cc), (tt, (tt, tt))))

-- The ledger after one lease is given out.
abbrev taken : Ledger
taken = (mint http_ordinary http_leases create)

abbrev taken_lease : LeaseState
taken_lease = record { store = http_leases; pool = http_ordinary; active = true }

taken-IsHeld : IsHeld 0 is_http http_leases taken_lease taken
unfolding mint create insert lookup
taken-IsHeld = ground arith

taken-Inv : Inv taken
unfolding create limit
taken-Inv = mint-Inv http_ordinary http_leases create (ground arith) refl create-Inv

release_lem_example :
    ((s : LeaseState) × IsHeld 0 is_http http_leases s taken
      × ((release 0 is_http http_leases taken).1 ≡ done)
      × ((q : PoolName)
          → (release 0 is_http http_leases taken).0.used q + weight q s ≡ taken.used q))
    ⊎ (((s : LeaseState) → ¬ IsHeld 0 is_http http_leases s taken)
        × ((e : ErrorCode) × (release 0 is_http http_leases taken ≡ (taken, throws e))))
release_lem_example = release_lem 0 is_http http_leases taken taken-Inv

released : (release 0 is_http http_leases taken).1 ≡ done
unfolding release
released = ground (arith, taken-IsHeld)

release_twice_example :
    release 0 is_http http_leases (release 0 is_http http_leases taken).0
    ≡ ((release 0 is_http http_leases taken).0, throws lease_already_released)
release_twice_example = release_twice 0 is_http http_leases taken released
