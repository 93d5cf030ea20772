-- ===== src/Resource.antt =====
-- src/composition/internal/admission-resource-ledger.ts: the pools of slots that a request takes
-- when it is admitted. A lease is an object with an identity, here the next number of a counter;
-- the four weak maps of the source are one list of leases, each with the map that it stands in.
pub mod Pools
pub mod Acquire
pub mod Release
pub mod Histories
mod Tests
use mathlib.Core.Logic.{ite}
use pass_hub.Base.{
  ℕ, suc, ◌+◌, ◌-◌, Bool, true, false, ◌&&◌, not, Option, none, some, List, [], ◌∷◌, leb,
  if◌then◌else◌, Entries, lookup, insert, ℕ_discrete,
}

pub data PoolName : Type 0 where
  http_ordinary http_retry : PoolName
  validation_write validation_login validation_query validation_retry : PoolName
  origin scrypt query_db canonical_replay original_confirm : PoolName

pub PoolName-discrete : Discrete PoolName
PoolName-discrete = hlevel

unfoldable pub limit : PoolName → ℕ
limit http_ordinary = 28
limit http_retry = 4
limit validation_write = 4
limit validation_login = 1
limit validation_query = 1
limit validation_retry = 2
limit origin = 32
limit scrypt = 1
limit query_db = 1
limit canonical_replay = 2
limit original_confirm = 1

pub data ResourceClass : Type 0 where
  management normal_recognition login query existing_only : ResourceClass

pub data ErrorCode : Type 0 where
  invalid_lease lease_already_released : ErrorCode

-- The weak map that a lease stands in.
pub data Store : Type 0 where
  http_leases validation_leases origin_leases ancillary_leases : Store

pub Store-discrete : Discrete Store
Store-discrete = hlevel

pub record LeaseState : Type 0 where
  pub store : Store
  pub pool : PoolName
  pub active : Bool

pub record Ledger : Type 0 where
  pub used : PoolName → ℕ
  pub leases : Entries ℕ LeaseState
  pub minted : ℕ

unfoldable pub create : Ledger
create = record { used = λ p. 0; leases = []; minted = 0 }

pub record Plan : Type 0 where
  pub http : PoolName
  pub validation : PoolName
  pub origin : Bool

unfoldable pub plan_of : ResourceClass → Plan
plan_of management = record { http = http_ordinary; validation = validation_write; origin = true }
plan_of normal_recognition = record {
  http = http_ordinary;
  validation = validation_write;
  origin = true;
}
plan_of login = record { http = http_ordinary; validation = validation_login; origin = false }
plan_of query = record { http = http_ordinary; validation = validation_query; origin = false }
plan_of existing_only = record { http = http_retry; validation = validation_retry; origin = false }

abbrev pub update : PoolName → ℕ → (PoolName → ℕ) → PoolName → ℕ
update p n used q = ite (PoolName-discrete p q) n (used q)

-- The new lease is the number `minted` of the ledger before.
unfoldable pub mint : PoolName → Store → Ledger → Ledger
mint pool store l = record {
  used = update pool (l.used pool + 1) l.used;
  leases =
      insert ℕ_discrete l.minted (record { store = store; pool = pool; active = true }) l.leases;
  minted = l.minted + 1;
}

unfoldable pub is_full : Ledger → PoolName → Bool
unfolding limit
is_full l p = leb (limit p) (l.used p)

pub record Bundle : Type 0 where
  pub http : ℕ
  pub validation : ℕ
  pub origin : Option ℕ

unfoldable pub mint_bundle : Plan → Ledger → Ledger × Bundle
mint_bundle plan l =
    let l1 = mint plan.http http_leases l in
    let l2 = mint plan.validation validation_leases l1 in
    if plan.origin
    then (
      mint origin origin_leases l2,
      record { http = l.minted; validation = l1.minted; origin = some l2.minted },
    )
    else (l2, record { http = l.minted; validation = l1.minted; origin = none })

unfoldable pub acquire_plan : Plan → Ledger → Ledger × Option Bundle
unfolding mint_bundle
acquire_plan plan l =
    if is_full l plan.http
    then (l, none)
    else if is_full l plan.validation
    then (l, none)
    else if plan.origin && is_full l origin
    then (l, none)
    else (let (l', bundle) = mint_bundle plan l in (l', some bundle))

unfoldable pub try_acquire : ResourceClass → Ledger → Ledger × Option Bundle
unfolding acquire_plan plan_of
try_acquire c l = acquire_plan (plan_of c) l

-- What a release returns or throws.
pub data Released : Type 0 where
  done : Released
  throws : ErrorCode → Released

unfoldable pub free : ℕ → LeaseState → Ledger → Ledger
free lease s l = record l {
  leases = insert ℕ_discrete lease (record s { active = false }) l.leases;
  used = update s.pool (l.used s.pool - 1) l.used;
}

unfoldable pub release_found :
    ℕ → (PoolName → Bool) → Store → Option LeaseState → Ledger → Ledger × Released
unfolding free
release_found lease expected store none l = (l, throws invalid_lease)
release_found lease expected store (some s) l =
    ite (Store-discrete s.store store)
      (if not (expected s.pool)
        then (l, throws invalid_lease)
        else if not s.active
        then (l, throws lease_already_released)
        else (free lease s l, done))
      (l, throws invalid_lease)

unfoldable pub release : ℕ → (PoolName → Bool) → Store → Ledger → Ledger × Released
unfolding release_found
release lease expected store l =
    release_found lease expected store (lookup ℕ_discrete lease l.leases) l

-- The pools that each release method expects.
abbrev pub is_http : PoolName → Bool
is_http http_ordinary = true
is_http http_retry = true
is_http _ = false

abbrev pub is_validation : PoolName → Bool
is_validation validation_write = true
is_validation validation_login = true
is_validation validation_query = true
is_validation validation_retry = true
is_validation _ = false

abbrev pub is_pool : PoolName → PoolName → Bool
is_pool p q = ite (PoolName-discrete p q) true false

unfoldable pub release_http : ℕ → Ledger → Ledger × Released
release_http lease = release lease is_http http_leases

unfoldable pub release_validation : ℕ → Ledger → Ledger × Released
release_validation lease = release lease is_validation validation_leases

unfoldable pub release_origin : ℕ → Ledger → Ledger × Released
release_origin lease = release lease (is_pool origin) origin_leases

-- The four pools beside admission.
pub data AncillaryClass : Type 0 where
  scrypt query_db canonical_replay original_confirm : AncillaryClass

unfoldable pub pool_of : AncillaryClass → PoolName
pool_of scrypt = PoolName.scrypt
pool_of query_db = PoolName.query_db
pool_of canonical_replay = PoolName.canonical_replay
pool_of original_confirm = PoolName.original_confirm

unfoldable pub try_acquire_ancillary : AncillaryClass → Ledger → Ledger × Option ℕ
try_acquire_ancillary a l =
    if is_full l (pool_of a)
    then (l, none)
    else (mint (pool_of a) ancillary_leases l, some l.minted)

unfoldable pub release_ancillary : AncillaryClass → ℕ → Ledger → Ledger × Released
release_ancillary a lease = release lease (is_pool (pool_of a)) ancillary_leases
