-- ===== src/Rate/Bounds.antt =====
-- The counters of a category, next to its limits and to one another.
use pass_hub.Base.{
  ℕ, ◌+◌, ◌≤◌, Option, none, some, [], ◌∷◌, String, arith, ◌≡◌, length, All, Entries, lookup,
  insert, length-insert, insert-All, String-discrete, Option-cases, inl, inr,
}
use pass_hub.Rate.{
  Category, login, query, recognition, management, CategoryState, CategoryLimits, GuardedClock,
  ClockCall, Ledger, Limits, create, new_state, enter_minute, count_request, allow_in, allow,
}

abbrev pub total : Entries String ℕ → ℕ
total [] = 0
total ((k, n) ∷ m) = n + total m

abbrev pub FitsKeys : Option ℕ → ℕ → Type 0
FitsKeys none size = Unit
FitsKeys (some most) size = size ≤ most

abbrev pub CountIn : ℕ → String × ℕ → Type 0
CountIn most (k, n) = (1 ≤ n) × (n ≤ most)

-- In the current minute: the counts of the keys add up to the count of the category, none of
-- them and not their sum passes its limit, and there are not more keys than allowed.
pub record IsBounded (s : CategoryState) : Type 0 where
  pub global_ok : s.global_count ≤ s.limits.global
  pub sums : total s.counts ≡ s.global_count
  pub keys_ok : All (CountIn s.limits.per_key) s.counts
  pub size_ok : FitsKeys s.limits.max_keys (length s.counts)

new_state-IsBounded : (l : CategoryLimits) → IsBounded (new_state l)
new_state-IsBounded l = ground arith

enter_minute-IsBounded :
    (s t : CategoryState) (now : ℕ) → enter_minute s now ≡ some t → IsBounded s → IsBounded t
unfolding enter_minute
enter_minute-IsBounded s t now e b = ground arith

-- The entries after a request of the key is counted.
total-insert_new :
    (k : String) (m : Entries String ℕ)
    → lookup String-discrete k m ≡ none
    → total (insert String-discrete k 1 m) ≡ total m + 1
unfolding lookup insert
total-insert_new k [] h = omega arith
total-insert_new k ((j, n) ∷ m) h = ground (arith, total-insert_new k m)

total-insert_old :
    (k : String) (n : ℕ) (m : Entries String ℕ)
    → lookup String-discrete k m ≡ some n
    → total (insert String-discrete k (n + 1) m) ≡ total m + 1
unfolding lookup insert
total-insert_old k n [] h = ground arith
total-insert_old k n ((j, w) ∷ m) h = ground (arith, total-insert_old k n m)

count_request-IsBounded :
    (s : CategoryState) (key : String) → IsBounded s → IsBounded (count_request s key).0
unfolding count_request
count_request-IsBounded s key b = elim (Option-cases (lookup String-discrete key s.counts)) [
  | inl new ↦ ground (
    arith,
    new,
    length-insert String-discrete key 1 s.counts,
    total-insert_new key s.counts new,
    insert-All String-discrete (CountIn s.limits.per_key) key 1 s.counts,
  )
  | inr (n, old) ↦ ground (
    arith,
    old,
    length-insert String-discrete key (n + 1) s.counts,
    total-insert_old key n s.counts old,
    insert-All String-discrete (CountIn s.limits.per_key) key (n + 1) s.counts,
  )
]

pub allow_in-IsBounded :
    (g : GuardedClock) (s : CategoryState) (key : String) (c : ClockCall)
    → IsBounded s
    → IsBounded (allow_in g s key c).1
unfolding allow_in
allow_in-IsBounded g s key c b = grind (arith, count_request-IsBounded, enter_minute-IsBounded s)

abbrev pub AllBounded : Ledger → Type 0
AllBounded l =
    IsBounded l.login × IsBounded l.query × IsBounded l.recognition × IsBounded l.management

-- A new ledger is bounded, and every call of every port keeps each of the four categories within
-- its limits, with counters that agree, whatever the clock does.
pub allow-AllBounded :
    (l : Ledger) (c : Category) (key : String) (call : ClockCall)
    → AllBounded l
    → AllBounded (allow l c key call).0
unfolding allow
allow-AllBounded l login key call b = ground (arith, allow_in-IsBounded l.guard l.login key call)
allow-AllBounded l query key call b = ground (arith, allow_in-IsBounded l.guard l.query key call)
allow-AllBounded l recognition key call b =
    ground (arith, allow_in-IsBounded l.guard l.recognition key call)
allow-AllBounded l management key call b =
    ground (arith, allow_in-IsBounded l.guard l.management key call)

pub create-AllBounded : (l : Limits) → AllBounded (create l)
unfolding create
create-AllBounded l = ground arith
