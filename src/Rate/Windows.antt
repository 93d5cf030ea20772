-- ===== src/Rate/Windows.antt =====
-- The requests that are let through in one minute of the clock.
use pass_hub.Base.{
  ℕ, ◌+◌, ◌/◌, ◌≤◌, Bool, false, Option, none, some, List, [], ◌∷◌, String, arith, ◌≡◌, ◌≢◌, refl,
  ap, pos, All, Entries, lookup, lookup-insert, String-discrete, ltb, ◌==◌, if◌then◌else◌,
  Option-cases, if-cases, is_empty, inl, inr,
}
use mathlib.Core.Logic.{ite, if_pos, if_neg}
use mathlib.Core.Path.{subst}
use pass_hub.Rate.{
  Category, Category-discrete, login, query, recognition, management, CategoryState, CategoryLimits,
  GuardedClock, ClockCall, reads, Ledger, Limits, Outcome, allowed, create, enter_minute,
  count_request, allow_in, allow, select, or_zero, read_guarded_clock, Ported, ErrorCode,
  clock_failure, rate_limiter_frozen, invalid_key, count_at,
}
use pass_hub.Rate.Bounds.{CountIn, IsBounded, AllBounded, allow-AllBounded, create-AllBounded}

-- The minute of the clock that a call reads.
abbrev pub minute_of : ClockCall → Option ℕ
minute_of c = elim c.reply [ reads (pos n) ↦ some (n / 60000) | _ ↦ none ]

abbrev pub is_minute : ℕ → Option ℕ → Bool
is_minute m none = false
is_minute m (some n) = n == m

-- What a category has used up of its limit in a minute: all of it, where that minute is past.
abbrev used : CategoryState → ℕ → ℕ → ℕ → ℕ
used s m most count = elim s.minute [
  | none ↦ 0
  | some now ↦ if now == m then count else if ltb m now then most else 0
]

abbrev used_by : CategoryState → String → ℕ → ℕ
used_by s k m = used s m s.limits.per_key (or_zero (lookup String-discrete k s.counts))

abbrev used_in_all : CategoryState → ℕ → ℕ
used_in_all s m = used s m s.limits.global s.global_count

-- 1 for a request that was let through in the minute.
abbrev pub admits : ℕ → ClockCall → Outcome → ℕ
admits m c allowed = if is_minute m (minute_of c) then 1 else 0
admits m c _ = 0

abbrev pub admits_key : String → ℕ → String → ClockCall → Outcome → ℕ
admits_key k m key c outcome = ite (String-discrete key k) (admits m c outcome) 0

lookup-le :
    (k : String) (most : ℕ) (m : Entries String ℕ)
    → All (CountIn most) m
    → or_zero (lookup String-discrete k m) ≤ most
unfolding lookup
lookup-le k most [] a = omega arith
lookup-le k most ((j, n) ∷ m) a = ground (arith, lookup-le k most m a.1)

used_by-le :
    (s : CategoryState) (k : String) (m : ℕ) → IsBounded s → used_by s k m ≤ s.limits.per_key
used_by-le s k m b = ground (arith, lookup-le k s.limits.per_key s.counts b.keys_ok)

used_in_all-le : (s : CategoryState) (m : ℕ) → IsBounded s → used_in_all s m ≤ s.limits.global
used_in_all-le s m b = ground arith

count_request-used_by :
    (s : CategoryState) (key k : String) (m now : ℕ) (c : ClockCall)
    → s.minute ≡ some now
    → minute_of c ≡ some now
    → used_by s k m + admits_key k m key c (count_request s key).1
      ≤ used_by (count_request s key).0 k m
unfolding count_request
count_request-used_by s key k m now c e f = ground (
  arith,
  lookup-insert String-discrete key k (or_zero (lookup String-discrete key s.counts) + 1) s.counts,
)

count_request-used_in_all :
    (s : CategoryState) (key : String) (m now : ℕ) (c : ClockCall)
    → s.minute ≡ some now
    → minute_of c ≡ some now
    → used_in_all s m + admits m c (count_request s key).1 ≤ used_in_all (count_request s key).0 m
unfolding count_request
count_request-used_in_all s key m now c e f = ground arith

enter_minute-used :
    (s t : CategoryState) (k : String) (m now : ℕ)
    → enter_minute s now ≡ some t
    → IsBounded s
    → (used_by s k m ≤ used_by t k m) × (used_in_all s m ≤ used_in_all t m) × (t.minute ≡ some now)
unfolding enter_minute lookup
enter_minute-used s t k m now e b = ground (arith, used_by-le s k m b, used_in_all-le s m b)

-- The reading that is accepted is the one of the call.
read_minute :
    (g : GuardedClock) (c : ClockCall) (now : ℕ)
    → (read_guarded_clock g c).1 ≡ some now
    → minute_of c ≡ some (now / 60000)
unfolding read_guarded_clock
read_minute g c now h = ground arith

-- A call throws and leaves the category alone, or counts the key in the minute of the clock.
data Allows (s : CategoryState) (key : String) (c : ClockCall) (r : Ported) : Type 0 where
  refuses : (e : ErrorCode) → r.1 ≡ s → r.2 ≡ Outcome.throws e → Allows s key c r
  counts :
      (now : ℕ) (t : CategoryState)
      → minute_of c ≡ some now
      → enter_minute s now ≡ some t
      → r.1 ≡ (count_request t key).0
      → r.2 ≡ (count_request t key).1
      → Allows s key c r

count_at-Allows :
    (s : CategoryState) (key : String) (c : ClockCall) (r : GuardedClock × Option ℕ)
    → ((now : ℕ) → r.1 ≡ some now → minute_of c ≡ some (now / 60000))
    → Allows s key c (count_at s key r)
unfolding count_at
count_at-Allows s key c (g, none) read = refuses clock_failure refl refl
count_at-Allows s key c (g, some now) read = elim (Option-cases (enter_minute s (now / 60000))) [
  | inl past ↦ rw past (refuses clock_failure refl refl)
  | inr (t, entered) ↦ rw entered (counts (now / 60000) t (read now refl) entered refl refl)
]

allow_in-Allows :
    (g : GuardedClock) (s : CategoryState) (key : String) (c : ClockCall)
    → Allows s key c (allow_in g s key c)
unfolding allow_in
allow_in-Allows g s key c =
    let P = λ (r : Ported). Allows s key c r in
    if-cases P g.frozen _ _ (refuses rate_limiter_frozen refl refl) (
      if-cases P g.invoking _ _ (refuses clock_failure refl refl) (
        if-cases P (is_empty key) _ _ (refuses invalid_key refl refl)
          (count_at-Allows s key c (read_guarded_clock g c) (read_minute g c))))

allow_in-used :
    (g : GuardedClock) (s : CategoryState) (key k : String) (m : ℕ) (c : ClockCall)
    → IsBounded s
    → (used_by s k m + admits_key k m key c (allow_in g s key c).2
        ≤ used_by (allow_in g s key c).1 k m)
      × (used_in_all s m + admits m c (allow_in g s key c).2 ≤ used_in_all (allow_in g s key c).1 m)
allow_in-used g s key k m c b = elim (allow_in-Allows g s key c) [
  | refuses e same thrown ↦ rw (same, thrown) (ground arith)
  | counts now t read entered next outcome ↦
      rw (next, outcome)
        (ground (
          arith,
          enter_minute-used s t k m now entered b,
          count_request-used_by t key k m now c,
          count_request-used_in_all t key m now c,
        ))
]

allow_in-limits :
    (g : GuardedClock) (s : CategoryState) (key : String) (c : ClockCall)
    → (allow_in g s key c).1.limits ≡ s.limits
unfolding allow_in count_request enter_minute
allow_in-limits g s key c = ground arith

-- One request to a port of the ledger.
pub record Request : Type 0 where
  pub category : Category
  pub key : String
  pub call : ClockCall

abbrev pub perform : Ledger → Request → Ledger × Outcome
perform l r = allow l r.category r.key r.call

-- How many of a list of requests, made one after another, are let through to a category in a
-- minute of the clock, for one key and in all.
unfoldable pub admitted_by : Ledger → Category → String → ℕ → List Request → ℕ
admitted_by l c k m [] = 0
admitted_by l c k m (r ∷ rs) =
    ite (Category-discrete r.category c) (admits_key k m r.key r.call (perform l r).1) 0
    + admitted_by (perform l r).0 c k m rs

unfoldable pub admitted_in_all : Ledger → Category → ℕ → List Request → ℕ
admitted_in_all l c m [] = 0
admitted_in_all l c m (r ∷ rs) =
    ite (Category-discrete r.category c) (admits m r.call (perform l r).1) 0
    + admitted_in_all (perform l r).0 c m rs

-- What a request adds to the use of a category, its own or another.
record Adds (l : Ledger) (r : Request) (c : Category) (k : String) (m : ℕ) : Type 0 where
  by_key :
      used_by (select l c) k m
        + ite (Category-discrete r.category c) (admits_key k m r.key r.call (perform l r).1) 0
      ≤ used_by (select (perform l r).0 c) k m
  in_all :
      used_in_all (select l c) m
        + ite (Category-discrete r.category c) (admits m r.call (perform l r).1) 0
      ≤ used_in_all (select (perform l r).0 c) m
  same_limits : (select (perform l r).0 c).limits ≡ (select l c).limits

select-IsBounded : (l : Ledger) (c : Category) → AllBounded l → IsBounded (select l c)
select-IsBounded l login b = b.0
select-IsBounded l query b = b.1
select-IsBounded l recognition b = b.2
select-IsBounded l management b = b.3

select-allow_self :
    (l : Ledger) (c : Category) (key : String) (call : ClockCall)
    → select (allow l c key call).0 c ≡ (allow_in l.guard (select l c) key call).1
unfolding allow
select-allow_self l login key call = refl
select-allow_self l query key call = refl
select-allow_self l recognition key call = refl
select-allow_self l management key call = refl

outcome-allow :
    (l : Ledger) (c : Category) (key : String) (call : ClockCall)
    → (allow l c key call).1 ≡ (allow_in l.guard (select l c) key call).2
unfolding allow
outcome-allow l c key call = refl

-- A call of one port leaves the counters of the other categories as they are.
select-allow_ne :
    (l : Ledger) (c d : Category) (key : String) (call : ClockCall)
    → d ≢ c
    → select (allow l d key call).0 c ≡ select l c
unfolding allow
select-allow_ne l c d key call h = ground arith

perform-Adds_self :
    (l : Ledger) (r : Request) (k : String) (m : ℕ) → AllBounded l → Adds l r r.category k m
perform-Adds_self l r k m b =
    let s = select l r.category in
    let added = allow_in-used l.guard s r.key k m r.call (select-IsBounded l r.category b) in
    let self = select-allow_self l r.category r.key r.call in
    let same = outcome-allow l r.category r.key r.call in
    let limits = allow_in-limits l.guard s r.key r.call in
    let outcome = (allow_in l.guard s r.key r.call).2 in
    let own = λ (n : ℕ). if_pos (Category-discrete r.category r.category) refl n 0 in
    record {
      by_key = rw (self, same, own (admits_key k m r.key r.call outcome)) added.0;
      in_all = rw (self, same, own (admits m r.call outcome)) added.1;
      same_limits = rw self limits;
    }

perform-Adds :
    (l : Ledger) (r : Request) (c : Category) (k : String) (m : ℕ) → AllBounded l → Adds l r c k m
perform-Adds l r c k m b = elim (Category-discrete r.category c) [
  | yes e ↦ subst (λ c. Adds l r c k m) e (perform-Adds_self l r k m b)
  | no n ↦
      let other = select-allow_ne l c r.category r.key r.call n in
      record {
        by_key = rw (other, if_neg _ n) (omega arith);
        in_all = rw (other, if_neg _ n) (omega arith);
        same_limits = ap (λ (s : CategoryState). s.limits) other;
      }
]

admitted_by-le :
    (l : Ledger) (c : Category) (k : String) (m : ℕ) (rs : List Request)
    → AllBounded l
    → used_by (select l c) k m + admitted_by l c k m rs ≤ (select l c).limits.per_key
unfolding admitted_by
admitted_by-le l c k m [] b = omega (arith, used_by-le (select l c) k m (select-IsBounded l c b))
admitted_by-le l c k m (r ∷ rs) b =
    let added = perform-Adds l r c k m b in
    let rest =
      admitted_by-le (perform l r).0 c k m rs (allow-AllBounded l r.category r.key r.call b) in
    omega (arith, added.by_key, rest, ap (λ (x : CategoryLimits). x.per_key) added.same_limits)

admitted_in_all-le :
    (l : Ledger) (c : Category) (m : ℕ) (rs : List Request)
    → AllBounded l
    → used_in_all (select l c) m + admitted_in_all l c m rs ≤ (select l c).limits.global
unfolding admitted_in_all
admitted_in_all-le l c m [] b =
    omega (arith, used_in_all-le (select l c) m (select-IsBounded l c b))
admitted_in_all-le l c m (r ∷ rs) b =
    let added = perform-Adds l r c "" m b in
    let rest =
      admitted_in_all-le (perform l r).0 c m rs (allow-AllBounded l r.category r.key r.call b) in
    omega (arith, added.in_all, rest, ap (λ (x : CategoryLimits). x.global) added.same_limits)

-- However the requests to the four ports are mixed and whatever the clock answers, a new ledger
-- lets through, in each minute of the clock, at most `perKey` requests of a key and at most
-- `global` requests in all to each category.
pub minute_limits :
    (limits : Limits) (c : Category) (k : String) (m : ℕ) (rs : List Request)
    → (admitted_by (create limits) c k m rs ≤ (select (create limits) c).limits.per_key)
      × (admitted_in_all (create limits) c m rs ≤ (select (create limits) c).limits.global)
minute_limits limits c k m rs =
    let b = create-AllBounded limits in
    (
      omega (arith, admitted_by-le (create limits) c k m rs b),
      omega (arith, admitted_in_all-le (create limits) c m rs b),
    )
