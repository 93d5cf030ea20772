-- ===== src/Rate/Timing.antt =====
-- Requests one after another: the shared clock and the minute of each category.
use pass_hub.Base.{
  ℕ, ◌/◌, ◌≤◌, false, Option, none, some, List, [], ◌∷◌, String, arith, ◌≡◌, refl, is_empty,
  Option-cases, if-cases, inl, inr,
}
use pass_hub.Rate.{
  Category, login, query, recognition, management, CategoryState, GuardedClock, ClockCall, Ledger,
  rate_limited, enter_minute, count_request, allow_in, allow, Limits, create, Ported, count_at,
  read_guarded_clock,
}
use pass_hub.Rate.Windows.{Request, perform}
use pass_hub.Rate.Bounds.{AllBounded, allow-AllBounded, create-AllBounded}
use pass_hub.Rate.Clock.{guard-allow}

-- The minute of a category is not ahead of the last reading of the clock.
abbrev pub TimedBy : Option ℕ → Option ℕ → Type 0
TimedBy none last = Unit
TimedBy (some m) none = ⊥
TimedBy (some m) (some last) = m ≤ last / 60000

abbrev pub IsTimed : Ledger → Type 0
IsTimed l =
    TimedBy l.login.minute l.guard.last_now_ms
    × TimedBy l.query.minute l.guard.last_now_ms
    × TimedBy l.recognition.minute l.guard.last_now_ms
    × TimedBy l.management.minute l.guard.last_now_ms

read-TimedBy :
    (g : GuardedClock) (c : ClockCall) (minute : Option ℕ)
    → TimedBy minute g.last_now_ms
    → TimedBy minute (read_guarded_clock g c).0.last_now_ms
unfolding read_guarded_clock
read-TimedBy g c none h = tt
read-TimedBy g c (some m) h = ground arith

read_some :
    (g : GuardedClock) (c : ClockCall) (now : ℕ)
    → (read_guarded_clock g c).1 ≡ some now
    → (read_guarded_clock g c).0.last_now_ms ≡ some now
unfolding read_guarded_clock
read_some g c now h = ground arith

count_request-minute :
    (s : CategoryState) (key : String) → (count_request s key).0.minute ≡ s.minute
unfolding count_request
count_request-minute s key = ground arith

enter_minute-minute :
    (s t : CategoryState) (now : ℕ) → enter_minute s now ≡ some t → t.minute ≡ some now
unfolding enter_minute
enter_minute-minute s t now e = ground arith

counted-TimedBy :
    (s t : CategoryState) (key : String) (now : ℕ) (last : Option ℕ)
    → enter_minute s (now / 60000) ≡ some t
    → last ≡ some now
    → TimedBy (count_request t key).0.minute last
counted-TimedBy s t key now last e h =
    rw (count_request-minute t key, enter_minute-minute s t (now / 60000) e, h) (omega arith)

-- What a call does to the clock, and to the minute of its category.
abbrev KeepsTime : GuardedClock → CategoryState → Ported → Type 0
KeepsTime g s r =
    ((minute : Option ℕ) → TimedBy minute g.last_now_ms → TimedBy minute r.0.last_now_ms)
    × (TimedBy s.minute g.last_now_ms → TimedBy r.1.minute r.0.last_now_ms)

count_at-KeepsTime :
    (g : GuardedClock) (s : CategoryState) (key : String) (r : GuardedClock × Option ℕ)
    → ((minute : Option ℕ) → TimedBy minute g.last_now_ms → TimedBy minute r.0.last_now_ms)
    → ((now : ℕ) → r.1 ≡ some now → r.0.last_now_ms ≡ some now)
    → KeepsTime g s (count_at s key r)
unfolding count_at enter_minute
count_at-KeepsTime g s key (g', none) keeps read = (keeps, keeps s.minute)
count_at-KeepsTime g s key (g', some now) keeps read =
    elim (Option-cases (enter_minute s (now / 60000))) [
      | inl past ↦ rw past (keeps, keeps s.minute)
      | inr (t, entered) ↦
          rw entered
            (keeps, λ h. counted-TimedBy s t key now g'.last_now_ms entered (read now refl))
    ]

allow_in-KeepsTime :
    (g : GuardedClock) (s : CategoryState) (key : String) (c : ClockCall)
    → KeepsTime g s (allow_in g s key c)
unfolding allow_in
allow_in-KeepsTime g s key c =
    let P = λ (r : Ported). KeepsTime g s r in
    let alone : P (g, s, rate_limited) = ((λ m h. h), λ h. h) in
    if-cases P g.frozen _ _ alone (
      if-cases P g.invoking _ _ alone (
        if-cases P (is_empty key) _ _ alone
          (count_at-KeepsTime g s key (read_guarded_clock g c) (read-TimedBy g c) (read_some g c))))

-- The minute of each category stays at or behind the last accepted reading of the shared clock,
-- whichever port is called and whatever the clock answers.
pub allow-IsTimed :
    (l : Ledger) (c : Category) (key : String) (call : ClockCall)
    → IsTimed l
    → IsTimed (allow l c key call).0
unfolding allow
allow-IsTimed l login key call (a, b, c, d) =
    let (keeps, own) = allow_in-KeepsTime l.guard l.login key call in
    (own a, keeps _ b, keeps _ c, keeps _ d)
allow-IsTimed l query key call (a, b, c, d) =
    let (keeps, own) = allow_in-KeepsTime l.guard l.query key call in
    (keeps _ a, own b, keeps _ c, keeps _ d)
allow-IsTimed l recognition key call (a, b, c, d) =
    let (keeps, own) = allow_in-KeepsTime l.guard l.recognition key call in
    (keeps _ a, keeps _ b, own c, keeps _ d)
allow-IsTimed l management key call (a, b, c, d) =
    let (keeps, own) = allow_in-KeepsTime l.guard l.management key call in
    (keeps _ a, keeps _ b, keeps _ c, own d)

allow-idle :
    (l : Ledger) (c : Category) (key : String) (call : ClockCall)
    → l.guard.invoking ≡ false
    → (allow l c key call).0.guard.invoking ≡ false
unfolding allow_in read_guarded_clock
allow-idle l c key call h = ground (arith, (guard-allow l c key call).0)

-- What holds of a ledger between two requests.
pub record Inv (l : Ledger) : Type 0 where
  pub bounded : AllBounded l
  pub timed : IsTimed l
  pub idle : l.guard.invoking ≡ false

unfoldable pub perform_all : Ledger → List Request → Ledger
perform_all l [] = l
perform_all l (r ∷ rs) = perform_all (perform l r).0 rs

perform_all-Inv : (l : Ledger) (rs : List Request) → Inv l → Inv (perform_all l rs)
unfolding perform_all
perform_all-Inv l [] v = v
perform_all-Inv l (r ∷ rs) v = perform_all-Inv (perform l r).0 rs (record {
  bounded = allow-AllBounded l r.category r.key r.call v.bounded;
  timed = allow-IsTimed l r.category r.key r.call v.timed;
  idle = allow-idle l r.category r.key r.call v.idle;
})

create-Inv : (limits : Limits) → Inv (create limits)
unfolding create
create-Inv limits = record {
  bounded = create-AllBounded limits;
  timed = (tt, tt, tt, tt);
  idle = refl;
}

-- After any requests to a new ledger, whatever its clock answers: each category is within its
-- limits with counters that agree, no category is in a minute ahead of the clock, and the ledger
-- is not waiting for the clock.
pub requests-Inv : (limits : Limits) (rs : List Request) → Inv (perform_all (create limits) rs)
requests-Inv limits rs = perform_all-Inv (create limits) rs (create-Inv limits)
