-- ===== src/Rate/Clock.antt =====
-- When a reading of the clock can be trusted, and what a call of a port makes of it.
use pass_hub.Base.{
  ℕ, ◌≤◌, true, false, none, some, String, arith, ◌≡◌, refl, pos, max_safe, is_empty, Option-cases,
  inl, inr,
}
use pass_hub.Rate.{
  Category, login, query, recognition, management, CategoryState, GuardedClock, ClockCall, reads,
  Ledger, throws, clock_failure, rate_limiter_frozen, allow_in, allow, select, read_guarded_clock,
}

-- A frozen ledger refuses every request with the same error and never changes again.
pub frozen_absorbs :
    (l : Ledger) (c : Category) (key : String) (call : ClockCall)
    → l.guard.frozen ≡ true
    → allow l c key call ≡ (l, throws rate_limiter_frozen)
unfolding allow allow_in
frozen_absorbs l login key call h = ground arith
frozen_absorbs l query key call h = ground arith
frozen_absorbs l recognition key call h = ground arith
frozen_absorbs l management key call h = ground arith

-- A reading can be trusted: no call of a port from inside, a safe integer, and not before the
-- last one.
pub record IsTrusted (g : GuardedClock) (c : ClockCall) (now : ℕ) : Type 0 where
  pub direct : c.reenters ≡ false
  pub reply : c.reply ≡ reads (pos now)
  pub safe : now ≤ max_safe
  pub forward : (last : ℕ) → g.last_now_ms ≡ some last → last ≤ now

pub reading_sound :
    (g : GuardedClock) (c : ClockCall) (now : ℕ)
    → g.frozen ≡ false
    → (read_guarded_clock g c).1 ≡ some now
    → IsTrusted g c now
unfolding read_guarded_clock
reading_sound g c now f h = record {
  direct = ground arith;
  reply = ground arith;
  safe = ground arith;
  forward = λ last e. ground arith;
}

pub read_none :
    (g : GuardedClock) (c : ClockCall)
    → (read_guarded_clock g c).1 ≡ none
    → (read_guarded_clock g c).0.frozen ≡ true
unfolding read_guarded_clock
read_none g c h = ground arith

pub allow_in_unread :
    (g : GuardedClock) (s : CategoryState) (key : String) (c : ClockCall)
    → g.frozen ≡ false
    → g.invoking ≡ false
    → is_empty key ≡ false
    → (read_guarded_clock g c).1 ≡ none
    → allow_in g s key c ≡ ((read_guarded_clock g c).0, s, throws clock_failure)
unfolding allow_in
allow_in_unread g s key c f i e h = ground arith

pub untrusted_unread :
    (g : GuardedClock) (c : ClockCall)
    → g.frozen ≡ false
    → ((now : ℕ) → ¬ IsTrusted g c now)
    → (read_guarded_clock g c).1 ≡ none
untrusted_unread g c f bad = elim (Option-cases (read_guarded_clock g c).1) [
  | inl unread ↦ unread
  | inr (now, read) ↦ absurd (bad now (reading_sound g c now f read))
]

-- A call that leaves its category alone leaves every category alone.
pub select-allow_same :
    (l : Ledger) (c d : Category) (key : String) (call : ClockCall)
    → (allow_in l.guard (select l c) key call).1 ≡ select l c
    → select (allow l c key call).0 d ≡ select l d
unfolding allow
select-allow_same l login d key call h = ground arith
select-allow_same l query d key call h = ground arith
select-allow_same l recognition d key call h = ground arith
select-allow_same l management d key call h = ground arith

pub guard-allow :
    (l : Ledger) (c : Category) (key : String) (call : ClockCall)
    → ((allow l c key call).0.guard ≡ (allow_in l.guard (select l c) key call).0)
      × ((allow l c key call).1 ≡ (allow_in l.guard (select l c) key call).2)
unfolding allow
guard-allow l login key call = (refl, refl)
guard-allow l query key call = (refl, refl)
guard-allow l recognition key call = (refl, refl)
guard-allow l management key call = (refl, refl)
