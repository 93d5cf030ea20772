-- ===== src/Rate/Allowed.antt =====
-- When a request is let through.
use pass_hub.Base.{
  ℕ, ◌/◌, ◌<◌, false, Option, none, some, String, arith, ◌≡◌, ◌≢◌, length, lookup, String-discrete,
  ◌==◌, if◌then◌else◌, is_empty, Option-cases, inl, inr, ◌↔◌, ◌⊎◌, ◌∙◌,
}
use pass_hub.Rate.{
  Category, login, query, recognition, management, CategoryState, GuardedClock, ClockCall, Ledger,
  allowed, enter_minute, count_request, allow_in, allow, select, or_zero, read_guarded_clock,
}
use pass_hub.Rate.Clock.{IsTrusted, guard-allow}
use pass_hub.Rate.Timing.{TimedBy, IsTimed}

-- The requests already counted in the minute, as far as the category remembers them.
abbrev pub counted : CategoryState → String → ℕ → ℕ
counted s key m = elim s.minute [
  | none ↦ 0
  | some now ↦ if now == m then or_zero (lookup String-discrete key s.counts) else 0
]

abbrev pub counted_in_all : CategoryState → ℕ → ℕ
counted_in_all s m = elim s.minute [ none ↦ 0 | some now ↦ if now == m then s.global_count else 0 ]

abbrev pub Remembered : CategoryState → String → ℕ → Type 0
Remembered s key m = (s.minute ≡ some m) × (lookup String-discrete key s.counts ≢ none)

abbrev pub keys_in : CategoryState → ℕ → ℕ
keys_in s m = elim s.minute [ none ↦ 0 | some now ↦ if now == m then length s.counts else 0 ]

abbrev pub HasRoom : Option ℕ → ℕ → Type 0
HasRoom none size = Unit
HasRoom (some most) size = size < most

count_request-allowed_iff :
    (s : CategoryState) (key : String)
    → ((count_request s key).1 ≡ allowed) ↔ (
        (or_zero (lookup String-discrete key s.counts) < s.limits.per_key)
        × (s.global_count < s.limits.global)
        × ((lookup String-discrete key s.counts ≢ none)
            ⊎ HasRoom s.limits.max_keys (length s.counts)))
unfolding count_request
count_request-allowed_iff s key = ((λ h. ground arith), λ h. ground arith)

-- What the category is after it enters the minute, from what it remembers of that minute.
record Entered (s t : CategoryState) (key : String) (m : ℕ) : Type 0 where
  by_key : or_zero (lookup String-discrete key t.counts) ≡ counted s key m
  in_all : t.global_count ≡ counted_in_all s m
  keys : length t.counts ≡ keys_in s m
  known : (lookup String-discrete key t.counts ≢ none) ↔ Remembered s key m
  limits : t.limits ≡ s.limits

enter_minute-Entered :
    (s t : CategoryState) (key : String) (m : ℕ) → enter_minute s m ≡ some t → Entered s t key m
unfolding enter_minute lookup
enter_minute-Entered s t key m e = record {
  by_key = ground arith;
  in_all = ground arith;
  keys = ground arith;
  known = ((λ h. ground arith), λ h. ground arith);
  limits = ground arith;
}

enter_minute_possible :
    (s : CategoryState) (g : GuardedClock) (c : ClockCall) (now : ℕ)
    → TimedBy s.minute g.last_now_ms
    → IsTrusted g c now
    → enter_minute s (now / 60000) ≢ none
unfolding enter_minute
enter_minute_possible s g c now h t = elim (Option-cases g.last_now_ms) [
  | inl e ↦ ground (arith, e)
  | inr (last, e) ↦ ground (arith, e, t.forward last e)
]

reading_complete :
    (g : GuardedClock) (c : ClockCall) (now : ℕ)
    → g.frozen ≡ false
    → g.invoking ≡ false
    → IsTrusted g c now
    → (read_guarded_clock g c).1 ≡ some now
unfolding read_guarded_clock
reading_complete g c now f i t = elim (Option-cases g.last_now_ms) [
  | inl e ↦ ground (arith, t.direct, t.reply, t.safe)
  | inr (last, e) ↦ ground (arith, t.direct, t.reply, t.safe, t.forward last e)
]

allow_in_read :
    (g : GuardedClock) (s t : CategoryState) (key : String) (c : ClockCall) (now : ℕ)
    → g.frozen ≡ false
    → g.invoking ≡ false
    → is_empty key ≡ false
    → (read_guarded_clock g c).1 ≡ some now
    → enter_minute s (now / 60000) ≡ some t
    → (allow_in g s key c).2 ≡ (count_request t key).1
unfolding allow_in
allow_in_read g s t key c now f i e r m = ground arith

select-TimedBy :
    (l : Ledger) (c : Category) → IsTimed l → TimedBy (select l c).minute l.guard.last_now_ms
select-TimedBy l login h = h.0
select-TimedBy l query h = h.1
select-TimedBy l recognition h = h.2
select-TimedBy l management h = h.3

abbrev pub MayPass : CategoryState → String → ℕ → Type 0
MayPass s key m =
    (counted s key m < s.limits.per_key)
    × (counted_in_all s m < s.limits.global)
    × (Remembered s key m ⊎ HasRoom s.limits.max_keys (keys_in s m))

allow_in-allowed_iff :
    (g : GuardedClock) (s : CategoryState) (key : String) (c : ClockCall) (now : ℕ)
    → g.frozen ≡ false
    → g.invoking ≡ false
    → is_empty key ≡ false
    → TimedBy s.minute g.last_now_ms
    → IsTrusted g c now
    → ((allow_in g s key c).2 ≡ allowed) ↔ MayPass s key (now / 60000)
allow_in-allowed_iff g s key c now f i e h t = elim (Option-cases (enter_minute s (now / 60000))) [
  | inl past ↦ absurd (enter_minute_possible s g c now h t past)
  | inr (s', entered) ↦
      let x = enter_minute-Entered s s' key (now / 60000) entered in
      let read = allow_in_read g s s' key c now f i e (reading_complete g c now f i t) entered in
      let (to, from) = count_request-allowed_iff s' key in
      (
        λ ok. ground (arith, read, to, x.by_key, x.in_all, x.keys, x.known.0, x.limits),
        λ may. read ∙ from (ground (arith, x.by_key, x.in_all, x.keys, x.known.1, x.limits)),
      )
]

-- On a live ledger, with a key that is not empty and a reading of the clock that can be trusted,
-- a request is let through exactly when fewer than `perKey` requests of the key and fewer than
-- `global` in all were counted in the minute of the reading, and the key was seen in that minute
-- or the category may still take another key.
pub allowed_iff :
    (l : Ledger) (c : Category) (key : String) (call : ClockCall) (now : ℕ)
    → l.guard.frozen ≡ false
    → l.guard.invoking ≡ false
    → is_empty key ≡ false
    → IsTimed l
    → IsTrusted l.guard call now
    → ((allow l c key call).1 ≡ allowed) ↔ MayPass (select l c) key (now / 60000)
allowed_iff l c key call now f i e h t =
    let same = (guard-allow l c key call).1 in
    let (to, from) =
      allow_in-allowed_iff l.guard (select l c) key call now f i e (select-TimedBy l c h) t in
    (λ ok. to (rw (← same) ok), λ may. same ∙ from may)
