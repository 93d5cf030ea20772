-- ===== src/Rate/Freezing.antt =====
-- What follows a reading of the clock that cannot be trusted.
use pass_hub.Base.{ℕ, true, false, List, [], ◌∷◌, String, arith, ◌≡◌, refl, ap, is_empty}
use pass_hub.Rate.{
  Category, ClockCall, Ledger, throws, clock_failure, rate_limiter_frozen, allow, select, Ported,
}
use pass_hub.Rate.Windows.{Request}
use pass_hub.Rate.Timing.{perform_all}
use pass_hub.Rate.Clock.{
  IsTrusted, frozen_absorbs, read_none, allow_in_unread, untrusted_unread, select-allow_same,
  guard-allow,
}

frozen-perform_all : (l : Ledger) (rs : List Request) → l.guard.frozen ≡ true → perform_all l rs ≡ l
unfolding perform_all
frozen-perform_all l [] h = refl
frozen-perform_all l (r ∷ rs) h =
    rw (frozen_absorbs l r.category r.key r.call h) (frozen-perform_all l rs h)

-- On a ledger that is neither frozen nor waiting for its clock, and a key that is not empty, any
-- reading that cannot be trusted throws the error that names the clock, freezes the ledger and leaves
-- all counters as they are. From then on no requests change the ledger, and after any of them a call
-- of any port throws that the limiter is frozen.
pub untrusted_freezes :
    (l : Ledger) (c : Category) (key : String) (call : ClockCall)
    → l.guard.frozen ≡ false
    → l.guard.invoking ≡ false
    → is_empty key ≡ false
    → ((now : ℕ) → ¬ IsTrusted l.guard call now)
    → ((allow l c key call).0.guard.frozen ≡ true)
      × ((allow l c key call).1 ≡ throws clock_failure)
      × ((d : Category) → select (allow l c key call).0 d ≡ select l d)
      × ((rs : List Request) → perform_all (allow l c key call).0 rs ≡ (allow l c key call).0)
      × ((rs : List Request) (d : Category) (k : String) (later : ClockCall)
          → allow (perform_all (allow l c key call).0 rs) d k later
            ≡ (perform_all (allow l c key call).0 rs, throws rate_limiter_frozen))
untrusted_freezes l c key call f i e bad =
    let unread = untrusted_unread l.guard call f bad in
    let result = allow_in_unread l.guard (select l c) key call f i e unread in
    let frozen : (allow l c key call).0.guard.frozen ≡ true =
      ground (arith, (guard-allow l c key call).0, result, read_none l.guard call unread) in
    (
      frozen,
      ground (arith, (guard-allow l c key call).1, result),
      λ d. select-allow_same l c d key call (ap (λ (r : Ported). r.1) result),
      λ rs. frozen-perform_all (allow l c key call).0 rs frozen,
      λ rs d k later.
          rw (frozen-perform_all (allow l c key call).0 rs frozen)
            (frozen_absorbs (allow l c key call).0 d k later frozen),
    )
