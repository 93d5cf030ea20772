-- ===== src/Rate/Tests.antt =====
-- The rate ledger at concrete requests.
use pass_hub.Base.{
  ℕ, ◌≤◌, true, false, List, [], ◌∷◌, String, ℤ, pos, negsuc, ◌≡◌, refl, ◌↔◌, arith, lookup, insert,
  String-discrete,
}
use pass_hub.Rate.{
  Category, login, ClockCall, reads, Ledger, allowed, rate_limited, throws, clock_failure,
  rate_limiter_frozen, fixed_minute_rate_limits, create, allow, select, read_guarded_clock,
  enter_minute, count_request, allow_in,
}
use pass_hub.Rate.Windows.{Request, admitted_by, admitted_in_all, minute_limits}
use pass_hub.Rate.Clock.{IsTrusted}
use pass_hub.Rate.Freezing.{untrusted_freezes}
use pass_hub.Rate.Timing.{Inv, perform_all, requests-Inv}
use pass_hub.Rate.Allowed.{MayPass, allowed_iff}

abbrev at_ms : ℤ → ClockCall
at_ms n = record { reenters = false; reply = reads n }

abbrev fresh : Ledger
fresh = create fixed_minute_rate_limits

abbrev ask : ℤ → Request
ask n = record { category = login; key = "ann"; call = at_ms n }

abbrev burst : List Request
burst = ask (pos 1) ∷ ask (pos 2) ∷ ask (pos 3) ∷ ask (pos 4) ∷ ask (pos 5) ∷ []

-- The sixth login of a key in a minute is refused, the first of the next minute is not.
burst_test :
    ((allow (perform_all fresh burst) login "ann" (at_ms (pos 59999))).1 ≡ rate_limited)
    × ((allow (perform_all fresh burst) login "ann" (at_ms (pos 60000))).1 ≡ allowed)
unfolding perform_all allow allow_in create read_guarded_clock enter_minute count_request lookup
    insert String-discrete
burst_test = (refl, refl)

minute_limits_example :
    (admitted_by fresh login "ann" 0 burst ≤ 5) × (admitted_in_all fresh login 0 burst ≤ 20)
unfolding create
minute_limits_example = minute_limits fixed_minute_rate_limits login "ann" 0 burst

requests-Inv_example : Inv (perform_all fresh burst)
requests-Inv_example = requests-Inv fixed_minute_rate_limits burst

trusted : IsTrusted fresh.guard (at_ms (pos 7)) 7
unfolding create
trusted = record { direct = refl; reply = refl; safe = omega arith; forward = λ last e. cc }

allowed_iff_example :
    ((allow fresh login "ann" (at_ms (pos 7))).1 ≡ allowed) ↔ MayPass (select fresh login) "ann" 0
unfolding create
allowed_iff_example =
    allowed_iff fresh login "ann" (at_ms (pos 7)) 7 refl refl refl (tt, tt, tt, tt) trusted

untrusted : (now : ℕ) → ¬ IsTrusted fresh.guard (at_ms (negsuc 0)) now
untrusted now t = ground (arith, t.reply)

abbrev broken : Ledger
broken = (allow fresh login "ann" (at_ms (negsuc 0))).0

untrusted_freezes_example :
    (broken.guard.frozen ≡ true)
    × ((allow fresh login "ann" (at_ms (negsuc 0))).1 ≡ throws clock_failure)
    × ((d : Category) → select broken d ≡ select fresh d)
    × ((rs : List Request) → perform_all broken rs ≡ broken)
    × ((rs : List Request) (d : Category) (k : String) (later : ClockCall)
        → allow (perform_all broken rs) d k later
          ≡ (perform_all broken rs, throws rate_limiter_frozen))
unfolding create
untrusted_freezes_example =
    untrusted_freezes fresh login "ann" (at_ms (negsuc 0)) refl refl refl untrusted
