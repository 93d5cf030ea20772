-- ===== src/Registry/Refinement.antt =====
-- The registry against the lifecycle of each key, over any calls.
use pass_hub.Base.{true, false, Option, some, List, ◌≡◌, refl, sym, ap, ◌∙◌, lookup, lookup-insert}
use mathlib.Core.Path.{subst}
use mathlib.Core.Logic.{ite}
use pass_hub.Registry.{
  EventKey, EventKey-discrete, Entry, new_entry, Setup, Registry, Replies, find_entry, put_entry,
}
use pass_hub.Registry.Calls.{Call, run}
use pass_hub.Registry.Lifecycle.{
  is_live, Moves, loses_result, is_authorized, continues, finishes, Reaches, stays, begins, moves,
}
use pass_hub.Registry.Kept.{Closed}
use pass_hub.Registry.Kept.Runs.{run-keeps}

-- What holds at one key after its entry is put there, and did at the others before.
at_key :
    (B : Option Entry → Type 0) (key k : EventKey) (entry : Entry) (r : Registry)
    → (key ≡ k → B (some entry))
    → B (find_entry k r)
    → B (find_entry k (put_entry key entry r))
at_key B key k entry r h p =
    subst B (sym (lookup-insert EventKey-discrete key k entry r.entries))
      (from (EventKey-discrete key k))
  where
    from : (d : Dec (key ≡ k)) → B (ite d (some entry) (lookup EventKey-discrete k r.entries))
    from (yes e) = h e
    from (no n) = p

Reaches-IsClosed :
    (c : Setup) (k : EventKey) (from : Option Entry) → Closed c (λ r. Reaches from (find_entry k r))
Reaches-IsClosed c k from = record {
  other = λ r leases permits evidence frozen minted m p. p;
  moved = λ r key a b h m p.
      at_key (Reaches from) key k b r
        (λ e.
          moves a b (subst (Reaches from) h (subst (λ j. Reaches from (find_entry j r)) (sym e) p))
            m refl)
        p;
  added = λ r key a o h room p.
      at_key (Reaches from) key k (new_entry a o) r
        (λ e.
          begins a o (subst (Reaches from) h (subst (λ j. Reaches from (find_entry j r)) (sym e) p))
            refl)
        p;
  redeemed = λ r key a o n h g p.
      at_key (Reaches from) key k (new_entry a o) r
        (λ e.
          begins a o (subst (Reaches from) h (subst (λ j. Reaches from (find_entry j r)) (sym e) p))
            refl)
        p;
  claimed = λ r room p. p;
  released = λ r n g p. p;
}

-- The registry refines the lifecycle of each key: over any calls of its methods, with any leases,
-- permits and reservations and any answers of the callbacks, what the map holds for a key only goes
-- from nothing to a new entry in the state IN_FLIGHT and generation 1, and on by the steps of the
-- lifecycle: to UNKNOWN, to an authorized continuation, from that back to IN_FLIGHT in the next
-- generation, and from IN_FLIGHT or UNKNOWN to a final state with its result.
pub run-Reaches :
    (c : Setup) (r : Registry) (xs : List (Replies × Call)) (key : EventKey)
    → Reaches (find_entry key r) (find_entry key (run c r xs))
run-Reaches c r xs key =
    run-keeps c (λ s. Reaches (find_entry key r) (find_entry key s))
      (Reaches-IsClosed c key (find_entry key r)) xs r (stays refl)

moved-is_live : {x y : Entry} → Moves x y → is_live x.state ≡ true
unfolding is_live
moved-is_live (loses_result s e) = ap is_live s
moved-is_live (is_authorized s t e) = ap is_live s
moved-is_live (continues s t e) = ap is_live s
moved-is_live (finishes end result s t e) = s

Reaches-final :
    {a b : Option Entry} (entry : Entry)
    → a ≡ some entry
    → is_live entry.state ≡ false
    → Reaches a b
    → b ≡ some entry
Reaches-final entry h f (stays e) = sym e ∙ h
Reaches-final entry h f (begins a o before e) = let was = Reaches-final entry h f before in cc
Reaches-final {a = a} entry h f (moves x y before m e) =
    let was = Reaches-final entry h f before in let live = moved-is_live m in cc

-- A final entry is for good: once the entry of a key is CANONICAL or a SAFE_TECHNICAL_TERMINAL, no
-- calls whatever change it, nor its result.
pub finished_is_final :
    (c : Setup) (r : Registry) (xs : List (Replies × Call)) (key : EventKey) (entry : Entry)
    → find_entry key r ≡ some entry
    → is_live entry.state ≡ false
    → find_entry key (run c r xs) ≡ some entry
finished_is_final c r xs key entry h f = Reaches-final entry h f (run-Reaches c r xs key)
