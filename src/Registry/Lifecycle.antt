-- ===== src/Registry/Lifecycle.antt =====
-- The lifecycle of one key, told apart from leases, permits and counters.
use pass_hub.Base.{ℕ, ◌+◌, Bool, true, false, Option, none, some, ◌≡◌}
use pass_hub.Registry.{
  EntryState, in_flight, unknown, canonical, safe_technical_terminal, Entry, new_entry,
}

unfoldable pub is_live : EntryState → Bool
is_live in_flight = true
is_live unknown = true
is_live canonical = false
is_live safe_technical_terminal = false

-- One step of an entry: the settlement of its operation, in whichever way.
pub data Moves (a b : Entry) : Type 0 where
  loses_result :
      a.state ≡ in_flight
      → b ≡ record a { state = unknown; continuation_authorized = false }
      → Moves a b
  is_authorized :
      a.state ≡ unknown
      → a.continuation_authorized ≡ false
      → b ≡ record a { continuation_authorized = true }
      → Moves a b
  continues :
      a.state ≡ unknown
      → a.continuation_authorized ≡ true
      → b ≡ record a {
        continuation_authorized = false;
        generation = a.generation + 1;
        state = in_flight;
      }
      → Moves a b
  finishes :
      (end : EntryState) (result : ℕ)
      → is_live a.state ≡ true
      → is_live end ≡ false
      → b
        ≡ record a { continuation_authorized = false; result_reference = some result; state = end }
      → Moves a b

-- What a key goes through: nothing, a registration, and then steps of its entry.
pub data Reaches : Option Entry → Option Entry → Type 0 where
  stays : {a b : Option Entry} → a ≡ b → Reaches a b
  begins :
      {a b : Option Entry} (artifact observation : ℕ)
      → Reaches a none
      → b ≡ some (new_entry artifact observation)
      → Reaches a b
  moves :
      {a b : Option Entry} (x y : Entry) → Reaches a (some x) → Moves x y → b ≡ some y → Reaches a b
