-- ===== src/Registry/Capacity.antt =====
-- The counters of the registry: what they count, and the capacity.
use pass_hub.Base.{
  ℕ, suc, ◌+◌, ◌≤◌, Bool, true, false, Option, none, some, List, [], ◌∷◌, ◌≡◌, refl, arith, lookup,
  insert, length-insert, ℕ_discrete, Entries, length, All, IsMinted, IsMinted-weaken,
  insert-IsMinted, fresh_lem, found_below, if◌then◌else◌,
}
use pass_hub.Registry.{
  EventKey, EventKey-discrete, Entry, new_entry, Setup, Registry, Replies, create, find_entry,
  put_entry,
}
use pass_hub.Registry.Calls.{Call, run}
use pass_hub.Registry.Kept.{Closed}
use pass_hub.Registry.Kept.Runs.{run-keeps}

abbrev one_if : Bool → ℕ
one_if b = if b then 1 else 0

abbrev one_if_some : Option Bool → ℕ
one_if_some none = 0
one_if_some (some b) = one_if b

-- The reservations that are neither released nor redeemed.
unfoldable pub active_count : Entries ℕ Bool → ℕ
active_count [] = 0
active_count ((n, active) ∷ rest) = one_if active + active_count rest

-- The counters are the numbers of entries and of active reservations, together within the capacity.
unfoldable pub IsWithinCapacity : Setup → Registry → Type 0
unfolding active_count
IsWithinCapacity c r =
    (r.size + r.reserved ≤ c.capacity)
    × (r.size ≡ length r.entries)
    × (r.reserved ≡ active_count r.reservations)

Holds : Setup → Registry → Type 0
unfolding IsWithinCapacity
Holds c r = IsWithinCapacity c r × All (IsMinted r.minted) r.reservations

active_count-insert :
    (n : ℕ) (b : Bool) (m : Entries ℕ Bool)
    → active_count (insert ℕ_discrete n b m) + one_if_some (lookup ℕ_discrete n m)
      ≡ active_count m + one_if b
unfolding active_count insert lookup
active_count-insert n b [] = omega arith
active_count-insert n b ((j, a) ∷ m) = ground (arith, active_count-insert n b m)

length-put :
    (key : EventKey) (b : Entry) (r : Registry) (o : Option Entry)
    → find_entry key r ≡ o
    → length (put_entry key b r).entries
      ≡ elim o [ none ↦ suc (length r.entries) | some _ ↦ length r.entries ]
length-put key b r o h = elim-transport (length-insert EventKey-discrete key b r.entries) h
  where
    elim-transport :
        {n : ℕ} {p q : Option Entry}
        → n ≡ elim p [ none ↦ suc (length r.entries) | some _ ↦ length r.entries ]
        → p ≡ q
        → n ≡ elim q [ none ↦ suc (length r.entries) | some _ ↦ length r.entries ]
    elim-transport e f = ground (arith, e, f)

Holds-IsClosed : (c : Setup) → Closed c (Holds c)
unfolding Holds IsWithinCapacity
Holds-IsClosed c = record {
  other = λ r leases permits evidence frozen minted m p.
      (p.0, IsMinted-weaken r.minted minted r.reservations m p.1);
  moved = λ r key a b h m p.
      let l = length-put key b r (some a) h in ((p.0.0, omega (arith, l, p), p.0.2), p.1);
  added = λ r key a o h room p.
      let l = length-put key (new_entry a o) r none h in
      ((omega (arith, room), omega (arith, l, p), p.0.2), p.1);
  redeemed = λ r key a o n h g p.
      let l = length-put key (new_entry a o) r none h in
      let counts = released_counts r n g in
      (
        (omega (arith, counts, p), omega (arith, l, p), omega (arith, counts, p)),
        insert-IsMinted r.minted n false r.reservations
            (found_below r.minted n true r.reservations g p.1) p.1,
      );
  claimed = λ r room p. (
    (omega (arith, room), p.0.1, omega (arith, claimed_counts r p.1, p)),
    insert-IsMinted (r.minted + 1) r.minted true r.reservations (omega arith)
        (IsMinted-weaken r.minted (r.minted + 1) r.reservations (omega arith) p.1),
  );
  released = λ r n g p.
      let counts = released_counts r n g in
      (
        (omega (arith, counts, p), p.0.1, omega (arith, counts, p)),
        insert-IsMinted r.minted n false r.reservations
            (found_below r.minted n true r.reservations g p.1) p.1,
      );
}
  where
    released_counts :
        (r : Registry) (n : ℕ)
        → lookup ℕ_discrete n r.reservations ≡ some true
        → active_count (insert ℕ_discrete n false r.reservations) + 1 ≡ active_count r.reservations
    released_counts r n g = ground (arith, active_count-insert n false r.reservations)

    claimed_counts :
        (r : Registry)
        → All (IsMinted r.minted) r.reservations
        → active_count (insert ℕ_discrete r.minted true r.reservations)
          ≡ active_count r.reservations + 1
    claimed_counts r a = ground (
      arith,
      active_count-insert r.minted true r.reservations,
      fresh_lem r.minted r.reservations a,
    )

-- After any calls of the methods of a new registry, its `size` is the number of its entries and its
-- `reserved` that of the reservations that are active, and both together are at most its capacity.
pub run-IsWithinCapacity :
    (c : Setup) (xs : List (Replies × Call)) → IsWithinCapacity c (run c create xs)
unfolding Holds create IsWithinCapacity
run-IsWithinCapacity c xs =
    (run-keeps c (Holds c) (Holds-IsClosed c) xs create ((omega arith, refl, refl), tt)).0
