-- ===== src/Base/Assoc.antt =====
-- A JavaScript `Map`, as the list of its entries in the order of insertion.
use Prim.Native.Nat.{suc}
use mathlib.Core.Path.{◌≡◌, refl, subst}
use mathlib.Core.Logic.{◌≢◌, ite}
use mathlib.Core.Option.{Option, none, some}
use mathlib.Core.List.{List, [], ◌∷◌}
use native.Mathlib.Omega.{arith}
use pass_hub.Base.Lists.{length, All}

abbrev pub Entries : Type 0 → Type 0 → Type 0
Entries K V = List (K × V)

pair_eq : {K V : Type 0} (i k : K) (w v : V) → i ≡ k → w ≡ v → ◌≡◌ {A = K × V} (i, w) (k, v)
pair_eq i k w v p q = λ j. (p j, q j)

module _ {K V : Type 0} (same : Discrete K) where
  unfoldable pub lookup : K → Entries K V → Option V
  lookup k [] = none
  lookup k ((j, v) ∷ m) = ite (same j k) (some v) (lookup k m)

  -- `set` of a `Map`: an old key keeps its place, a new one goes to the end.
  unfoldable pub insert : K → V → Entries K V → Entries K V
  insert k v [] = (k, v) ∷ []
  insert k v ((j, w) ∷ m) = ite (same j k) ((j, v) ∷ m) ((j, w) ∷ insert k v m)

  unfoldable pub delete : K → Entries K V → Entries K V
  delete k [] = []
  delete k ((j, w) ∷ m) = ite (same j k) m ((j, w) ∷ delete k m)

  pub lookup-insert :
      (k j : K) (v : V) (m : Entries K V)
      → lookup j (insert k v m) ≡ ite (same k j) (some v) (lookup j m)
  unfolding lookup insert
  lookup-insert k j v [] = refl
  lookup-insert k j v ((i, w) ∷ m) = ground (arith, lookup-insert k j v m)

  pub lookup-insert_self : (k : K) (v : V) (m : Entries K V) → lookup k (insert k v m) ≡ some v
  unfolding lookup insert
  lookup-insert_self k v [] = ground arith
  lookup-insert_self k v ((i, w) ∷ m) = ground (arith, lookup-insert_self k v m)

  pub lookup-insert_ne :
      (k j : K) (v : V) (m : Entries K V) → k ≢ j → lookup j (insert k v m) ≡ lookup j m
  unfolding lookup insert
  lookup-insert_ne k j v [] h = ground arith
  lookup-insert_ne k j v ((i, w) ∷ m) h = ground (arith, lookup-insert_ne k j v m)

  -- An insertion adds an entry exactly for a new key.
  pub length-insert :
      (k : K) (v : V) (m : Entries K V)
      → length (insert k v m) ≡ elim (lookup k m) [ none ↦ suc (length m) | some _ ↦ length m ]
  unfolding lookup insert
  length-insert k v [] = refl
  length-insert k v ((i, w) ∷ m) = ground (arith, length-insert k v m)

  pub insert-All :
      (P : K × V → Type 0) (k : K) (v : V) (m : Entries K V)
      → ((j : K) → P (j, v))
      → All P m
      → All P (insert k v m)
  unfolding insert
  insert-All P k v [] h a = (h k, tt)
  insert-All P k v ((i, w) ∷ m) h a = ground (arith, insert-All P k v m h a.1, h i)

  -- What holds of all entries holds of one that is found.
  pub lookup-All :
      (P : K × V → Type 0) (k : K) (v : V) (m : Entries K V)
      → All P m
      → lookup k m ≡ some v
      → P (k, v)
  unfolding lookup
  lookup-All P k v [] a e = cc
  lookup-All P k v ((i, w) ∷ m) a e = elim (same i k) [
    | yes p ↦ subst P (pair_eq i k w v p (ground arith)) a.0
    | no n ↦ lookup-All P k v m a.1 (ground arith)
  ]
