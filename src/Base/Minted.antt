-- ===== src/Base/Minted.antt =====
-- Entries whose keys are numbers that are given out one after another.
use Prim.Native.Nat.{ℕ, ◌≤◌, ◌<◌}
use native.Mathlib.Decide.{ℕ_discrete}
use mathlib.Core.Path.{◌≡◌, refl}
use mathlib.Core.Option.{none, some}
use mathlib.Core.List.{[], ◌∷◌}
use native.Mathlib.Omega.{arith}
use pass_hub.Base.Lists.{All}
use pass_hub.Base.Assoc.{Entries, lookup, insert}

module _ {V : Type 0} where
  -- The key was given out before the number that is next.
  abbrev pub IsMinted : ℕ → ℕ × V → Type 0
  IsMinted minted x = x.0 < minted

  pub fresh_lem : (n : ℕ) (m : Entries ℕ V) → All (IsMinted n) m → lookup ℕ_discrete n m ≡ none
  unfolding lookup
  fresh_lem n [] a = refl
  fresh_lem n ((j, b) ∷ m) a = ground (arith, fresh_lem n m a.1, a.0)

  pub IsMinted-weaken :
      (n k : ℕ) (m : Entries ℕ V) → n ≤ k → All (IsMinted n) m → All (IsMinted k) m
  IsMinted-weaken n k [] h a = tt
  IsMinted-weaken n k ((j, b) ∷ m) h a = (omega arith, IsMinted-weaken n k m h a.1)

  pub insert-IsMinted :
      (minted n : ℕ) (b : V) (m : Entries ℕ V)
      → n < minted
      → All (IsMinted minted) m
      → All (IsMinted minted) (insert ℕ_discrete n b m)
  unfolding insert
  insert-IsMinted minted n b [] h a = (h, tt)
  insert-IsMinted minted n b ((j, w) ∷ m) h a =
      ground (arith, insert-IsMinted minted n b m h a.1, h, a.0)

  -- A key that is found was given out.
  pub found_below :
      (minted n : ℕ) (b : V) (m : Entries ℕ V)
      → lookup ℕ_discrete n m ≡ some b
      → All (IsMinted minted) m
      → n < minted
  unfolding lookup
  found_below minted n b [] h a = cc
  found_below minted n b ((j, w) ∷ m) h a = ground (arith, found_below minted n b m, a.0, a.1)
