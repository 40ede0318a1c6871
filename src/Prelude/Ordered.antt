-- ===== src/Prelude/Ordered.antt =====
-- A `BTreeSet` as a list in ascending order, for an element type whose order is that of a number.
pub mod Laws
use Prim.Native.Nat.{ℕ, ◌<◌}
use mathlib.Core.Bool.{Bool, false, ◌||◌}
use mathlib.Core.List.{List, [], ◌∷◌}
use roblox.Prelude.Tests.{ltb, ◌==◌, if◌then◌else◌}

module _ {ℓ} {A : Type ℓ} (rank : A → ℕ) where
  -- `BTreeSet::insert`, which keeps an element that is there.
  unfoldable pub insert : A → List A → List A
  insert a [] = a ∷ []
  insert a (x ∷ xs) =
      if ltb (rank a) (rank x)
      then a ∷ x ∷ xs
      else if rank a == rank x
      then x ∷ xs
      else x ∷ insert a xs

  unfoldable pub remove : A → List A → List A
  remove a [] = []
  remove a (x ∷ xs) = if rank a == rank x then xs else x ∷ remove a xs

  unfoldable pub contains : A → List A → Bool
  contains a [] = false
  contains a (x ∷ xs) = rank a == rank x || contains a xs

  -- Ascending, all above `n`.
  abbrev pub Above : ℕ → List A → Type 0
  Above n [] = Unit
  Above n (x ∷ xs) = (n < rank x) × Above (rank x) xs

  -- Strictly ascending.
  abbrev pub IsOrdered : List A → Type 0
  IsOrdered [] = Unit
  IsOrdered (x ∷ xs) = Above (rank x) xs
