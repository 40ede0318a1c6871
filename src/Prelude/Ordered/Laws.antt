-- ===== src/Prelude/Ordered/Laws.antt =====
-- Insertion and removal keep the order of a `BTreeSet`, and change what it contains at one element.
use Prim.Native.Nat.{ℕ, ◌<◌}
use mathlib.Core.Path.{◌≡◌}
use mathlib.Core.Bool.{true, false, ◌||◌}
use mathlib.Core.List.{List, [], ◌∷◌}
use native.Mathlib.Omega.{arith}
use roblox.Prelude.Tests.{◌==◌}
use roblox.Prelude.Ordered.{insert, remove, contains, Above, IsOrdered}

module _ {ℓ} {A : Type ℓ} (rank : A → ℕ) where
  Above-lower : (n m : ℕ) (xs : List A) → n < m → Above rank m xs → Above rank n xs
  Above-lower n m [] lt h = tt
  Above-lower n m (x ∷ xs) lt (h, hs) = (omega arith, hs)

  pub Above-IsOrdered : (n : ℕ) (xs : List A) → Above rank n xs → IsOrdered rank xs
  Above-IsOrdered n [] h = tt
  Above-IsOrdered n (x ∷ xs) (h, hs) = hs

  insert-Above :
      (n : ℕ) (a : A) (xs : List A) → n < rank a → Above rank n xs → Above rank n (insert rank a xs)
  unfolding insert
  insert-Above n a [] lt h = (lt, tt)
  insert-Above n a (x ∷ xs) lt (h, hs) = ground (arith, insert-Above (rank x) a xs)

  pub insert-IsOrdered :
      (a : A) (xs : List A) → IsOrdered rank xs → IsOrdered rank (insert rank a xs)
  unfolding insert
  insert-IsOrdered a [] h = tt
  insert-IsOrdered a (x ∷ xs) h = ground (arith, insert-Above (rank x) a xs)

  remove-Above : (n : ℕ) (a : A) (xs : List A) → Above rank n xs → Above rank n (remove rank a xs)
  unfolding remove
  remove-Above n a [] h = tt
  remove-Above n a (x ∷ xs) (h, hs) =
      ground (arith, remove-Above (rank x) a xs hs, Above-lower n (rank x) xs h hs)

  pub remove-IsOrdered :
      (a : A) (xs : List A) → IsOrdered rank xs → IsOrdered rank (remove rank a xs)
  unfolding remove
  remove-IsOrdered a [] h = tt
  remove-IsOrdered a (x ∷ xs) h =
      ground (arith, remove-Above (rank x) a xs h, Above-IsOrdered (rank x) xs h)

  -- The first element stands nowhere else.
  pub contains-Above :
      (n : ℕ) (a : A) (xs : List A) → Above rank n xs → contains rank a xs ≡ true → n < rank a
  unfolding contains
  contains-Above n a [] h c = cc
  contains-Above n a (x ∷ xs) (h, hs) c = ground (arith, contains-Above (rank x) a xs hs)

  pub contains-insert :
      (a x : A) (xs : List A)
      → contains rank a (insert rank x xs) ≡ true
      → (rank a == rank x || contains rank a xs) ≡ true
  unfolding contains insert
  contains-insert a x [] h = h
  contains-insert a x (y ∷ ys) h = ground (arith, contains-insert a x ys)

  pub contains-remove :
      (a x : A) (xs : List A)
      → IsOrdered rank xs
      → contains rank a (remove rank x xs) ≡ true
      → ((rank a == rank x) ≡ false) × (contains rank a xs ≡ true)
  unfolding contains remove
  contains-remove a x [] o h = cc
  contains-remove a x (y ∷ ys) o h = ground (
    arith,
    contains-remove a x ys (Above-IsOrdered (rank y) ys o),
    contains-Above (rank y) a ys o,
  )
