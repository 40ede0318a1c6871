-- ===== src/Prelude/Double.antt =====
-- `f64` as far as the program compares it: a finite value is its number of units of 2^-1074, so
-- comparisons are exact.
use Prim.Native.Nat.{ℕ, ◌*◌, ◌^◌}
use mathlib.Core.Bool.{Bool, true, false}
use roblox.Prelude.Tests.{ltb, if◌then◌else◌}

-- `above n` is n units, both zeros being `above 0`; `below n` is -(n + 1) units.
pub data F64 : Type 0 where
  nan neg_infinity infinity : F64
  below above : ℕ → F64

-- A whole number.
abbrev pub whole : ℕ → F64
whole n = above (n * 2 ^ 1074)

-- `f64::is_finite`
abbrev pub is_finite : F64 → Bool
is_finite (below n) = true
is_finite (above n) = true
is_finite _ = false

-- `<` on values that are not NaN; with NaN on either side it is false.
abbrev pub less : F64 → F64 → Bool
less nan y = false
less x nan = false
less neg_infinity neg_infinity = false
less neg_infinity y = true
less infinity y = false
less (below m) neg_infinity = false
less (below m) infinity = true
less (below m) (below n) = ltb n m
less (below m) (above n) = true
less (above m) infinity = true
less (above m) (above n) = ltb m n
less (above m) _ = false

-- `f64::clamp`: `if x < low { x = low }`, then `if x > high { x = high }`.
abbrev pub clamp : F64 → F64 → F64 → F64
clamp low high x = let y = if less x low then low else x in if less high y then high else y
