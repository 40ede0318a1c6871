-- ===== src/Prelude/Float.antt =====
-- `f32` as far as the program compares it. Every finite `f32` is a whole number of units of
-- 2^-149, so a finite value is kept as that number: comparisons are exact.
use Prim.Native.Nat.{ℕ, zero, suc, ◌+◌, ◌-◌, ◌*◌, ◌/◌, ◌%◌, ◌^◌}
use mathlib.Core.Bool.{Bool, true, false, ◌&&◌, ◌||◌}
use roblox.Prelude.Tests.{ltb, leb, ◌==◌, if◌then◌else◌}

-- `above n` is n units, both zeros being `above 0`; `below n` is -(n + 1) units.
pub data F32 : Type 0 where
  nan neg_infinity infinity : F32
  below above : ℕ → F32

abbrev pub is_finite : F32 → Bool
is_finite (below n) = true
is_finite (above n) = true
is_finite _ = false

infix 50 ◌<=◌
-- `<=`, which is false at NaN on either side.
abbrev pub ◌<=◌ : F32 → F32 → Bool
nan <= y = false
neg_infinity <= nan = false
neg_infinity <= y = true
infinity <= infinity = true
infinity <= y = false
below m <= nan = false
below m <= neg_infinity = false
below m <= infinity = true
below m <= below n = leb n m
below m <= above n = true
above m <= nan = false
above m <= neg_infinity = false
above m <= infinity = true
above m <= below n = false
above m <= above n = leb m n

-- `<`, which is false at NaN on either side.
abbrev pub f_lt : F32 → F32 → Bool
f_lt nan y = false
f_lt x nan = false
f_lt x y = if y <= x then false else true

-- `(low..=high).contains(&x)`
abbrev pub in_range : F32 → F32 → F32 → Bool
in_range low high x = low <= x && x <= high

-- `f32::clamp`: `if x < low { x = low }`, then `if x > high { x = high }`. NaN stays NaN.
abbrev pub clamp : F32 → F32 → F32 → F32
clamp low high x = let y = if f_lt x low then low else x in if f_lt high y then high else y

abbrev pub f_zero : F32
f_zero = above 0

-- 1.0
abbrev pub f_one : F32
f_one = above (2 ^ 149)

-- How many binary digits of `n` lie beyond the 24 that an `f32` keeps.
spare_bits : (fuel : ℕ) → ℕ → ℕ
spare_bits zero n = 0
spare_bits (suc fuel) n =
    let rest = spare_bits fuel (n / 2) in if ltb n (2 ^ 24) then 0 else suc rest

-- To the nearest multiple of `step`, ties to the even one.
round_even : ℕ → ℕ → ℕ
round_even step n =
    let q = n / step in
    let twice = 2 * (n % step) in
    if ltb step twice || (twice == step && q % 2 == 1) then (q + 1) * step else q * step

-- A magnitude as the program can keep it: 2^277 units is 2^128, the first value out of range.
unfoldable pub rounded : Bool → ℕ → F32
unfolding spare_bits round_even
rounded negative n =
    let m = round_even (2 ^ spare_bits 300 n) n in
    if leb (2 ^ 277) m
    then (if negative then neg_infinity else infinity)
    else if negative && ltb 0 m
    then below (m - 1)
    else above m

-- `+`
unfoldable pub f_add : F32 → F32 → F32
unfolding rounded
f_add nan y = nan
f_add x nan = nan
f_add infinity neg_infinity = nan
f_add neg_infinity infinity = nan
f_add infinity y = infinity
f_add neg_infinity y = neg_infinity
f_add x infinity = infinity
f_add x neg_infinity = neg_infinity
f_add (below m) (below n) = rounded true (suc m + suc n)
f_add (above m) (above n) = rounded false (m + n)
f_add (below m) (above n) =
    if ltb n (suc m) then rounded true (suc m - n) else rounded false (n - suc m)
f_add (above m) (below n) =
    if ltb m (suc n) then rounded true (suc n - m) else rounded false (m - suc n)

-- The quotient of two numbers of units, as the program can keep it.
unfoldable pub rounded_ratio : Bool → ℕ → ℕ → F32
unfolding rounded spare_bits round_even
rounded_ratio negative n d =
    let step = 2 ^ spare_bits 300 (n / d) in rounded negative (round_even (step * d) n / d)

-- `f32::from` of a `u16`.
abbrev pub from_u16 : ℕ → F32
from_u16 n = above (n * 2 ^ 149)

-- `x / f32::from(n)` for a positive `u16`.
unfoldable pub f_over : F32 → ℕ → F32
unfolding rounded_ratio
f_over (above m) n = rounded_ratio false m n
f_over (below m) n = rounded_ratio true (suc m) n
f_over x n = x

-- The constant nearest to n / d.
unfoldable pub f_constant : ℕ → ℕ → F32
unfolding rounded_ratio
f_constant n d = rounded_ratio false (n * 2 ^ 149) d

-- `-`
abbrev pub f_neg : F32 → F32
f_neg nan = nan
f_neg infinity = neg_infinity
f_neg neg_infinity = infinity
f_neg (below n) = above (suc n)
f_neg (above n) = if n == 0 then above 0 else below (n - 1)

unfoldable pub f_sub : F32 → F32 → F32
unfolding f_add
f_sub x y = f_add x (f_neg y)

-- `*` of two finite values.
unfoldable pub f_mul_finite : Bool → ℕ → ℕ → F32
unfolding rounded_ratio
f_mul_finite negative m n = rounded_ratio negative (m * n) (2 ^ 149)

-- The sign and the magnitude of an infinite product.
abbrev f_mul_infinite : Bool → F32 → F32
f_mul_infinite negative nan = nan
f_mul_infinite negative infinity = if negative then neg_infinity else infinity
f_mul_infinite negative neg_infinity = if negative then infinity else neg_infinity
f_mul_infinite negative (below n) = if negative then infinity else neg_infinity
f_mul_infinite negative (above n) =
    if n == 0 then nan else if negative then neg_infinity else infinity

-- `*`
unfoldable pub f_mul : F32 → F32 → F32
unfolding f_mul_finite
f_mul nan y = nan
f_mul infinity y = f_mul_infinite false y
f_mul neg_infinity y = f_mul_infinite true y
f_mul (above m) (above n) = f_mul_finite false m n
f_mul (above m) (below n) = f_mul_finite true m (suc n)
f_mul (below m) (above n) = f_mul_finite true (suc m) n
f_mul (below m) (below n) = f_mul_finite false (suc m) (suc n)
f_mul (above m) nan = nan
f_mul (above m) infinity = f_mul_infinite false (above m)
f_mul (above m) neg_infinity = f_mul_infinite true (above m)
f_mul (below m) nan = nan
f_mul (below m) infinity = f_mul_infinite false (below m)
f_mul (below m) neg_infinity = f_mul_infinite true (below m)
