-- ===== src/Prelude/Int.antt =====
-- Rust's signed integers, as far as the program compares them.
use Prim.Native.Nat.{ℕ, suc, ◌+◌}
use mathlib.Core.Bool.{Bool, false}
use roblox.Prelude.Tests.{leb, ◌==◌}

-- `negsuc n` is -(n + 1).
pub data ℤ : Type 0 where
  pos negsuc : ℕ → ℤ

abbrev pub above_zero : ℤ → ℕ
above_zero (pos n) = n
above_zero (negsuc n) = 0

abbrev pub below_zero : ℤ → ℕ
below_zero (pos n) = 0
below_zero (negsuc n) = suc n

-- `a + i64::from(n) <= b`, `a <= b + i64::from(n)` and so on: both sides plus a natural number.
abbrev pub leℤ : ℤ → ℕ → ℤ → ℕ → Bool
leℤ a m b n = leb (above_zero a + m + below_zero b) (above_zero b + n + below_zero a)

abbrev pub eqℤ : ℤ → ℤ → Bool
eqℤ (pos m) (pos n) = m == n
eqℤ (negsuc m) (negsuc n) = m == n
eqℤ _ _ = false
