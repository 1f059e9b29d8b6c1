-- ===== src/Prelude/Integers.antt =====
-- Go's int, on the native numbers: `negsuc n` is -(n + 1).
use Prim.Native.Nat.{ℕ, zero, suc, ◌+◌}
use mathlib.Core.Bool.{Bool, true, false}

pub data ℤ : Type 0 where
  pos negsuc : ℕ → ℤ

-- `z + n` for a number n that is not negative.
abbrev pub plus_nat : ℤ → ℕ → ℤ
plus_nat (pos m) n = pos (m + n)
plus_nat (negsuc m) zero = negsuc m
plus_nat (negsuc zero) (suc n) = pos n
plus_nat (negsuc (suc m)) (suc n) = plus_nat (negsuc m) n

-- `z < 0`.
abbrev pub is_negative : ℤ → Bool
is_negative (pos m) = false
is_negative (negsuc m) = true
