-- ===== src/GoText/Decimal.antt =====
-- fmt.Sprint on an unsigned integer: its decimal digits. A uint is below 2 ^ 64, so that twenty
-- digits are enough.
use native.Mathlib.Omega.{pow_step}
use billingrse_backend.Prelude.{
  ℕ, zero, suc, ◌+◌, ◌-◌, ◌*◌, ◌/◌, ◌%◌, ◌^◌, ◌<◌, ◌≡◌, refl, [], ◌∷◌, ◌++◌, ltb, if◌then◌else◌,
  arith, Bool-cases, inl, inr,
}
use billingrse_backend.GoText.{Text}

-- The last `digits` decimal digits of a number, without leading zeros.
unfoldable pub decimal_digits : ℕ → ℕ → Text
decimal_digits zero n = []
decimal_digits (suc digits) n =
    let rest = decimal_digits digits (n / 10) in
    if ltb n 10 then (b'0' + n) ∷ [] else rest ++ ((b'0' + n % 10) ∷ [])

unfoldable pub sprint_uint : ℕ → Text
sprint_uint n = decimal_digits 20 n

-- Reading decimal digits, from the left.
unfoldable pub read_decimal : ℕ → Text → ℕ
read_decimal n [] = n
read_decimal n (c ∷ s) = read_decimal (10 * n + (c - b'0')) s

read_decimal-append :
    (n : ℕ) (s t : Text) → read_decimal n (s ++ t) ≡ read_decimal (read_decimal n s) t
unfolding read_decimal
read_decimal-append n [] t = refl
read_decimal-append n (c ∷ s) t = read_decimal-append (10 * n + (c - b'0')) s t

tenth : (n bound : ℕ) → n < 10 * bound → n / 10 < bound
tenth n bound h = omega (arith, h)

shorter : (digits n : ℕ) → n < 10 ^ suc digits → n / 10 < 10 ^ digits
shorter digits n h = tenth n (10 ^ digits) (omega (arith, h, pow_step 10 digits))

read_decimal-decimal_digits :
    (digits n : ℕ) → n < 10 ^ digits → read_decimal 0 (decimal_digits digits n) ≡ n
unfolding read_decimal decimal_digits
read_decimal-decimal_digits zero n h = omega (arith, h)
read_decimal-decimal_digits (suc digits) n h = elim (Bool-cases (ltb n 10)) [
  | inl small ↦ rw small (ground arith)
  | inr large ↦
      rw
        (
          large,
          read_decimal-append,
          read_decimal-decimal_digits digits (n / 10) (shorter digits n h),
        )
        (ground arith)
]

-- Reading the decimal digits of a 64-bit number returns it.
pub read_decimal-sprint_uint : (n : ℕ) → n < 2 ^ 64 → read_decimal 0 (sprint_uint n) ≡ n
unfolding sprint_uint
read_decimal-sprint_uint n h = read_decimal-decimal_digits 20 n (omega (arith, h))
