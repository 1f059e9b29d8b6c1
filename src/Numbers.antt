-- ===== src/Numbers.antt =====
-- The interfaces to float64 and to github.com/shopspring/decimal, which the repository does not
-- contain. `F` stands for float64 and `D` for decimal.Decimal.
use Prim.Native.Nat.{Ordering}
use billingrse_backend.Prelude.{ℕ, Bool, Option}
use billingrse_backend.GoText.{Text}

pub record Floats (F : Type 0) : Type 0 where
  pub zero_float : F
  -- math.IsNaN, math.IsInf(_, 0), the test `amount <= 0`, and strconv.FormatFloat(_, 'f', -1, 64).
  pub is_nan : F → Bool
  pub is_inf : F → Bool
  pub le_zero : F → Bool
  pub format_float : F → Text

-- Arithmetic on float64: a literal by its decimal text, math.Abs, math.Round, `-`, `*` and `>`.
pub record FloatMath (F : Type 0) : Type 0 where
  pub literal : Text → F
  pub abs : F → F
  pub round_float : F → F
  pub minus : F → F → F
  pub times : F → F → F
  pub gt : F → F → Bool

pub record Decimals (D : Type 0) : Type 0 where
  -- decimal.NewFromString (`none` is its error), decimal.Zero, Cmp, Equal and Round.
  pub new_from_string : Text → Option D
  pub zero_decimal : D
  pub cmp : D → D → Ordering
  pub equal : D → D → Bool
  pub round : D → ℕ → D
