-- ===== src/Domain/Money.antt =====
-- internal/common/domain/money.go.
pub mod Currency
use Prim.Native.Nat.{Ordering}
use billingrse_backend.Prelude.{
  ℕ, Bool, true, false, not, ◌&&◌, ◌||◌, Option, none, some, Outcome, ok, err, ◌>>=◌, ◌>>◌, fail_if,
  is_empty, all, leb, ◌==◌,
}
use billingrse_backend.GoText.{Text, txt, trim_space, to_upper, byte_length, eq_text, CaseTable}
use billingrse_backend.Numbers.{Floats, Decimals}
use billingrse_backend.Domain.Errors.{
  Result, money_amount_invalid, money_amount_scale_invalid, money_currency_empty,
  money_currency_invalid,
}

pub record Money (D : Type 0) : Type 0 where
  pub amount : D
  pub currency : Text

abbrev pub jpy : Text
jpy = txt "JPY"

abbrev pub usd : Text
usd = txt "USD"

abbrev pub is_capital : ℕ → Bool
is_capital c = leb b'A' c && leb c b'Z'

module _ ⦃table : CaseTable⦄ where
  unfoldable pub normalize_currency : Text → Result Text
  normalize_currency currency = do
    let trimmed = trim_space currency
    fail_if (is_empty trimmed) money_currency_empty
    let upper = to_upper trimmed
    fail_if (not (byte_length upper == 3)) money_currency_invalid
    fail_if (not (all is_capital upper)) money_currency_invalid
    fail_if (not (eq_text upper jpy) && not (eq_text upper usd)) money_currency_invalid
    ok upper

-- `Cmp(zero) <= 0`.
abbrev pub is_le_zero : Ordering → Bool
is_le_zero Ordering.gt = false
is_le_zero _ = true

module _ {D : Type 0} ⦃dec : Decimals D⦄ where
  unfoldable pub normalize_amount_decimal : D → Result D
  normalize_amount_decimal amount = do
    fail_if (is_le_zero (dec.cmp amount dec.zero_decimal)) money_amount_invalid
    fail_if (not (dec.equal amount (dec.round amount 3))) money_amount_scale_invalid
    ok amount

  abbrev pub parsed_or_invalid : Option D → Result D
  parsed_or_invalid none = err money_amount_invalid
  parsed_or_invalid (some parsed) = ok parsed

module _ {F D : Type 0} ⦃fl : Floats F⦄ ⦃dec : Decimals D⦄ where
  unfoldable pub normalize_amount : F → Result D
  normalize_amount amount = do
    fail_if (fl.is_nan amount || fl.is_inf amount) money_amount_invalid
    fail_if (fl.le_zero amount) money_amount_invalid
    parsed ← parsed_or_invalid (dec.new_from_string (fl.format_float amount))
    normalize_amount_decimal parsed

module _ {F D : Type 0} ⦃fl : Floats F⦄ ⦃dec : Decimals D⦄ ⦃table : CaseTable⦄ where
  unfoldable pub new_money : F → Text → Result (Money D)
  new_money amount currency = do
    normalized_amount ← normalize_amount amount
    normalized_currency ← normalize_currency currency
    ok (record { amount = normalized_amount; currency = normalized_currency })

module _ {D : Type 0} ⦃dec : Decimals D⦄ ⦃table : CaseTable⦄ where
  -- Money.Validate.
  unfoldable pub validate : Money D → Result (Unit {0})
  validate m = do _ ← normalize_amount_decimal m.amount; _ ← normalize_currency m.currency; ok tt
