-- ===== src/Examples/Instances.antt =====
-- Concrete case tables and numbers for the examples: a float64 is a decimal literal without a
-- fraction, a decimal.Decimal a number of thousandths.
use Prim.Native.Nat.{compare}
use billingrse_backend.Prelude.{
  ℕ, ◌+◌, ◌-◌, ◌*◌, ◌/◌, ◌^◌, ◌≡◌, refl, ◌&&◌, not, none, some, [], ◌∷◌, is_empty, all, ◌==◌,
  if◌then◌else◌, arith,
}
use billingrse_backend.GoText.{Text, txt, eq_text, is_space, ascii_upper, ascii_lower, CaseTable}
use billingrse_backend.Numbers.{Floats, Decimals}
use billingrse_backend.Domain.InvoiceNumber.{is_digit}

pub is_space-ascii_upper : (c : ℕ) → is_space (ascii_upper c) ≡ is_space c
unfolding is_space
is_space-ascii_upper c = ground arith

pub is_space-ascii_lower : (c : ℕ) → is_space (ascii_lower c) ≡ is_space c
unfolding is_space
is_space-ascii_lower c = ground arith

pub ascii_upper_idem : (c : ℕ) → ascii_upper (ascii_upper c) ≡ ascii_upper c
ascii_upper_idem c = ground arith

pub ascii_lower_idem : (c : ℕ) → ascii_lower (ascii_lower c) ≡ ascii_lower c
ascii_lower_idem c = ground arith

instance abbrev pub ascii_table : CaseTable
ascii_table = record {
  upper = ascii_upper;
  lower = ascii_lower;
  upper_ascii = λ c h. refl;
  lower_ascii = λ c h. refl;
  upper_idem = ascii_upper_idem;
  lower_idem = ascii_lower_idem;
  is_space-upper = is_space-ascii_upper;
  is_space-lower = is_space-ascii_lower;
}

abbrev pub number_from : ℕ → Text → ℕ
number_from n [] = n
number_from n (c ∷ s) = number_from (10 * n + (c - b'0')) s

instance abbrev pub literal_floats : Floats Text
literal_floats = record {
  zero_float = txt "0";
  is_nan = λ f. eq_text f (txt "NaN");
  is_inf = λ f. eq_text f (txt "+Inf");
  le_zero = λ f. number_from 0 f == 0;
  format_float = λ f. f;
}

abbrev pub unit_of : ℕ → ℕ
unit_of places = 10 ^ (3 - places)

instance abbrev pub thousandths : Decimals ℕ
thousandths = record {
  new_from_string =
      λ s. if not (is_empty s) && all is_digit s then some (1000 * number_from 0 s) else none;
  zero_decimal = 0;
  cmp = compare;
  equal = λ d e. d == e;
  round = λ d places. (d + unit_of places / 2) / unit_of places * unit_of places;
}
