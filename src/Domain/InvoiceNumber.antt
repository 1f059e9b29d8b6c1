-- ===== src/Domain/InvoiceNumber.antt =====
-- internal/common/domain/invoice_number.go.
pub mod Format
use billingrse_backend.Prelude.{
  ℕ, Bool, true, false, not, ◌&&◌, Option, none, some, List, [], ◌∷◌, ok, ◌>>=◌, ◌>>◌, fail_if,
  is_empty, all, leb, ◌==◌,
}
use billingrse_backend.GoText.{Text, trim_space, to_upper, byte_length, CaseTable}
use billingrse_backend.Domain.Errors.{Result, invoice_number_empty, invoice_number_invalid_format}

abbrev pub is_digit : ℕ → Bool
is_digit c = leb b'0' c && leb c b'9'

-- The bytes after the first are compared to digits one by one; a byte of a longer code point is no
-- digit, as the code point is none.
abbrev pub is_t_digits : Text → Bool
is_t_digits [] = false
is_t_digits (c ∷ s) = c == b'T' && all is_digit s

unfoldable pub is_valid_invoice_number : Text → Bool
is_valid_invoice_number value = byte_length value == 14 && is_t_digits value

module _ ⦃table : CaseTable⦄ where
  unfoldable pub normalize_invoice_number : Text → Text
  normalize_invoice_number value = to_upper (trim_space value)

  -- The result "" is an absent number.
  unfoldable pub new_invoice_number : Option Text → Result Text
  new_invoice_number none = ok []
  new_invoice_number (some value) = ok (normalize_invoice_number value)

  -- InvoiceNumber.Validate.
  unfoldable pub validate : Text → Result (Unit {0})
  validate n = do
    let normalized = normalize_invoice_number n
    fail_if (is_empty normalized) invoice_number_empty
    fail_if (not (is_valid_invoice_number normalized)) invoice_number_invalid_format
    ok tt
