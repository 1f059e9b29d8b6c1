-- ===== src/Domain/InvoiceNumber/Format.antt =====
-- Which invoice numbers pass (internal/common/domain/invoice_number.go).
use billingrse_backend.Prelude.{
  ℕ, ◌≤◌, ◌≡◌, ◌↔◌, refl, [], ◌∷◌, ok, arith, true, length, all, All, is_empty, false,
}
use billingrse_backend.GoText.{Text, byte_length, CaseTable}
use billingrse_backend.Domain.InvoiceNumber.{
  is_digit, is_valid_invoice_number, normalize_invoice_number, validate,
}

abbrev pub IsDigit : ℕ → Type 0
IsDigit c = (b'0' ≤ c) × (c ≤ b'9')

-- "T" and 13 digits.
abbrev pub IsInvoiceNumber : Text → Type 0
IsInvoiceNumber t =
    (digits : Text) × (t ≡ b'T' ∷ digits) × (length digits ≡ 13) × All IsDigit digits

digits_sound : (s : Text) → all is_digit s ≡ true → All IsDigit s × (byte_length s ≡ length s)
unfolding byte_length
digits_sound [] h = (tt, refl)
digits_sound (c ∷ s) h = ground (arith, digits_sound s)

digits_complete : (s : Text) → All IsDigit s → (all is_digit s ≡ true) × (byte_length s ≡ length s)
unfolding byte_length
digits_complete [] h = (refl, refl)
digits_complete (c ∷ s) h = ground (arith, digits_complete s)

valid_sound : (t : Text) → is_valid_invoice_number t ≡ true → IsInvoiceNumber t
unfolding is_valid_invoice_number byte_length
valid_sound [] h = cc
valid_sound (c ∷ s) h =
    let (digits, bytes) = digits_sound s (ground arith) in (s, ground arith, ground arith, digits)

valid_complete : (t : Text) → IsInvoiceNumber t → is_valid_invoice_number t ≡ true
unfolding is_valid_invoice_number byte_length
valid_complete t (digits, e, count, h) =
    let (same, bytes) = digits_complete digits h in rw e (ground arith)

module _ ⦃table : CaseTable⦄ where
  -- A number is valid exactly if it reads "T" and 13 digits, trimmed and in upper case.
  pub validate_iff :
      (n : Text) → (validate n ≡ ok tt) ↔ IsInvoiceNumber (normalize_invoice_number n)
  unfolding validate
  validate_iff n =
      let t = normalize_invoice_number n in
      (
        λ h. valid_sound t (ground arith),
        λ h.
            let valid = valid_complete t h in
            let filled : is_empty t ≡ false = rw h.1 refl in rw (filled, valid) refl,
      )
