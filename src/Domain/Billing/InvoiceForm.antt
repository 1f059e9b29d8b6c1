-- ===== src/Domain/Billing/InvoiceForm.antt =====
-- The optional invoice number of a billing: when Billing.Validate takes the one that NewInvoiceNumber
-- made (internal/common/domain/billing.go and invoice_number.go).
use billingrse_backend.Prelude.{
  ◌≡◌, ◌↔◌, ◌⊎◌, inl, inr, refl, Option, none, some, [], is_empty, eq-nil_of_is_empty, Bool-cases,
  ok, ap,
}
use billingrse_backend.GoText.{Text, trim_left, trim_right, trim_space, CaseTable}
use billingrse_backend.GoText.Trim.{trim_space_idem, trim_space-to_upper, to_upper_idem}
use billingrse_backend.Domain.InvoiceNumber.{normalize_invoice_number, new_invoice_number}
use billingrse_backend.Domain.InvoiceNumber.Format.{IsInvoiceNumber}
use billingrse_backend.Domain.InvoiceNumber.Format
use billingrse_backend.Domain.Billing.{validate_invoice}

module _ ⦃table : CaseTable⦄ where
  -- Absent, or "T" and 13 digits.
  abbrev pub IsOptionalInvoice : Text → Type 0
  IsOptionalInvoice n = (n ≡ []) ⊎ IsInvoiceNumber n

  normalize_invoice_number_idem :
      (n : Text)
      → normalize_invoice_number (normalize_invoice_number n) ≡ normalize_invoice_number n
  unfolding normalize_invoice_number
  normalize_invoice_number_idem n =
      rw (trim_space-to_upper, trim_space_idem) (to_upper_idem (trim_space n))

  -- What NewInvoiceNumber makes of its input, which it never refuses.
  abbrev pub invoice_text : Option Text → Text
  invoice_text none = []
  invoice_text (some value) = normalize_invoice_number value

  pub new_invoice_number_lem :
      (value : Option Text) → new_invoice_number value ≡ ok (invoice_text value)
  unfolding new_invoice_number
  new_invoice_number_lem none = refl
  new_invoice_number_lem (some value) = refl

  trim_space-normalize_invoice_number :
      (n : Text) → trim_space (normalize_invoice_number n) ≡ normalize_invoice_number n
  unfolding normalize_invoice_number
  trim_space-normalize_invoice_number n = rw (trim_space-to_upper, trim_space_idem) refl

  normalized_invoice_iff :
      (n : Text)
      → (validate_invoice (normalize_invoice_number n) ≡ ok tt)
        ↔ IsOptionalInvoice (normalize_invoice_number n)
  normalized_invoice_iff n =
      let t = normalize_invoice_number n in
      let same = normalize_invoice_number_idem n in
      elim (Bool-cases (is_empty t)) [
        | inl e ↦ (
          λ _. inl (eq-nil_of_is_empty t e),
          λ _. rw (trim_space-normalize_invoice_number, e) refl,
        )
        | inr e ↦ (
          λ h. inr (
              rw same at
                ((Format.validate_iff t).0 (rw (trim_space-normalize_invoice_number n, e) at h))),
          elim [
            | inl empty ↦ cc (ap is_empty empty)
            | inr form ↦
                rw (trim_space-normalize_invoice_number, e)
                  ((Format.validate_iff t).1 (rw same form))
          ],
        )
      ]

  pub validate_invoice_iff :
      (value : Option Text)
      → (validate_invoice (invoice_text value) ≡ ok tt) ↔ IsOptionalInvoice (invoice_text value)
  unfolding trim_space trim_left trim_right
  validate_invoice_iff none = (λ _. inl refl, λ _. refl)
  validate_invoice_iff (some value) = normalized_invoice_iff value
