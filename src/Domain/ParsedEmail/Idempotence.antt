-- ===== src/Domain/ParsedEmail/Idempotence.antt =====
-- ParsedEmail.Normalize (internal/common/domain/email.go), applied again.
use billingrse_backend.Prelude.{
  ◌≡◌, refl, Option, none, some, List, [], ◌∷◌, Bool-cases, inl, inr, if◌then◌else◌,
}
use billingrse_backend.GoText.{CaseTable}
use billingrse_backend.GoTime.{Time, is_zero, utc}
use billingrse_backend.Domain.Optional.{normalize_optional_time}
use billingrse_backend.Domain.Optional.Idempotence.{
  normalize_optional_string_idem, normalize_optional_upper_string_idem,
  normalize_optional_payment_cycle_idem,
}
use billingrse_backend.Domain.ParsedEmail.{
  ParsedEmail, ParsedLineItem, is_empty_item, normalize_item, normalize_items, normalize,
}

normalize_optional_time_idem :
    (value : Option Time)
    → normalize_optional_time (normalize_optional_time value) ≡ normalize_optional_time value
unfolding normalize_optional_time
normalize_optional_time_idem none = refl
normalize_optional_time_idem (some value) = refl

extracted_at_idem :
    (t : Time)
    → (let u = if is_zero t then t else utc t in if is_zero u then u else utc u)
      ≡ (if is_zero t then t else utc t)
extracted_at_idem t = elim (Bool-cases (is_zero t)) [
  | inl e ↦ rw e (rw e refl)
  | inr e ↦ rw e (rw e refl)
]

module _ {F : Type 0} ⦃table : CaseTable⦄ where
  normalize_item_idem :
      (i : ParsedLineItem F) → normalize_item (normalize_item i) ≡ normalize_item i
  unfolding normalize_item
  normalize_item_idem i =
      rw
        (
          normalize_optional_string_idem i.product_name_raw,
          normalize_optional_string_idem i.product_name_display,
          normalize_optional_upper_string_idem i.currency,
        )
        refl

  normalize_items_idem :
      (is : List (ParsedLineItem F)) → normalize_items (normalize_items is) ≡ normalize_items is
  unfolding normalize_items
  normalize_items_idem [] = refl
  normalize_items_idem (i ∷ is) = elim (Bool-cases (is_empty_item (normalize_item i))) [
    | inl e ↦ rw e (normalize_items_idem is)
    | inr e ↦ rw e (rw (normalize_item_idem i, e, normalize_items_idem is) refl)
  ]

  -- Normalizing a parsed e-mail twice is normalizing it once.
  pub normalize-ParsedEmail_idem : (p : ParsedEmail F) → normalize (normalize p) ≡ normalize p
  unfolding normalize
  normalize-ParsedEmail_idem p =
      rw
        (
          normalize_optional_string_idem p.product_name_raw,
          normalize_optional_string_idem p.product_name_display,
          normalize_optional_string_idem p.vendor_name,
          normalize_optional_string_idem p.billing_number,
          normalize_optional_string_idem p.invoice_number,
          normalize_optional_upper_string_idem p.currency,
          normalize_optional_payment_cycle_idem p.payment_cycle,
          normalize_optional_time_idem p.billing_date,
          normalize_items_idem p.line_items,
          extracted_at_idem p.extracted_at,
        )
        refl
