-- ===== src/Domain/Errors.antt =====
-- The sentinel errors of internal/common/domain, a constructor for each `Err…` variable.
use billingrse_backend.Prelude.{Outcome}

pub data Error : Type 0 where
  billing_user_id_empty billing_vendor_id_empty billing_email_id_empty : Error
  billing_date_invalid billing_line_items_empty billing_number_empty : Error
  invoice_number_empty invoice_number_invalid_format : Error
  money_amount_invalid money_amount_scale_invalid : Error
  money_currency_empty money_currency_invalid : Error
  payment_cycle_empty payment_cycle_invalid : Error
  vendor_name_empty vendor_user_id_empty vendor_resolution_unresolved : Error
  eligibility_vendor_unresolved eligibility_product_name_empty : Error
  eligibility_amount_empty eligibility_amount_invalid : Error
  eligibility_currency_empty eligibility_currency_invalid : Error
  eligibility_payment_cycle_empty eligibility_payment_cycle_invalid : Error
  eligibility_billing_number_empty : Error

abbrev pub Result : Type 0 → Type 0
Result A = Outcome Error A
