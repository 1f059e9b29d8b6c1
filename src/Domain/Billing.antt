-- ===== src/Domain/Billing.antt =====
-- The aggregate root, internal/common/domain/billing.go. `F` stands for float64 and `D` for
-- decimal.Decimal.
pub mod Rows
pub mod InvoiceForm
pub mod Construction
use billingrse_backend.Prelude.{
  ℕ, Bool, true, false, not, ◌&&◌, Option, none, some, List, [], ◌∷◌, map, Outcome, ok, ◌>>=◌, ◌>>◌,
  fail_if, is_empty, ◌==◌, if◌then◌else◌,
}
use billingrse_backend.GoText.{Text, trim_space, CaseTable}
use billingrse_backend.GoTime.{Time, is_zero}
use billingrse_backend.Numbers.{Floats, Decimals}
use billingrse_backend.Domain.Errors.{
  Result, billing_user_id_empty, billing_vendor_id_empty, billing_email_id_empty,
  billing_date_invalid, billing_line_items_empty,
}
use billingrse_backend.Domain.Optional.{
  normalize_optional_string, normalize_optional_upper_string, normalize_optional_time,
}
use billingrse_backend.Domain.Money
use billingrse_backend.Domain.Money.{Money}
use billingrse_backend.Domain.BillingNumber
use billingrse_backend.Domain.InvoiceNumber
use billingrse_backend.Domain.PaymentCycle
use billingrse_backend.Domain.LineItem.{
  LineItem, LineItemInput, is_empty_input, to_line_item, normalize_input, normalize_inputs,
  normalize_items,
}

-- `invoice_number` is "" where it is absent.
pub record Billing (F D : Type 0) : Type 0 where
  pub id : ℕ
  pub user_id : ℕ
  pub vendor_id : ℕ
  pub email_id : ℕ
  pub product_name_display : Option Text
  pub billing_number : Text
  pub invoice_number : Text
  pub money : Money D
  pub billing_date : Option Time
  pub payment_cycle : Text
  pub line_items : List (LineItem F)

abbrev pub is_zero_date : Option Time → Bool
is_zero_date none = false
is_zero_date (some date) = is_zero date

module _ {F : Type 0} ⦃table : CaseTable⦄ where
  -- The one row that stands for the whole billing when the source has no rows.
  unfoldable pub fallback_item : Option Text → F → Text → LineItemInput F
  fallback_item product_name_display amount currency = normalize_input (record {
    product_name_raw = none;
    product_name_display = normalize_optional_string product_name_display;
    amount = some amount;
    currency = normalize_optional_upper_string (some currency);
  })

  abbrev pub items_or_fallback : List (LineItemInput F) → LineItemInput F → List (LineItem F)
  items_or_fallback [] fallback = if is_empty_input fallback then [] else to_line_item fallback ∷ []
  items_or_fallback (item ∷ items) fallback = map to_line_item (item ∷ items)

  -- resolveBillingLineItems.
  unfoldable pub resolve_line_items :
      List (LineItemInput F) → Option Text → F → Text → List (LineItem F)
  resolve_line_items items product_name_display amount currency =
      items_or_fallback (normalize_inputs items)
        (fallback_item product_name_display amount currency)

module _ ⦃table : CaseTable⦄ where
  -- `if !b.InvoiceNumber.IsEmpty() { … }`.
  abbrev pub validate_invoice : Text → Result (Unit {0})
  validate_invoice n = if is_empty (trim_space n) then ok tt else InvoiceNumber.validate n

module _ {F D : Type 0} ⦃dec : Decimals D⦄ ⦃table : CaseTable⦄ where
  -- Billing.Validate.
  unfoldable pub validate : Billing F D → Result (Unit {0})
  validate b = do
    fail_if (b.user_id == 0) billing_user_id_empty
    fail_if (b.vendor_id == 0) billing_vendor_id_empty
    fail_if (b.email_id == 0) billing_email_id_empty
    BillingNumber.validate b.billing_number
    validate_invoice b.invoice_number
    Money.validate b.money
    fail_if (is_zero_date b.billing_date) billing_date_invalid
    PaymentCycle.validate b.payment_cycle
    fail_if (is_empty (normalize_items b.line_items)) billing_line_items_empty
    ok tt

module _ {F D : Type 0} ⦃fl : Floats F⦄ ⦃dec : Decimals D⦄ ⦃table : CaseTable⦄ where
  unfoldable pub new_billing :
      (user_id vendor_id email_id : ℕ) (billing_number : Text) (invoice_number : Option Text)
      (amount : F) (currency : Text) (billing_date : Option Time) (cycle : Text)
      (product_name_display : Option Text) (line_items : List (LineItemInput F))
      → Result (Billing F D)
  new_billing user_id vendor_id email_id billing_number invoice_number amount currency billing_date
        cycle product_name_display line_items =
      do
        normalized_billing_number ← BillingNumber.new_billing_number billing_number
        normalized_invoice ← InvoiceNumber.new_invoice_number invoice_number
        money ← Money.new_money amount currency
        normalized_cycle ← PaymentCycle.new_payment_cycle cycle
        let billing : Billing F D = record {
          id = 0;
          user_id = user_id;
          vendor_id = vendor_id;
          email_id = email_id;
          product_name_display = normalize_optional_string product_name_display;
          billing_number = normalized_billing_number;
          invoice_number = normalized_invoice;
          money = money;
          billing_date = normalize_optional_time billing_date;
          payment_cycle = normalized_cycle;
          line_items = resolve_line_items line_items product_name_display amount currency;
        }
        validate billing
        ok billing
