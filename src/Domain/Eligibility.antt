-- ===== src/Domain/Eligibility.antt =====
-- The policy that decides whether an e-mail becomes a billing,
-- internal/common/domain/billing_eligibility.go.
use billingrse_backend.Prelude.{
  Bool, true, Option, none, some, List, [], ◌∷◌, ok, err, ◌>>◌, fail_if, is_ok, is_nil, is_empty,
}
use billingrse_backend.GoText.{Text, trim_space, CaseTable}
use billingrse_backend.Numbers.{Floats, Decimals}
use billingrse_backend.Domain.Errors.{
  Error, Result, vendor_resolution_unresolved, eligibility_vendor_unresolved,
  eligibility_product_name_empty, eligibility_amount_empty, eligibility_amount_invalid,
  eligibility_currency_empty, eligibility_currency_invalid, eligibility_payment_cycle_empty,
  eligibility_payment_cycle_invalid, eligibility_billing_number_empty,
}
use billingrse_backend.Domain.Money
use billingrse_backend.Domain.PaymentCycle
use billingrse_backend.Domain.ParsedEmail.{ParsedEmail, ParsedLineItem, normalize}
use billingrse_backend.Domain.VendorResolution.{Resolution}
use billingrse_backend.Domain.VendorResolution

-- The first value that is not nil.
abbrev pub or_else : Option Text → Option Text → Option Text
or_else none next = next
or_else (some value) next = some value

module _ {F : Type 0} where
  unfoldable pub first_item_name : List (ParsedLineItem F) → Option Text
  first_item_name [] = none
  first_item_name (item ∷ items) =
      or_else item.product_name_display (or_else item.product_name_raw (first_item_name items))

module _ {F : Type 0} ⦃table : CaseTable⦄ where
  -- ResolvedProductNameDisplay.
  unfoldable pub resolved_product_name : ParsedEmail F → Option Text
  resolved_product_name parsed =
      let normalized = normalize parsed in
      or_else normalized.product_name_display
        (or_else normalized.product_name_raw (first_item_name normalized.line_items))

-- `value == nil || strings.TrimSpace(*value) == ""`.
abbrev pub is_blank : Option Text → Bool
is_blank none = true
is_blank (some value) = is_empty (trim_space value)

-- An error of a callee becomes the policy's own.
abbrev pub check : {A : Type 0} → Result A → Error → Result (Unit {0})
check (ok a) error = ok tt
check (err e) error = err error

-- An unresolved vendor is renamed, and any other error is passed on.
abbrev pub vendor_error : Error → Error
vendor_error vendor_resolution_unresolved = eligibility_vendor_unresolved
vendor_error e = e

abbrev pub check_vendor : Result (Unit {0}) → Result (Unit {0})
check_vendor (ok a) = ok a
check_vendor (err e) = err (vendor_error e)

module _ ⦃table : CaseTable⦄ where
  abbrev pub check_currency : Option Text → Result (Unit {0})
  check_currency none = ok tt
  check_currency (some currency) =
      check (Money.normalize_currency currency) eligibility_currency_invalid

  abbrev pub check_cycle : Option Text → Result (Unit {0})
  check_cycle none = ok tt
  check_cycle (some cycle) =
      check (PaymentCycle.new_payment_cycle cycle) eligibility_payment_cycle_invalid

module _ {F : Type 0} (D : Type 0) ⦃fl : Floats F⦄ ⦃dec : Decimals D⦄ ⦃table : CaseTable⦄ where
  -- `if parsed.Amount == nil { … }` and the test of the amount.
  abbrev pub check_amount : Option F → Result (Unit {0})
  check_amount none = err eligibility_amount_empty
  check_amount (some amount) =
      check (Money.normalize_amount {D = D} amount) eligibility_amount_invalid

  -- BillingEligibility.Evaluate. The pointers are read only behind their test for nil.
  unfoldable pub evaluate : ParsedEmail F → Resolution → Result (Unit {0})
  evaluate parsed resolution = do
    check_vendor (VendorResolution.validate resolution)
    fail_if (is_nil (resolved_product_name parsed)) eligibility_product_name_empty
    check_amount parsed.amount
    fail_if (is_blank parsed.currency) eligibility_currency_empty
    check_currency parsed.currency
    fail_if (is_blank parsed.payment_cycle) eligibility_payment_cycle_empty
    check_cycle parsed.payment_cycle
    fail_if (is_blank parsed.billing_number) eligibility_billing_number_empty
    ok tt

  unfoldable pub is_eligible : ParsedEmail F → Resolution → Bool
  is_eligible parsed resolution = is_ok (evaluate parsed resolution)
