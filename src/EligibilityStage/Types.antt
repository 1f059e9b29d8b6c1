-- ===== src/EligibilityStage/Types.antt =====
-- What the billingeligibility stage takes and returns (internal/billingeligibility/domain/models.go
-- and the types of application/usecase.go). `F` stands for float64.
use billingrse_backend.Prelude.{ℕ, Option, List}
use billingrse_backend.GoText.{Text, txt}
use billingrse_backend.GoTime.{Time}
use billingrse_backend.Domain.ParsedEmail.{ParsedEmail}

abbrev pub invalid_eligibility_target : Text
invalid_eligibility_target = txt "invalid_eligibility_target"

abbrev pub billing_eligibility_failed : Text
billing_eligibility_failed = txt "billing_eligibility_failed"

abbrev pub amount_empty : Text
amount_empty = txt "amount_empty"

abbrev pub product_name_empty : Text
product_name_empty = txt "product_name_empty"

abbrev pub amount_invalid : Text
amount_invalid = txt "amount_invalid"

abbrev pub currency_empty : Text
currency_empty = txt "currency_empty"

abbrev pub currency_invalid : Text
currency_invalid = txt "currency_invalid"

abbrev pub billing_number_empty : Text
billing_number_empty = txt "billing_number_empty"

abbrev pub payment_cycle_empty : Text
payment_cycle_empty = txt "payment_cycle_empty"

abbrev pub payment_cycle_invalid : Text
payment_cycle_invalid = txt "payment_cycle_invalid"

pub record Target (F : Type 0) : Type 0 where
  pub parsed_email_id : ℕ
  pub email_id : ℕ
  pub external_message_id : Text
  pub vendor_id : ℕ
  pub vendor_name : Text
  pub matched_by : Text
  pub parsed : ParsedEmail F

pub record Command (F : Type 0) : Type 0 where
  pub user_id : ℕ
  pub resolved_items : List (Target F)

pub record EligibleLineItem (F : Type 0) : Type 0 where
  pub product_name_raw : Option Text
  pub product_name_display : Option Text
  pub amount : Option F
  pub currency : Option Text

pub record EligibleItem (F : Type 0) : Type 0 where
  pub parsed_email_id : ℕ
  pub email_id : ℕ
  pub external_message_id : Text
  pub vendor_id : ℕ
  pub vendor_name : Text
  pub matched_by : Text
  pub product_name_display : Option Text
  pub billing_number : Text
  pub invoice_number : Option Text
  pub amount : F
  pub currency : Text
  pub billing_date : Option Time
  pub payment_cycle : Text
  pub line_items : List (EligibleLineItem F)

pub record IneligibleItem : Type 0 where
  pub parsed_email_id : ℕ
  pub email_id : ℕ
  pub external_message_id : Text
  pub vendor_id : ℕ
  pub vendor_name : Text
  pub matched_by : Text
  pub reason_code : Text
  pub message : Text

pub record Failure : Type 0 where
  pub parsed_email_id : ℕ
  pub email_id : ℕ
  pub external_message_id : Text
  pub code : Text
  pub message : Text

pub record Result (F : Type 0) : Type 0 where
  pub eligible_items : List (EligibleItem F)
  pub eligible_count : ℕ
  pub ineligible_items : List IneligibleItem
  pub ineligible_count : ℕ
  pub failures : List Failure

-- The errors of EligibilityTarget.Validate.
pub data TargetError : Type 0 where
  parsed_email_id_required email_id_required vendor_id_required vendor_name_required : TargetError

-- The errors of Execute.
pub data CommandError : Type 0 where
  nil_context_given user_id_required : CommandError
