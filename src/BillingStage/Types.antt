-- ===== src/BillingStage/Types.antt =====
-- What the billing stage takes and returns (internal/billing/domain/models.go and the types of
-- internal/billing/application/usecase.go). `F` stands for float64.
use billingrse_backend.Prelude.{ℕ, Bool, Option, List}
use billingrse_backend.GoText.{Text, txt}
use billingrse_backend.GoTime.{Time}

abbrev pub normalize_input : Text
normalize_input = txt "normalize_input"

abbrev pub build_billing : Text
build_billing = txt "build_billing"

abbrev pub save_billing : Text
save_billing = txt "save_billing"

abbrev pub duplicate_billing : Text
duplicate_billing = txt "duplicate_billing"

abbrev pub invalid_creation_target : Text
invalid_creation_target = txt "invalid_creation_target"

abbrev pub billing_construct_failed : Text
billing_construct_failed = txt "billing_construct_failed"

abbrev pub billing_persist_failed : Text
billing_persist_failed = txt "billing_persist_failed"

pub record CreationLineItem (F : Type 0) : Type 0 where
  pub product_name_raw : Option Text
  pub product_name_display : Option Text
  pub amount : Option F
  pub currency : Option Text

pub record CreationTarget (F : Type 0) : Type 0 where
  pub parsed_email_id : ℕ
  pub email_id : ℕ
  pub external_message_id : Text
  pub vendor_id : ℕ
  pub vendor_name : Text
  pub matched_by : Text
  pub product_name_display : Option Text
  pub billing_number : Text
  pub invoice_number : Option Text
  pub amount : F
  pub currency : Text
  pub billing_date : Option Time
  pub payment_cycle : Text
  pub line_items : List (CreationLineItem F)

pub record Command (F : Type 0) : Type 0 where
  pub user_id : ℕ
  pub eligible_items : List (CreationTarget F)

pub record SaveResult : Type 0 where
  pub billing_id : ℕ
  pub duplicate : Bool

pub record CreatedItem : Type 0 where
  pub billing_id : ℕ
  pub parsed_email_id : ℕ
  pub email_id : ℕ
  pub external_message_id : Text
  pub vendor_id : ℕ
  pub vendor_name : Text
  pub billing_number : Text

pub record DuplicateItem : Type 0 where
  pub existing_billing_id : ℕ
  pub parsed_email_id : ℕ
  pub email_id : ℕ
  pub external_message_id : Text
  pub vendor_id : ℕ
  pub vendor_name : Text
  pub billing_number : Text
  pub reason_code : Text
  pub message : Text

pub record Failure : Type 0 where
  pub parsed_email_id : ℕ
  pub email_id : ℕ
  pub external_message_id : Text
  pub stage : Text
  pub code : Text
  pub message : Text

pub record Result : Type 0 where
  pub created_items : List CreatedItem
  pub created_count : ℕ
  pub duplicate_items : List DuplicateItem
  pub duplicate_count : ℕ
  pub failures : List Failure

-- The errors of CreationTarget.Validate.
pub data TargetError : Type 0 where
  parsed_email_id_required email_id_required vendor_id_required : TargetError
  billing_number_required currency_required payment_cycle_required : TargetError

-- The errors of Execute.
pub data CommandError : Type 0 where
  nil_context_given user_id_required repository_not_configured : CommandError
