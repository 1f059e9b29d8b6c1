-- ===== src/Workflow/Types.antt =====
-- The types of internal/manualmailworkflow/application/usecase.go, start_usecase.go and
-- workflow_history.go. `F` stands for float64.
use billingrse_backend.Prelude.{ℕ, Option, List, []}
use billingrse_backend.GoText.{Text, txt}
use billingrse_backend.GoTime.{Time}
use billingrse_backend.Domain.ParsedEmail.{ParsedEmail as DomainParsedEmail}

pub record FetchCondition : Type 0 where
  pub label_name : Text
  pub since : Time
  pub until : Time

pub record Command : Type 0 where
  pub user_id : ℕ
  pub connection_id : ℕ
  pub condition : FetchCondition

pub record DispatchJob : Type 0 where
  pub history_id : ℕ
  pub workflow_id : Text
  pub user_id : ℕ
  pub connection_id : ℕ
  pub condition : FetchCondition

pub record CreatedEmail : Type 0 where
  pub email_id : ℕ
  pub external_message_id : Text
  pub subject : Text
  pub from : Text
  pub to : List Text
  pub received_at : Time
  pub body : Text
  pub body_digest : Text

pub record FetchFailure : Type 0 where
  pub external_message_id : Text
  pub stage : Text
  pub code : Text
  pub message : Text

pub record AnalysisFailure : Type 0 where
  pub email_id : ℕ
  pub external_message_id : Text
  pub stage : Text
  pub code : Text
  pub message : Text

pub record FetchResult : Type 0 where
  pub created_emails : List CreatedEmail
  pub existing_email_ids : List ℕ
  pub failures : List FetchFailure

pub record ParsedEmail (F : Type 0) : Type 0 where
  pub parsed_email_id : ℕ
  pub email_id : ℕ
  pub external_message_id : Text
  pub subject : Text
  pub from : Text
  pub to : List Text
  pub body_digest : Text
  pub parsed : DomainParsedEmail F

pub record AnalyzeResult (F : Type 0) : Type 0 where
  pub parsed_emails : List (ParsedEmail F)
  pub parsed_email_count : ℕ
  pub failures : List AnalysisFailure

pub record ResolvedItem (F : Type 0) : Type 0 where
  pub parsed_email_id : ℕ
  pub email_id : ℕ
  pub external_message_id : Text
  pub vendor_id : ℕ
  pub vendor_name : Text
  pub matched_by : Text
  pub parsed : DomainParsedEmail F

-- VendorResolutionFailure and BillingFailure have the same fields.
pub record StageFailure : Type 0 where
  pub parsed_email_id : ℕ
  pub email_id : ℕ
  pub external_message_id : Text
  pub stage : Text
  pub code : Text
  pub message : Text

pub record UnresolvedItem : Type 0 where
  pub parsed_email_id : ℕ
  pub email_id : ℕ
  pub external_message_id : Text
  pub reason_code : Text
  pub message : Text
  pub candidate_vendor_name : Text

pub record VendorResolutionResult (F : Type 0) : Type 0 where
  pub resolved_items : List (ResolvedItem F)
  pub resolved_count : ℕ
  pub unresolved_items : List UnresolvedItem
  pub unresolved_count : ℕ
  pub failures : List StageFailure

pub record EligibleLineItem (F : Type 0) : Type 0 where
  pub product_name_raw : Option Text
  pub product_name_display : Option Text
  pub amount : Option F
  pub currency : Option Text

pub record EligibleItem (F : Type 0) : Type 0 where
  pub parsed_email_id : ℕ
  pub email_id : ℕ
  pub external_message_id : Text
  pub vendor_id : ℕ
  pub vendor_name : Text
  pub matched_by : Text
  pub product_name_display : Option Text
  pub billing_number : Text
  pub invoice_number : Option Text
  pub amount : F
  pub billing_date : Option Time
  pub currency : Text
  pub payment_cycle : Text
  pub line_items : List (EligibleLineItem F)

pub record IneligibleItem : Type 0 where
  pub parsed_email_id : ℕ
  pub email_id : ℕ
  pub external_message_id : Text
  pub vendor_id : ℕ
  pub vendor_name : Text
  pub matched_by : Text
  pub reason_code : Text
  pub message : Text

pub record EligibilityFailure : Type 0 where
  pub parsed_email_id : ℕ
  pub email_id : ℕ
  pub external_message_id : Text
  pub code : Text
  pub message : Text

pub record EligibilityResult (F : Type 0) : Type 0 where
  pub eligible_items : List (EligibleItem F)
  pub eligible_count : ℕ
  pub ineligible_items : List IneligibleItem
  pub ineligible_count : ℕ
  pub failures : List EligibilityFailure

pub record BillingCreatedItem : Type 0 where
  pub billing_id : ℕ
  pub parsed_email_id : ℕ
  pub email_id : ℕ
  pub external_message_id : Text
  pub vendor_id : ℕ
  pub vendor_name : Text
  pub billing_number : Text

pub record BillingDuplicateItem : Type 0 where
  pub existing_billing_id : ℕ
  pub parsed_email_id : ℕ
  pub email_id : ℕ
  pub external_message_id : Text
  pub vendor_id : ℕ
  pub vendor_name : Text
  pub billing_number : Text
  pub reason_code : Text
  pub message : Text

pub record BillingResult : Type 0 where
  pub created_items : List BillingCreatedItem
  pub created_count : ℕ
  pub duplicate_items : List BillingDuplicateItem
  pub duplicate_count : ℕ
  pub failures : List StageFailure

pub record Result (F : Type 0) : Type 0 where
  pub fetch : FetchResult
  pub analysis : AnalyzeResult F
  pub vendor_resolution : VendorResolutionResult F
  pub billing_eligibility : EligibilityResult F
  pub billing : BillingResult

-- `Result{}`.
abbrev pub empty_result : {F : Type 0} → Result F
empty_result = record {
  fetch = record { created_emails = []; existing_email_ids = []; failures = [] };
  analysis = record { parsed_emails = []; parsed_email_count = 0; failures = [] };
  vendor_resolution = record {
    resolved_items = [];
    resolved_count = 0;
    unresolved_items = [];
    unresolved_count = 0;
    failures = [];
  };
  billing_eligibility = record {
    eligible_items = [];
    eligible_count = 0;
    ineligible_items = [];
    ineligible_count = 0;
    failures = [];
  };
  billing = record {
    created_items = [];
    created_count = 0;
    duplicate_items = [];
    duplicate_count = 0;
    failures = [];
  };
}

pub record StageFailureRecord : Type 0 where
  pub stage : Text
  pub external_message_id : Option Text
  pub reason_code : Text
  pub message : Text

pub record StageProgress : Type 0 where
  pub history_id : ℕ
  pub stage : Text
  pub success_count : ℕ
  pub business_failure_count : ℕ
  pub technical_failure_count : ℕ
  pub failure_records : List StageFailureRecord

abbrev pub status_queued : Text
status_queued = txt "queued"

abbrev pub status_running : Text
status_running = txt "running"

abbrev pub status_succeeded : Text
status_succeeded = txt "succeeded"

abbrev pub status_partial_success : Text
status_partial_success = txt "partial_success"

abbrev pub status_failed : Text
status_failed = txt "failed"

abbrev pub stage_fetch : Text
stage_fetch = txt "fetch"

abbrev pub stage_analysis : Text
stage_analysis = txt "analysis"

abbrev pub stage_vendor_resolution : Text
stage_vendor_resolution = txt "vendorresolution"

abbrev pub stage_billing_eligibility : Text
stage_billing_eligibility = txt "billingeligibility"

abbrev pub stage_billing : Text
stage_billing = txt "billing"

abbrev pub vendor_unresolved : Text
vendor_unresolved = txt "vendor_unresolved"

abbrev pub duplicate_billing : Text
duplicate_billing = txt "duplicate_billing"

abbrev pub existing_emails_skipped : Text
existing_emails_skipped = txt "existing_emails_skipped"
