-- ===== src/Workflow/Progress.antt =====
-- What a stage's result becomes in the history: the progress rows, and the final status
-- (internal/manualmailworkflow/application/workflow_history.go).
pub mod Counts
use billingrse_backend.Prelude.{
  ℕ, ◌+◌, ◌-◌, Bool, true, false, not, ◌&&◌, ◌||◌, Option, none, some, List, [], ◌∷◌, ◌++◌, map,
  length, is_empty, ltb, ◌==◌, if◌then◌else◌,
}
use billingrse_backend.GoText.{Text}
use billingrse_backend.Domain.VendorResolution.{contains}
use billingrse_backend.Workflow.Types.{
  FetchFailure, AnalysisFailure, FetchResult, ParsedEmail, AnalyzeResult, ResolvedItem,
  StageFailure, UnresolvedItem, VendorResolutionResult, IneligibleItem, EligibilityFailure,
  EligibilityResult, BillingDuplicateItem, BillingResult, Result, StageFailureRecord, StageProgress,
  status_succeeded, status_partial_success, stage_fetch, stage_analysis, stage_vendor_resolution,
  stage_billing_eligibility, stage_billing, vendor_unresolved, duplicate_billing,
  existing_emails_skipped,
}
use billingrse_backend.Workflow.Messages.{
  message_for_fetch_failure, message_for_analysis_failure, message_for_vendor_resolution_failure,
  message_for_billing_eligibility_reason, message_for_billing_eligibility_failure,
  message_for_billing_failure, inferred_vendor_unresolved_message, stage_message_or_fallback,
}

-- stageFailureRecord.
unfoldable pub stage_failure_record : (stage id reason message : Text) → StageFailureRecord
stage_failure_record stage id reason message = record {
  stage = stage;
  external_message_id = if is_empty id then none else some id;
  reason_code = reason;
  message = message;
}

abbrev pub fetch_failure_record : FetchFailure → StageFailureRecord
fetch_failure_record f =
    stage_failure_record stage_fetch f.external_message_id f.code
      (stage_message_or_fallback f.message (message_for_fetch_failure f.code))

abbrev pub skipped_record : StageFailureRecord
skipped_record =
    stage_failure_record stage_fetch [] existing_emails_skipped
      (message_for_fetch_failure existing_emails_skipped)

-- buildFetchStageProgress.
unfoldable pub build_fetch_progress : ℕ → FetchResult → StageProgress
build_fetch_progress history_id result = record {
  history_id = history_id;
  stage = stage_fetch;
  success_count = length result.created_emails + length result.existing_email_ids;
  business_failure_count = 0;
  technical_failure_count = length result.failures;
  failure_records =
      (if is_empty result.created_emails && not (is_empty result.existing_email_ids)
        then skipped_record ∷ []
        else [])
      ++ map fetch_failure_record result.failures;
}

abbrev pub analysis_failure_record : AnalysisFailure → StageFailureRecord
analysis_failure_record f =
    stage_failure_record stage_analysis f.external_message_id f.code
      (stage_message_or_fallback f.message (message_for_analysis_failure f.code))

abbrev pub vendor_failure_record : StageFailure → StageFailureRecord
vendor_failure_record f =
    stage_failure_record stage_vendor_resolution f.external_message_id f.code
      (stage_message_or_fallback f.message (message_for_vendor_resolution_failure f.code))

abbrev pub unresolved_record : UnresolvedItem → StageFailureRecord
unresolved_record i =
    stage_failure_record stage_vendor_resolution i.external_message_id i.reason_code
      (stage_message_or_fallback i.message (message_for_vendor_resolution_failure i.reason_code))

-- The keys of failedByParsedEmailID.
abbrev pub failed_ids : List StageFailure → List ℕ
failed_ids [] = []
failed_ids (f ∷ fs) =
    if f.parsed_email_id == 0 then failed_ids fs else f.parsed_email_id ∷ failed_ids fs

abbrev pub ineligible_record : IneligibleItem → StageFailureRecord
ineligible_record i =
    stage_failure_record stage_billing_eligibility i.external_message_id i.reason_code
      (stage_message_or_fallback i.message (message_for_billing_eligibility_reason i.reason_code))

abbrev pub eligibility_failure_record : EligibilityFailure → StageFailureRecord
eligibility_failure_record f =
    stage_failure_record stage_billing_eligibility f.external_message_id f.code
      (stage_message_or_fallback f.message (message_for_billing_eligibility_failure f.code))

-- `if reasonCode == "" { reasonCode = reasonCodeDuplicateBilling }`.
abbrev pub duplicate_reason : BillingDuplicateItem → Text
duplicate_reason i = if is_empty i.reason_code then duplicate_billing else i.reason_code

abbrev pub duplicate_record : BillingDuplicateItem → StageFailureRecord
duplicate_record i =
    stage_failure_record stage_billing i.external_message_id (duplicate_reason i)
      (stage_message_or_fallback i.message (message_for_billing_failure (duplicate_reason i)))

abbrev pub billing_failure_record : StageFailure → StageFailureRecord
billing_failure_record f =
    stage_failure_record stage_billing f.external_message_id f.code
      (stage_message_or_fallback f.message (message_for_billing_failure f.code))

-- buildBillingStageProgress.
unfoldable pub build_billing_progress : ℕ → BillingResult → StageProgress
build_billing_progress history_id result = record {
  history_id = history_id;
  stage = stage_billing;
  success_count = result.created_count;
  business_failure_count = length result.duplicate_items;
  technical_failure_count = length result.failures;
  failure_records =
      map duplicate_record result.duplicate_items ++ map billing_failure_record result.failures;
}

module _ {F : Type 0} where
  -- buildAnalysisStageProgress.
  unfoldable pub build_analysis_progress : ℕ → AnalyzeResult F → StageProgress
  build_analysis_progress history_id result =
      let records = map analysis_failure_record result.failures in
      record {
        history_id = history_id;
        stage = stage_analysis;
        success_count = result.parsed_email_count;
        business_failure_count = 0;
        technical_failure_count = length records;
        failure_records = records;
      }

  abbrev pub inferred_record : ParsedEmail F → StageFailureRecord
  inferred_record input =
      stage_failure_record stage_vendor_resolution input.external_message_id vendor_unresolved
        (inferred_vendor_unresolved_message input)

  -- The inputs that were neither resolved nor failed, when no unresolved items were returned.
  unfoldable pub inferred_records : List ℕ → List ℕ → List (ParsedEmail F) → List StageFailureRecord
  inferred_records resolved failures [] = []
  inferred_records resolved failures (input ∷ inputs) =
      let rest = inferred_records resolved failures inputs in
      if contains input.parsed_email_id resolved || contains input.parsed_email_id failures
      then rest
      else inferred_record input ∷ rest

  unfoldable pub unresolved_records :
      List (ParsedEmail F) → VendorResolutionResult F → List StageFailureRecord
  unresolved_records inputs result =
      if is_empty result.unresolved_items
      then inferred_records (map (λ (i : ResolvedItem F). i.parsed_email_id) result.resolved_items)
          (failed_ids result.failures) inputs
      else map unresolved_record result.unresolved_items

  -- buildVendorResolutionStageProgress. The subtraction does not go below zero: the records hold
  -- one for each failure.
  unfoldable pub build_vendor_resolution_progress :
      ℕ → List (ParsedEmail F) → VendorResolutionResult F → StageProgress
  build_vendor_resolution_progress history_id inputs result =
      let records = unresolved_records inputs result ++ map vendor_failure_record result.failures in
      record {
        history_id = history_id;
        stage = stage_vendor_resolution;
        success_count = result.resolved_count;
        business_failure_count = length records - length result.failures;
        technical_failure_count = length result.failures;
        failure_records = records;
      }

  -- buildBillingEligibilityStageProgress.
  unfoldable pub build_billing_eligibility_progress : ℕ → EligibilityResult F → StageProgress
  build_billing_eligibility_progress history_id result = record {
    history_id = history_id;
    stage = stage_billing_eligibility;
    success_count = result.eligible_count;
    business_failure_count = result.ineligible_count;
    technical_failure_count = length result.failures;
    failure_records =
        map ineligible_record result.ineligible_items
        ++ map eligibility_failure_record result.failures;
  }

  -- hasWorkflowFailures.
  unfoldable pub has_workflow_failures : Result F → Bool
  has_workflow_failures r =
      ltb 0 (length r.fetch.failures)
      || ltb 0 (length r.analysis.failures)
      || ltb 0 (r.vendor_resolution.unresolved_count + length r.vendor_resolution.failures)
      || ltb 0 (r.billing_eligibility.ineligible_count + length r.billing_eligibility.failures)
      || ltb 0 (r.billing.duplicate_count + length r.billing.failures)

  -- workflowStatusForResult.
  unfoldable pub workflow_status : Result F → Text
  workflow_status r = if has_workflow_failures r then status_partial_success else status_succeeded
