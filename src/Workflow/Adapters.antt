-- ===== src/Workflow/Adapters.antt =====
-- The adapters that call the billingeligibility and billing stages for the workflow,
-- internal/manualmailworkflow/infrastructure/direct_billing_eligibility_adapter.go and
-- direct_billing_adapter.go. Their use cases are taken to be connected.
pub mod Intake
pub mod Creation
pub mod Pipeline
use billingrse_backend.Prelude.{Option, List, map, Outcome, ok, err}
use billingrse_backend.GoText.{CaseTable}
use billingrse_backend.GoContext.{Context}
use billingrse_backend.Numbers.{Floats, Decimals}
use billingrse_backend.EligibilityStage.Types.{
  Target, EligibleItem as StageItem, EligibleLineItem as StageLine,
  IneligibleItem as StageIneligible, Failure as StageFault, Result as StageResult,
  CommandError as EligibilityError,
}
use billingrse_backend.EligibilityStage
use billingrse_backend.BillingStage.Types.{
  CreationTarget, CreationLineItem, CreatedItem, DuplicateItem, Failure as BillingFault,
  Result as BillingStageResult, CommandError as BillingError,
}
use billingrse_backend.BillingStage.{Save}
use billingrse_backend.BillingStage
use billingrse_backend.Workflow.Types.{
  ResolvedItem, EligibleItem, EligibleLineItem, IneligibleItem, EligibilityFailure,
  EligibilityResult, BillingCreatedItem, BillingDuplicateItem, StageFailure, BillingResult,
}
use billingrse_backend.Workflow.Parts.{EligibilityCommand, BillingCommand}

abbrev pub to_ineligible : StageIneligible → IneligibleItem
to_ineligible i = record {
  parsed_email_id = i.parsed_email_id;
  email_id = i.email_id;
  external_message_id = i.external_message_id;
  vendor_id = i.vendor_id;
  vendor_name = i.vendor_name;
  matched_by = i.matched_by;
  reason_code = i.reason_code;
  message = i.message;
}

abbrev pub to_eligibility_failure : StageFault → EligibilityFailure
to_eligibility_failure f = record {
  parsed_email_id = f.parsed_email_id;
  email_id = f.email_id;
  external_message_id = f.external_message_id;
  code = f.code;
  message = f.message;
}

abbrev pub to_created : CreatedItem → BillingCreatedItem
to_created i = record {
  billing_id = i.billing_id;
  parsed_email_id = i.parsed_email_id;
  email_id = i.email_id;
  external_message_id = i.external_message_id;
  vendor_id = i.vendor_id;
  vendor_name = i.vendor_name;
  billing_number = i.billing_number;
}

abbrev pub to_duplicate : DuplicateItem → BillingDuplicateItem
to_duplicate i = record {
  existing_billing_id = i.existing_billing_id;
  parsed_email_id = i.parsed_email_id;
  email_id = i.email_id;
  external_message_id = i.external_message_id;
  vendor_id = i.vendor_id;
  vendor_name = i.vendor_name;
  billing_number = i.billing_number;
  reason_code = i.reason_code;
  message = i.message;
}

abbrev pub to_billing_failure : BillingFault → StageFailure
to_billing_failure f = record {
  parsed_email_id = f.parsed_email_id;
  email_id = f.email_id;
  external_message_id = f.external_message_id;
  stage = f.stage;
  code = f.code;
  message = f.message;
}

unfoldable pub to_billing_result : BillingStageResult → BillingResult
to_billing_result r = record {
  created_items = map to_created r.created_items;
  created_count = r.created_count;
  duplicate_items = map to_duplicate r.duplicate_items;
  duplicate_count = r.duplicate_count;
  failures = map to_billing_failure r.failures;
}

-- What an adapter makes of its use case's answer.
abbrev pub adapted : {E A B : Type 0} → (A → B) → Outcome E A → Outcome E B
adapted f (ok a) = ok (f a)
adapted f (err e) = err e

module _ {F : Type 0} where
  abbrev pub to_target : ResolvedItem F → Target F
  to_target i = record {
    parsed_email_id = i.parsed_email_id;
    email_id = i.email_id;
    external_message_id = i.external_message_id;
    vendor_id = i.vendor_id;
    vendor_name = i.vendor_name;
    matched_by = i.matched_by;
    parsed = i.parsed;
  }

  -- toEligibleLineItems, for one row.
  abbrev pub to_eligible_line : StageLine F → EligibleLineItem F
  to_eligible_line i = record {
    product_name_raw = i.product_name_raw;
    product_name_display = i.product_name_display;
    amount = i.amount;
    currency = i.currency;
  }

  unfoldable pub to_eligible : StageItem F → EligibleItem F
  to_eligible i = record {
    parsed_email_id = i.parsed_email_id;
    email_id = i.email_id;
    external_message_id = i.external_message_id;
    vendor_id = i.vendor_id;
    vendor_name = i.vendor_name;
    matched_by = i.matched_by;
    product_name_display = i.product_name_display;
    billing_number = i.billing_number;
    invoice_number = i.invoice_number;
    amount = i.amount;
    billing_date = i.billing_date;
    currency = i.currency;
    payment_cycle = i.payment_cycle;
    line_items = map to_eligible_line i.line_items;
  }

  unfoldable pub to_eligibility_result : StageResult F → EligibilityResult F
  to_eligibility_result r = record {
    eligible_items = map to_eligible r.eligible_items;
    eligible_count = r.eligible_count;
    ineligible_items = map to_ineligible r.ineligible_items;
    ineligible_count = r.ineligible_count;
    failures = map to_eligibility_failure r.failures;
  }

  -- toBillingLineItems, for one row.
  abbrev pub to_creation_line : EligibleLineItem F → CreationLineItem F
  to_creation_line i = record {
    product_name_raw = i.product_name_raw;
    product_name_display = i.product_name_display;
    amount = i.amount;
    currency = i.currency;
  }

  unfoldable pub to_creation : EligibleItem F → CreationTarget F
  to_creation i = record {
    parsed_email_id = i.parsed_email_id;
    email_id = i.email_id;
    external_message_id = i.external_message_id;
    vendor_id = i.vendor_id;
    vendor_name = i.vendor_name;
    matched_by = i.matched_by;
    product_name_display = i.product_name_display;
    billing_number = i.billing_number;
    invoice_number = i.invoice_number;
    amount = i.amount;
    currency = i.currency;
    billing_date = i.billing_date;
    payment_cycle = i.payment_cycle;
    line_items = map to_creation_line i.line_items;
  }

module _ {F : Type 0} (D : Type 0) ⦃fl : Floats F⦄ ⦃dec : Decimals D⦄ ⦃table : CaseTable⦄ where
  -- DirectBillingEligibilityAdapter.Execute.
  unfoldable pub judge_eligibility :
      Context → EligibilityCommand F → Outcome EligibilityError (EligibilityResult F)
  judge_eligibility ctx cmd = adapted to_eligibility_result (
      EligibilityStage.execute D ctx
        (record { user_id = cmd.user_id; resolved_items = map to_target cmd.resolved_items }))

module _ {F D S X : Type 0} ⦃fl : Floats F⦄ ⦃dec : Decimals D⦄ ⦃table : CaseTable⦄ where
  -- DirectBillingAdapter.Execute.
  unfoldable pub create_billings :
      Context
      → Option (Save F D S X)
      → BillingCommand F
      → S
      → Outcome BillingError BillingResult × S
  create_billings ctx repository cmd s =
      let (answer, s') =
        BillingStage.execute ctx repository
          (record { user_id = cmd.user_id; eligible_items = map to_creation cmd.eligible_items })
          s in
      (adapted to_billing_result answer, s')
