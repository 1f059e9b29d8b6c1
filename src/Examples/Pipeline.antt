-- ===== src/Examples/Pipeline.antt =====
-- The theorem of Workflow.Adapters at a concrete command.
use billingrse_backend.Prelude.{ℕ, ◌≡◌, refl, inl, some, [], ◌∷◌, map, ok, All}
use billingrse_backend.GoText.{
  Text, txt, eq_text, trim_space, trim_left, trim_right, is_space, to_upper, to_lower, fields_func,
  join, byte_length,
}
use billingrse_backend.Domain.Eligibility.{evaluate, resolved_product_name}
use billingrse_backend.Domain.ParsedEmail
use billingrse_backend.Domain.Optional.{
  normalize_optional_string, normalize_optional_upper_string, normalize_optional_payment_cycle,
  normalize_optional_time,
}
use billingrse_backend.Domain.Money.{normalize_amount, normalize_amount_decimal, normalize_currency}
use billingrse_backend.Domain.PaymentCycle
use billingrse_backend.Domain.PaymentCycle.{new_payment_cycle, normalize_payment_cycle}
use billingrse_backend.Domain.Vendor
use billingrse_backend.Domain.VendorResolution
use billingrse_backend.GoContext.{live}
use billingrse_backend.EligibilityStage
use billingrse_backend.EligibilityStage.{judge_all, judge, count_items}
use billingrse_backend.BillingStage
use billingrse_backend.BillingStage.Types.{save_billing}
use billingrse_backend.Workflow.Types.{ResolvedItem, EligibilityResult, BillingResult, StageFailure}
use billingrse_backend.Workflow.Parts.{EligibilityCommand, BillingCommand}
use billingrse_backend.Workflow.Adapters.{
  judge_eligibility, create_billings, to_target, to_eligibility_result, to_creation,
  to_billing_result, to_eligible,
}
use billingrse_backend.Workflow.Adapters.Creation.{IsUnchecked}
use billingrse_backend.Workflow.Adapters.Pipeline.{create_billings-stage}
use billingrse_backend.Examples.Instances.{ascii_table, literal_floats, thousandths}
use billingrse_backend.Examples.Stages.{receipt, save_all}

abbrev resolved : ResolvedItem Text
resolved = record {
  parsed_email_id = 1;
  email_id = 5;
  external_message_id = txt "m-1";
  vendor_id = 3;
  vendor_name = txt "Cafe";
  matched_by = txt "name_exact";
  parsed = receipt;
}

abbrev command : EligibilityCommand Text
command = record { user_id = 7; resolved_items = resolved ∷ [] }

abbrev judged : EligibilityResult Text
judged = to_eligibility_result (
    count_items
      (judge_all ℕ 7 EligibilityStage.empty_result (map to_target command.resolved_items)))

abbrev creation : BillingCommand Text
creation = record { user_id = 7; eligible_items = judged.eligible_items }

abbrev billed : BillingResult
billed = to_billing_result (
    BillingStage.count_items
      (BillingStage.create_all save_all 7 BillingStage.empty_result
        (map to_creation judged.eligible_items) []).0)

judge_runs : judge_eligibility ℕ live command ≡ ok judged
unfolding judge_eligibility EligibilityStage.execute
judge_runs = refl

-- What the stage computes with.
stage_opened : Unit {0}
unfolding to_eligibility_result to_eligible judge_all judge EligibilityStage.normalize
    EligibilityStage.validate EligibilityStage.eligible_item evaluate resolved_product_name
    ParsedEmail.normalize ParsedEmail.normalize_items normalize_optional_string
    normalize_optional_upper_string normalize_optional_payment_cycle normalize_optional_time
    normalize_amount normalize_amount_decimal normalize_currency new_payment_cycle
    PaymentCycle.validate normalize_payment_cycle Vendor.validate VendorResolution.validate eq_text
    trim_space trim_left trim_right is_space to_upper to_lower fields_func join byte_length
stage_opened = tt

judged-IsUnchecked : All IsUnchecked judged.eligible_items
unfolding stage_opened
judged-IsUnchecked = ((inl refl, refl), tt)

create_runs : (create_billings live (some save_all) creation []).0 ≡ ok billed
unfolding create_billings BillingStage.execute stage_opened
create_runs = refl

create_billings-stage_example : All (λ (f : StageFailure). f.stage ≡ save_billing) billed.failures
create_billings-stage_example =
    create_billings-stage save_all live live command [] judged billed judge_runs judged-IsUnchecked
      create_runs
