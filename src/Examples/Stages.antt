-- ===== src/Examples/Stages.antt =====
-- The theorems of EligibilityStage and BillingStage at concrete commands.
use billingrse_backend.Prelude.{
  false, ℕ, suc, ◌+◌, ◌≡◌, refl, none, some, List, [], ◌∷◌, ok, Outcome, length, All, arith,
}
use billingrse_backend.GoText.{Text, txt}
use billingrse_backend.GoContext.{live}
use billingrse_backend.Domain.ParsedEmail.{ParsedEmail}
use billingrse_backend.Domain.Billing.{Billing}
use billingrse_backend.EligibilityStage
use billingrse_backend.EligibilityStage.{judge_all, count_items}
use billingrse_backend.EligibilityStage.Types.{
  Target, Command as EligibilityCommand, Result as EligibilityResult, invalid_eligibility_target,
}
use billingrse_backend.EligibilityStage.Verdicts.{execute-count, execute-failures}
use billingrse_backend.EligibilityStage.Billable.{IsBillable, execute-IsBillable}
use billingrse_backend.BillingStage
use billingrse_backend.BillingStage.Types.{
  CreationTarget, SaveResult, Command as BillingCommand, Result as BillingResult,
}
use billingrse_backend.BillingStage.Verdicts.{execute_total}
use billingrse_backend.BillingStage.Saved.{execute-keeps}
use billingrse_backend.Examples.Instances.{ascii_table, literal_floats, thousandths}

abbrev pub receipt : ParsedEmail Text
receipt = record {
  product_name_raw = some (txt "Coffee");
  product_name_display = none;
  vendor_name = some (txt "Cafe");
  billing_number = some (txt "R-1");
  invoice_number = none;
  amount = some (txt "450");
  currency = some (txt "JPY");
  billing_date = none;
  payment_cycle = some (txt "one_time");
  line_items = [];
  extracted_at = record { instant = 63850000000000000000; location = 0 };
}

abbrev target : ℕ → ParsedEmail Text → Target Text
target id parsed = record {
  parsed_email_id = id;
  email_id = 5;
  external_message_id = txt "m-1";
  vendor_id = 3;
  vendor_name = txt "Cafe";
  matched_by = txt "name_exact";
  parsed = parsed;
}

-- An eligible item, an ineligible one and an invalid one.
abbrev eligibility_command : EligibilityCommand Text
eligibility_command = record {
  user_id = 7;
  resolved_items =
      target 1 receipt ∷ target 2 (record receipt { amount = none }) ∷ target 0 receipt ∷ [];
}

abbrev eligibility_result : EligibilityResult Text
eligibility_result =
    count_items (judge_all ℕ 7 EligibilityStage.empty_result eligibility_command.resolved_items)

eligibility_runs : EligibilityStage.execute ℕ live eligibility_command ≡ ok eligibility_result
unfolding EligibilityStage.execute
eligibility_runs = refl

execute-count_example :
    (eligibility_result.eligible_count ≡ length eligibility_result.eligible_items)
    × (eligibility_result.ineligible_count ≡ length eligibility_result.ineligible_items)
    × (eligibility_result.eligible_count
          + (eligibility_result.ineligible_count + length eligibility_result.failures)
        ≡ 3)
execute-count_example = execute-count ℕ live eligibility_command eligibility_result eligibility_runs

execute-failures_example :
    All (λ f. f.code ≡ invalid_eligibility_target) eligibility_result.failures
execute-failures_example =
    execute-failures ℕ live eligibility_command eligibility_result eligibility_runs

execute-IsBillable_example : All (IsBillable ℕ) eligibility_result.eligible_items
execute-IsBillable_example =
    execute-IsBillable ℕ live eligibility_command eligibility_result eligibility_runs

abbrev creation : Text → CreationTarget Text
creation number = record {
  parsed_email_id = 1;
  email_id = 5;
  external_message_id = txt "m-1";
  vendor_id = 3;
  vendor_name = txt "Cafe";
  matched_by = txt "name_exact";
  product_name_display = some (txt "Coffee");
  billing_number = number;
  invoice_number = none;
  amount = txt "450";
  currency = txt "JPY";
  billing_date = none;
  payment_cycle = txt "one_time";
  line_items = [];
}

abbrev billing_command : BillingCommand Text
billing_command = record { user_id = 7; eligible_items = creation (txt "R-1") ∷ creation [] ∷ [] }

-- A store that keeps the billings and numbers them.
abbrev pub save_all :
    Billing Text ℕ → List (Billing Text ℕ) → Outcome Text SaveResult × List (Billing Text ℕ)
save_all b s = (ok (record { billing_id = suc (length s); duplicate = false }), b ∷ s)

execute_total_example :
    (r : BillingResult) × ((BillingStage.execute live (some save_all) billing_command []).0 ≡ ok r)
    × (r.created_count ≡ length r.created_items)
    × (r.duplicate_count ≡ length r.duplicate_items)
    × (r.created_count + (r.duplicate_count + length r.failures) ≡ 2)
execute_total_example = execute_total save_all live billing_command [] refl (omega arith)

execute-keeps_example :
    All (λ b. b.user_id ≡ 7) (BillingStage.execute live (some save_all) billing_command []).1
execute-keeps_example =
    execute-keeps save_all live billing_command (All (λ b. b.user_id ≡ 7))
      (λ b s _ owner h. (owner, h)) [] tt
