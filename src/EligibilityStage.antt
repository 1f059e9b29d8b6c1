-- ===== src/EligibilityStage.antt =====
-- The billingeligibility stage, internal/billingeligibility: it sorts the resolved items into
-- eligible ones, ineligible ones and failures. Logging is left out.
pub mod Types
pub mod Messages
pub mod Verdicts
pub mod Billable
use billingrse_backend.Prelude.{
  ℕ, Bool, not, ◌&&◌, Option, none, some, List, [], ◌∷◌, ◌++◌, Outcome, ok, err, ◌>>=◌, ◌>>◌,
  fail_if, length, is_nil, is_empty, ◌==◌, if◌then◌else◌,
}
use billingrse_backend.GoText.{Text, trim_space, to_upper, CaseTable}
use billingrse_backend.GoContext.{Context, is_nil_context}
use billingrse_backend.Numbers.{Floats, Decimals}
use billingrse_backend.Domain.Errors.{
  Error, eligibility_product_name_empty, eligibility_amount_empty, eligibility_amount_invalid,
  eligibility_currency_empty, eligibility_currency_invalid, eligibility_payment_cycle_empty,
  eligibility_payment_cycle_invalid, eligibility_billing_number_empty,
}
use billingrse_backend.Domain.Optional.{string_value}
use billingrse_backend.Domain.ParsedEmail
use billingrse_backend.Domain.ParsedEmail.{ParsedLineItem, normalize_item}
use billingrse_backend.Domain.VendorResolution.{Resolution}
use billingrse_backend.Domain.Eligibility.{evaluate, resolved_product_name}
use Types.{
  Target, Command, EligibleLineItem, EligibleItem, IneligibleItem, Failure, Result, TargetError,
  parsed_email_id_required, email_id_required, vendor_id_required, vendor_name_required,
  CommandError, nil_context_given, user_id_required, invalid_eligibility_target,
  billing_eligibility_failed, amount_empty, product_name_empty, amount_invalid, currency_empty,
  currency_invalid, billing_number_empty, payment_cycle_empty, payment_cycle_invalid,
}
use Messages.{message_for_eligibility_reason, message_for_eligibility_failure}

-- reasonCodeForError; `none` is the answer `"", false`.
unfoldable pub reason_code_for_error : Error → Option Text
reason_code_for_error eligibility_product_name_empty = some product_name_empty
reason_code_for_error eligibility_amount_empty = some amount_empty
reason_code_for_error eligibility_amount_invalid = some amount_invalid
reason_code_for_error eligibility_currency_empty = some currency_empty
reason_code_for_error eligibility_currency_invalid = some currency_invalid
reason_code_for_error eligibility_billing_number_empty = some billing_number_empty
reason_code_for_error eligibility_payment_cycle_empty = some payment_cycle_empty
reason_code_for_error eligibility_payment_cycle_invalid = some payment_cycle_invalid
reason_code_for_error _ = none

-- What becomes of one item.
pub data Verdict (F : Type 0) : Type 0 where
  eligible : EligibleItem F → Verdict F
  ineligible : IneligibleItem → Verdict F
  failed : Failure → Verdict F

module _ {F : Type 0} where
  -- EligibilityTarget.Validate.
  unfoldable pub validate : Target F → Outcome TargetError (Unit {0})
  validate t = do
    fail_if (t.parsed_email_id == 0) parsed_email_id_required
    fail_if (t.email_id == 0) email_id_required
    fail_if (t.vendor_id == 0) vendor_id_required
    fail_if (is_empty t.vendor_name) vendor_name_required
    ok tt

  abbrev pub is_empty_line : EligibleLineItem F → Bool
  is_empty_line i =
      is_nil i.product_name_raw
      && is_nil i.product_name_display
      && is_nil i.amount
      && is_nil i.currency

  -- The resolution that Execute hands to the policy.
  abbrev pub target_resolution : ℕ → Target F → Resolution
  target_resolution user_id target =
      some (record { id = target.vendor_id; user_id = user_id; name = target.vendor_name })

  abbrev pub failure : Text → Target F → Failure
  failure code target = record {
    parsed_email_id = target.parsed_email_id;
    email_id = target.email_id;
    external_message_id = target.external_message_id;
    code = code;
    message = message_for_eligibility_failure code target;
  }

  abbrev pub ineligible_item : Text → Target F → IneligibleItem
  ineligible_item reason_code target = record {
    parsed_email_id = target.parsed_email_id;
    email_id = target.email_id;
    external_message_id = target.external_message_id;
    vendor_id = target.vendor_id;
    vendor_name = target.vendor_name;
    matched_by = target.matched_by;
    reason_code = reason_code;
    message = message_for_eligibility_reason reason_code target;
  }

  -- The tail of the loop's body, for an error of the policy.
  abbrev pub refuse : Option Text → Target F → Verdict F
  refuse none target = failed (failure billing_eligibility_failed target)
  refuse (some reason_code) target = ineligible (ineligible_item reason_code target)

  abbrev pub append_verdict : Result F → Verdict F → Result F
  append_verdict r (eligible item) = record r { eligible_items = r.eligible_items ++ item ∷ [] }
  append_verdict r (ineligible item) = record r {
    ineligible_items = r.ineligible_items ++ item ∷ [];
  }
  append_verdict r (failed f) = record r { failures = r.failures ++ f ∷ [] }

  abbrev pub empty_result : Result F
  empty_result = record {
    eligible_items = [];
    eligible_count = 0;
    ineligible_items = [];
    ineligible_count = 0;
    failures = [];
  }

  abbrev pub count_items : Result F → Result F
  count_items r = record r {
    eligible_count = length r.eligible_items;
    ineligible_count = length r.ineligible_items;
  }

module _ {F : Type 0} ⦃fl : Floats F⦄ where
  abbrev pub float_value : Option F → F
  float_value none = fl.zero_float
  float_value (some amount) = amount

module _ ⦃table : CaseTable⦄ where
  -- normalizeCurrencyPtr.
  unfoldable pub normalize_currency_ptr : Option Text → Option Text
  normalize_currency_ptr none = none
  normalize_currency_ptr (some value) =
      if is_empty (trim_space value) then none else some (to_upper (trim_space value))

  -- `if currency == nil && fallbackCurrency != "" { … }`.
  abbrev pub currency_or : Option Text → Text → Option Text
  currency_or none fallback = if is_empty fallback then none else some fallback
  currency_or (some currency) fallback = some currency

module _ {F : Type 0} ⦃table : CaseTable⦄ where
  -- EligibilityTarget.Normalize.
  unfoldable pub normalize : Target F → Target F
  normalize t = record t {
    external_message_id = trim_space t.external_message_id;
    vendor_name = trim_space t.vendor_name;
    matched_by = trim_space t.matched_by;
    parsed = ParsedEmail.normalize t.parsed;
  }

  unfoldable pub to_line : Text → ParsedLineItem F → EligibleLineItem F
  to_line fallback_currency item =
      let normalized = normalize_item item in
      record {
        product_name_raw = normalized.product_name_raw;
        product_name_display = normalized.product_name_display;
        amount = normalized.amount;
        currency = currency_or (normalize_currency_ptr normalized.currency) fallback_currency;
      }

  -- The loop of toLineItems.
  unfoldable pub to_lines : Text → List (ParsedLineItem F) → List (EligibleLineItem F)
  to_lines fallback_currency [] = []
  to_lines fallback_currency (item ∷ items) =
      let rest = to_lines fallback_currency items in
      if is_empty_line (to_line fallback_currency item)
      then rest
      else to_line fallback_currency item ∷ rest

  unfoldable pub to_line_items : List (ParsedLineItem F) → Text → List (EligibleLineItem F)
  to_line_items items fallback_currency = to_lines (trim_space (to_upper fallback_currency)) items

module _ {F : Type 0} ⦃fl : Floats F⦄ ⦃table : CaseTable⦄ where
  unfoldable pub eligible_item : Target F → EligibleItem F
  eligible_item target =
      let parsed = target.parsed in
      record {
        parsed_email_id = target.parsed_email_id;
        email_id = target.email_id;
        external_message_id = target.external_message_id;
        vendor_id = target.vendor_id;
        vendor_name = target.vendor_name;
        matched_by = target.matched_by;
        product_name_display = resolved_product_name parsed;
        billing_number = string_value parsed.billing_number;
        invoice_number = parsed.invoice_number;
        amount = float_value parsed.amount;
        currency = string_value parsed.currency;
        billing_date = parsed.billing_date;
        payment_cycle = string_value parsed.payment_cycle;
        line_items = to_line_items parsed.line_items (string_value parsed.currency);
      }

  abbrev pub by_policy : Outcome Error (Unit {0}) → Target F → Verdict F
  by_policy (ok _) target = eligible (eligible_item target)
  by_policy (err e) target = refuse (reason_code_for_error e) target

module _ {F : Type 0} (D : Type 0) ⦃fl : Floats F⦄ ⦃dec : Decimals D⦄ ⦃table : CaseTable⦄ where
  abbrev pub by_validity : ℕ → Outcome TargetError (Unit {0}) → Target F → Verdict F
  by_validity user_id (err e) target = failed (failure invalid_eligibility_target target)
  by_validity user_id (ok _) target =
      by_policy (evaluate D target.parsed (target_resolution user_id target)) target

  -- The body of the loop of Execute.
  unfoldable pub judge : ℕ → Target F → Verdict F
  judge user_id target = by_validity user_id (validate (normalize target)) (normalize target)

  unfoldable pub judge_all : ℕ → Result F → List (Target F) → Result F
  judge_all user_id r [] = r
  judge_all user_id r (target ∷ targets) =
      judge_all user_id (append_verdict r (judge user_id target)) targets

  -- useCase.Execute.
  unfoldable pub execute : Context → Command F → Outcome CommandError (Result F)
  execute ctx cmd = do
    fail_if (is_nil_context ctx) nil_context_given
    fail_if (cmd.user_id == 0) user_id_required
    if is_empty cmd.resolved_items
        then ok empty_result
        else ok (count_items (judge_all cmd.user_id empty_result cmd.resolved_items))
