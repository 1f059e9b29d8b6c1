-- ===== src/BillingStage.antt =====
-- The billing stage, internal/billing: it builds a billing from each eligible item and hands it to
-- the repository, once. `S` is the state of the store behind the repository and `X` the type of
-- its errors. Logging is left out.
pub mod Types
pub mod Messages
pub mod Verdicts
pub mod Saved
use billingrse_backend.Prelude.{
  ℕ, Bool, true, false, Option, none, some, List, [], ◌∷◌, ◌++◌, map, Outcome, ok, err, ◌>>=◌, ◌>>◌,
  fail_if, length, is_empty, ◌==◌, if◌then◌else◌,
}
use billingrse_backend.GoText.{Text, trim_space, CaseTable}
use billingrse_backend.GoTime.{Time, utc}
use billingrse_backend.GoContext.{Context, is_nil_context}
use billingrse_backend.Numbers.{Floats, Decimals}
use billingrse_backend.Domain.Errors.{Error}
use billingrse_backend.Domain.LineItem.{LineItemInput}
use billingrse_backend.Domain.Billing.{Billing, new_billing}
use Types.{
  CreationLineItem, CreationTarget, Command, SaveResult, CreatedItem, DuplicateItem, Failure,
  Result, TargetError, parsed_email_id_required, email_id_required, vendor_id_required,
  billing_number_required, currency_required, payment_cycle_required, CommandError,
  nil_context_given, user_id_required, repository_not_configured, normalize_input, build_billing,
  save_billing, duplicate_billing, invalid_creation_target, billing_construct_failed,
  billing_persist_failed,
}
use Messages.{
  message_for_invalid_creation_target, message_for_billing_construct_failed,
  message_for_billing_persist_failed, message_for_duplicate_billing,
}

-- BillingRepository.SaveIfAbsent.
abbrev pub Save : (F D S X : Type 0) → Type 0
Save F D S X = Billing F D → S → Outcome X SaveResult × S

-- cloneString trims; cloneTime converts to UTC.
abbrev pub clone_string : Option Text → Option Text
clone_string none = none
clone_string (some value) = some (trim_space value)

abbrev pub clone_time : Option Time → Option Time
clone_time none = none
clone_time (some value) = some (utc value)

-- What becomes of one item.
pub data Verdict : Type 0 where
  created : CreatedItem → Verdict
  duplicate : DuplicateItem → Verdict
  failed : Failure → Verdict

abbrev pub append_verdict : Result → Verdict → Result
append_verdict r (created item) = record r { created_items = r.created_items ++ item ∷ [] }
append_verdict r (duplicate item) = record r { duplicate_items = r.duplicate_items ++ item ∷ [] }
append_verdict r (failed f) = record r { failures = r.failures ++ f ∷ [] }

abbrev pub empty_result : Result
empty_result = record {
  created_items = [];
  created_count = 0;
  duplicate_items = [];
  duplicate_count = 0;
  failures = [];
}

abbrev pub count_items : Result → Result
count_items r = record r {
  created_count = length r.created_items;
  duplicate_count = length r.duplicate_items;
}

abbrev pub counted : {S : Type 0} → Result × S → Outcome CommandError Result × S
counted (r, s) = (ok (count_items r), s)

module _ {F : Type 0} where
  -- CreationTarget.Normalize.
  unfoldable pub normalize : CreationTarget F → CreationTarget F
  normalize t = record t {
    external_message_id = trim_space t.external_message_id;
    vendor_name = trim_space t.vendor_name;
    matched_by = trim_space t.matched_by;
    product_name_display = clone_string t.product_name_display;
    billing_number = trim_space t.billing_number;
    invoice_number = clone_string t.invoice_number;
    currency = trim_space t.currency;
    payment_cycle = trim_space t.payment_cycle;
    billing_date = clone_time t.billing_date;
  }

  -- CreationTarget.Validate.
  unfoldable pub validate : CreationTarget F → Outcome TargetError (Unit {0})
  validate t = do
    fail_if (t.parsed_email_id == 0) parsed_email_id_required
    fail_if (t.email_id == 0) email_id_required
    fail_if (t.vendor_id == 0) vendor_id_required
    fail_if (is_empty t.billing_number) billing_number_required
    fail_if (is_empty t.currency) currency_required
    fail_if (is_empty t.payment_cycle) payment_cycle_required
    ok tt

  abbrev pub to_line_item_input : CreationLineItem F → LineItemInput F
  to_line_item_input item = record {
    product_name_raw = clone_string item.product_name_raw;
    product_name_display = clone_string item.product_name_display;
    amount = item.amount;
    currency = clone_string item.currency;
  }

  abbrev pub failure : Text → Text → Text → CreationTarget F → Failure
  failure stage code message target = record {
    parsed_email_id = target.parsed_email_id;
    email_id = target.email_id;
    external_message_id = target.external_message_id;
    stage = stage;
    code = code;
    message = message;
  }

module _ {F D : Type 0} where
  abbrev pub by_save :
      {X : Type 0} → CreationTarget F → Billing F D → Outcome X SaveResult → Verdict
  by_save target billing (err e) = failed (
      failure save_billing billing_persist_failed (message_for_billing_persist_failed target)
        target)
  by_save target billing (ok saved) =
      if saved.duplicate
      then duplicate (record {
        existing_billing_id = saved.billing_id;
        parsed_email_id = target.parsed_email_id;
        email_id = target.email_id;
        external_message_id = target.external_message_id;
        vendor_id = target.vendor_id;
        vendor_name = target.vendor_name;
        billing_number = billing.billing_number;
        reason_code = duplicate_billing;
        message = message_for_duplicate_billing target;
      })
      else created (record {
        billing_id = saved.billing_id;
        parsed_email_id = target.parsed_email_id;
        email_id = target.email_id;
        external_message_id = target.external_message_id;
        vendor_id = target.vendor_id;
        vendor_name = target.vendor_name;
        billing_number = billing.billing_number;
      })

module _ {F D : Type 0} ⦃fl : Floats F⦄ ⦃dec : Decimals D⦄ ⦃table : CaseTable⦄ where
  -- The call of NewBilling.
  unfoldable pub build : ℕ → CreationTarget F → Outcome Error (Billing F D)
  build user_id target =
      new_billing user_id target.vendor_id target.email_id target.billing_number
        target.invoice_number target.amount target.currency target.billing_date target.payment_cycle
        target.product_name_display (map to_line_item_input target.line_items)

module _ {F D S X : Type 0} ⦃fl : Floats F⦄ ⦃dec : Decimals D⦄ ⦃table : CaseTable⦄
    (save_if_absent : Save F D S X) where
  abbrev pub by_billing : CreationTarget F → Outcome Error (Billing F D) → S → Verdict × S
  by_billing target (err e) s = (
    failed (
        failure build_billing billing_construct_failed (message_for_billing_construct_failed target)
          target),
    s,
  )
  by_billing target (ok billing) s =
      let (saved, s') = save_if_absent billing s in (by_save target billing saved, s')

  abbrev pub by_validity : ℕ → CreationTarget F → Outcome TargetError (Unit {0}) → S → Verdict × S
  by_validity user_id target (err e) s = (
    failed (
        failure normalize_input invalid_creation_target (message_for_invalid_creation_target target)
          target),
    s,
  )
  by_validity user_id target (ok _) s = by_billing target (build user_id target) s

  -- The body of the loop of Execute.
  unfoldable pub create : ℕ → CreationTarget F → S → Verdict × S
  create user_id target s = by_validity user_id (normalize target) (validate (normalize target)) s

  unfoldable pub create_all : ℕ → Result → List (CreationTarget F) → S → Result × S
  create_all user_id r [] s = (r, s)
  create_all user_id r (target ∷ targets) s =
      let (verdict, s') = create user_id target s in
      create_all user_id (append_verdict r verdict) targets s'

module _ {F D S X : Type 0} ⦃fl : Floats F⦄ ⦃dec : Decimals D⦄ ⦃table : CaseTable⦄ where
  abbrev pub with_repository :
      Option (Save F D S X) → Command F → S → Outcome CommandError Result × S
  with_repository none cmd s = (err repository_not_configured, s)
  with_repository (some save_if_absent) cmd s =
      counted (create_all save_if_absent cmd.user_id empty_result cmd.eligible_items s)

  -- useCase.Execute.
  unfoldable pub execute :
      Context → Option (Save F D S X) → Command F → S → Outcome CommandError Result × S
  execute ctx repository cmd s =
      if is_nil_context ctx
      then (err nil_context_given, s)
      else if cmd.user_id == 0
      then (err user_id_required, s)
      else if is_empty cmd.eligible_items
      then (ok empty_result, s)
      else with_repository repository cmd s
