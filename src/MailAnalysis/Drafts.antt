-- ===== src/MailAnalysis/Drafts.antt =====
-- The drafts of an analysis and what the repository takes, internal/mailanalysis/domain/
-- parsed_email.go.
pub mod Bounds
use billingrse_backend.Prelude.{
  ℕ, suc, Bool, ◌||◌, Option, none, some, List, [], ◌∷◌, Outcome, ok, err, ◌>>=◌, ◌>>◌, fail_if,
  length, is_empty, ltb, ◌==◌, if◌then◌else◌, ℤ, is_negative,
}
use billingrse_backend.GoText.{Text, txt, trim_space, byte_length, CaseTable}
use billingrse_backend.GoTime.{is_zero, utc}
use billingrse_backend.Numbers.{Floats, FloatMath}
use billingrse_backend.Domain.ParsedEmail.{ParsedEmail, ParsedLineItem, is_empty_email}
use billingrse_backend.Domain.ParsedEmail
use billingrse_backend.MailAnalysis.Types.{
  AnalysisOutput, SaveInput, BoundsError, exceeds_max_length, amount_not_finite, amount_too_large,
  amount_scale, too_many_line_items, in_line_item, SaveInputError, user_id_required,
  email_id_required, analysis_run_id_required, position_base_negative, extracted_at_required,
  prompt_version_required, in_parsed_email,
}

abbrev pub parsed_email_text_max_bytes : ℕ
parsed_email_text_max_bytes = 65535

abbrev pub parsed_email_product_display_max_bytes : ℕ
parsed_email_product_display_max_bytes = 255

abbrev pub parsed_email_billing_number_max_bytes : ℕ
parsed_email_billing_number_max_bytes = 255

abbrev pub parsed_email_invoice_number_max_bytes : ℕ
parsed_email_invoice_number_max_bytes = 14

abbrev pub parsed_email_currency_max_bytes : ℕ
parsed_email_currency_max_bytes = 3

abbrev pub parsed_email_payment_cycle_max_bytes : ℕ
parsed_email_payment_cycle_max_bytes = 32

abbrev pub parsed_email_line_item_max_count : ℕ
parsed_email_line_item_max_count = 200

-- parsedEmailAmountMaxAbs as the source writes it; its value is the float64 nearest to it, 10^15.
abbrev pub parsed_email_amount_max_abs : Text
parsed_email_amount_max_abs = txt "999999999999999.999"

-- validateOptionalStringBytes.
unfoldable pub validate_optional_string_bytes :
    Text → Option Text → ℕ → Outcome BoundsError (Unit {0})
validate_optional_string_bytes field_name none max_bytes = ok tt
validate_optional_string_bytes field_name (some value) max_bytes =
    fail_if (ltb max_bytes (byte_length value)) (exceeds_max_length field_name max_bytes)

-- `fmt.Errorf("…[%d]: %w", idx, err)`.
abbrev pub wrap : {A B : Type 0} → (A → B) → Outcome A (Unit {0}) → Outcome B (Unit {0})
wrap f (ok u) = ok u
wrap f (err e) = err (f e)

module _ {F : Type 0} ⦃table : CaseTable⦄ where
  -- The loop that AnalysisOutput.Normalize and SaveInput.Normalize share.
  unfoldable pub normalize_drafts : List (ParsedEmail F) → List (ParsedEmail F)
  normalize_drafts [] = []
  normalize_drafts (p ∷ ps) =
      let rest = normalize_drafts ps in
      if is_empty_email (ParsedEmail.normalize p) then rest else ParsedEmail.normalize p ∷ rest

  -- AnalysisOutput.Normalize.
  unfoldable pub normalize_output : AnalysisOutput F → AnalysisOutput F
  normalize_output o = record o {
    prompt_version = trim_space o.prompt_version;
    parsed_emails = normalize_drafts o.parsed_emails;
  }

  -- SaveInput.Normalize.
  unfoldable pub normalize_save_input : SaveInput F → SaveInput F
  normalize_save_input i = record i {
    analysis_run_id = trim_space i.analysis_run_id;
    prompt_version = trim_space i.prompt_version;
    extracted_at = if is_zero i.extracted_at then i.extracted_at else utc i.extracted_at;
    parsed_emails = normalize_drafts i.parsed_emails;
  }

module _ {F : Type 0} ⦃fl : Floats F⦄ ⦃fm : FloatMath F⦄ where
  -- The distance of a scaled amount from a whole number.
  abbrev pub fraction : F → F
  fraction scaled = fm.abs (fm.minus scaled (fm.round_float scaled))

  -- validateOptionalAmount.
  unfoldable pub validate_optional_amount : Option F → Outcome BoundsError (Unit {0})
  validate_optional_amount none = ok tt
  validate_optional_amount (some value) = do
    fail_if (fl.is_nan value || fl.is_inf value) amount_not_finite
    fail_if (fm.gt (fm.abs value) (fm.literal parsed_email_amount_max_abs)) amount_too_large
    fail_if (fm.gt (fraction (fm.times value (fm.literal (txt "1000")))) (fm.literal (txt "1e-9")))
        amount_scale

  -- The body of the loop over the line items.
  unfoldable pub validate_line_item : ParsedLineItem F → Outcome BoundsError (Unit {0})
  validate_line_item i = do
    validate_optional_string_bytes (txt "line_items.product_name_raw") i.product_name_raw
        parsed_email_text_max_bytes
    validate_optional_string_bytes (txt "line_items.product_name_display") i.product_name_display
        parsed_email_product_display_max_bytes
    validate_optional_amount i.amount
    validate_optional_string_bytes (txt "line_items.currency") i.currency
        parsed_email_currency_max_bytes

  unfoldable pub validate_line_items : ℕ → List (ParsedLineItem F) → Outcome BoundsError (Unit {0})
  validate_line_items idx [] = ok tt
  validate_line_items idx (i ∷ is) =
      wrap (in_line_item idx) (validate_line_item i) >> validate_line_items (suc idx) is

  -- validateParsedEmailBounds.
  unfoldable pub validate_parsed_email_bounds : ParsedEmail F → Outcome BoundsError (Unit {0})
  validate_parsed_email_bounds p = do
    validate_optional_string_bytes (txt "product_name_raw") p.product_name_raw
        parsed_email_text_max_bytes
    validate_optional_string_bytes (txt "product_name_display") p.product_name_display
        parsed_email_product_display_max_bytes
    validate_optional_string_bytes (txt "vendor_name") p.vendor_name parsed_email_text_max_bytes
    validate_optional_string_bytes (txt "billing_number") p.billing_number
        parsed_email_billing_number_max_bytes
    validate_optional_string_bytes (txt "invoice_number") p.invoice_number
        parsed_email_invoice_number_max_bytes
    validate_optional_string_bytes (txt "currency") p.currency parsed_email_currency_max_bytes
    validate_optional_string_bytes (txt "payment_cycle") p.payment_cycle
        parsed_email_payment_cycle_max_bytes
    validate_optional_amount p.amount
    fail_if (ltb parsed_email_line_item_max_count (length p.line_items)) too_many_line_items
    validate_line_items 0 p.line_items

  -- The loop of SaveInput.Validate.
  unfoldable pub validate_drafts : ℕ → List (ParsedEmail F) → Outcome SaveInputError (Unit {0})
  validate_drafts idx [] = ok tt
  validate_drafts idx (p ∷ ps) =
      wrap (in_parsed_email idx) (validate_parsed_email_bounds p) >> validate_drafts (suc idx) ps

  -- SaveInput.Validate.
  unfoldable pub validate_save_input : SaveInput F → Outcome SaveInputError (Unit {0})
  validate_save_input i = do
    fail_if (i.user_id == 0) user_id_required
    fail_if (i.email_id == 0) email_id_required
    fail_if (is_empty (trim_space i.analysis_run_id)) analysis_run_id_required
    fail_if (is_negative i.position_base) position_base_negative
    fail_if (is_zero i.extracted_at) extracted_at_required
    fail_if (is_empty (trim_space i.prompt_version)) prompt_version_required
    validate_drafts 0 i.parsed_emails
