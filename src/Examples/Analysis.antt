-- ===== src/Examples/Analysis.antt =====
-- The theorems of MailAnalysis and ParsedEmailStore at a concrete command: amounts are whole numbers.
use billingrse_backend.Prelude.{
  ◌≤◌, ℕ, zero, suc, ◌+◌, ◌-◌, ◌*◌, ◌≡◌, ◌≢◌, ◌↔◌, refl, Bool, true, false, none, some, List, [],
  ◌∷◌, ok, err, All, length, is_empty, ltb, ◌==◌, pos, is_negative, if◌then◌else◌,
}
use billingrse_backend.GoText.{
  Text, txt, eq_text, trim_space, trim_left, trim_right, is_space, to_upper, to_lower, byte_length,
  fields_func, join,
}
use billingrse_backend.GoTime.{is_zero}
use billingrse_backend.GoSources.{Sources}
use billingrse_backend.GoContext.{live}
use billingrse_backend.Goroutines.{waited, finished, indices, run_goroutines, finish, finish_all}
use billingrse_backend.Numbers.{Floats, FloatMath}
use billingrse_backend.Domain.Optional.{
  normalize_optional_string, normalize_optional_upper_string, normalize_optional_payment_cycle,
  normalize_optional_time,
}
use billingrse_backend.Domain.ParsedEmail
use billingrse_backend.Domain.ParsedEmail.{
  ParsedEmail, is_empty_email, normalize_item, normalize_items, with_extracted_at,
}
use billingrse_backend.MailAnalysis.Types.{
  EmailForAnalysisTarget, Command, SaveInput, ParsedEmailResultItem, Result, normalize_input,
  invalid_email_input, response_parse, analysis_response_invalid,
}
use billingrse_backend.MailAnalysis.Drafts.{
  normalize_drafts, normalize_output, normalize_save_input, validate_optional_string_bytes,
  validate_optional_amount, validate_line_item, validate_line_items, validate_parsed_email_bounds,
  validate_drafts, validate_save_input,
}
use billingrse_backend.MailAnalysis.Drafts.Bounds.{IsReading, IsInBounds, validate_save_input_iff}
use billingrse_backend.MailAnalysis.Messages.{
  message_for_invalid_email_input, message_for_analysis_response_invalid,
}
use billingrse_backend.MailAnalysis.Input.{
  message_failure, normalize_recipients, normalize_and_validate_emails,
}
use billingrse_backend.MailAnalysis.Input
use billingrse_backend.MailAnalysis.Concurrent.{Analyze, analyze_emails_concurrently}
use billingrse_backend.MailAnalysis.Kept.{IsNumbered}
use billingrse_backend.MailAnalysis.Results.{execute-IsNumbered, execute-schedule}
use billingrse_backend.MailAnalysis.{
  SaveAll, apply_fallback_billing_numbers, fill_numbers, result_items, save, settle, settle_all,
  execute,
}
use billingrse_backend.ParsedEmailStore.{
  ParsedEmailRecord, SaveError, Create, parsed_email_records, save_all,
}
use billingrse_backend.Examples.Instances.{ascii_table}

instance abbrev whole_floats : Floats ℕ
whole_floats = record {
  zero_float = 0;
  is_nan = λ f. false;
  is_inf = λ f. false;
  le_zero = λ f. f == 0;
  format_float = λ f. txt "";
}

-- Float64 is a whole number here, so that amounts have no fraction.
instance abbrev whole_math : FloatMath ℕ
whole_math = record {
  literal = λ t.
      if eq_text t (txt "1e-9")
      then 0
      else if eq_text t (txt "1000")
      then 1000
      else 1000000000000000;
  abs = λ f. f;
  round_float = λ f. f;
  minus = λ f g. f - g;
  times = λ f g. f * g;
  gt = λ f g. ltb g f;
}

-- A draft without a billing number.
abbrev draft : ParsedEmail ℕ
draft = record {
  product_name_raw = none;
  product_name_display = some (txt " Coffee ");
  vendor_name = some (txt "Cafe");
  billing_number = none;
  invoice_number = none;
  amount = some 450;
  currency = some (txt "jpy");
  billing_date = none;
  payment_cycle = some (txt "One Time");
  line_items = [];
  extracted_at = record { instant = 0; location = 0 };
}

abbrev email : ℕ → EmailForAnalysisTarget
email id = record {
  email_id = id;
  external_message_id = txt "m-1";
  subject = txt "Receipt";
  from = txt "shop@example.com";
  to = [];
  received_at = record { instant = 20; location = 0 };
  body = txt "450 yen";
  body_digest = txt "0f";
}

-- The second e-mail has no id, and the analyzer refuses the third one.
abbrev command : Command
command = record { user_id = 7; emails = email 5 ∷ email 0 ∷ email 6 ∷ [] }

abbrev analyze : Analyze ℕ Bool
analyze zero email = ok (record { parsed_emails = draft ∷ []; prompt_version = txt "v1" })
analyze (suc idx) email = err true

abbrev sources : Sources ℕ
sources = record {
  new_string = λ s. (txt "run-1", s);
  now = λ s. (record { instant = 40; location = 9 }, s);
}

-- The state counts the rows.
abbrev numbered : ℕ → List (ParsedEmailRecord ℕ) → List (ParsedEmailRecord ℕ)
numbered n [] = []
numbered n (row ∷ rows) = record row { id = n } ∷ numbered (suc n) rows

abbrev create : Create ℕ ℕ Text
create rows s = (ok (numbered (suc s) rows), s + length rows)

-- The database gives ids from 1 on.
abbrev IsMade : ParsedEmailRecord ℕ → Type 0
IsMade row = 1 ≤ row.id

abbrev repository : SaveAll ℕ ℕ (SaveError Text)
repository = save_all sources.now live (some create)

-- What the stage computes with.
analysis_opened : Unit {0}
unfolding eq_text trim_space trim_left trim_right is_space to_upper to_lower byte_length fields_func
    join indices run_goroutines finish finish_all normalize_optional_string
    normalize_optional_upper_string normalize_optional_payment_cycle normalize_optional_time
    ParsedEmail.normalize is_empty_email normalize_item normalize_items with_extracted_at
    normalize_drafts normalize_output normalize_save_input validate_optional_string_bytes
    validate_optional_amount validate_line_item validate_line_items validate_parsed_email_bounds
    validate_drafts validate_save_input normalize_recipients normalize_and_validate_emails
    Input.normalize Input.validate analyze_emails_concurrently apply_fallback_billing_numbers
    fill_numbers result_items save settle settle_all execute parsed_email_records save_all
analysis_opened = tt

abbrev item : ParsedEmailResultItem ℕ
item = record {
  parsed_email_id = 1;
  email_id = 5;
  external_message_id = txt "m-1";
  subject = txt "Receipt";
  from = txt "shop@example.com";
  to = [];
  body_digest = txt "0f";
  parsed_email = record (ParsedEmail.normalize draft) { billing_number = some (txt "digest_0f") };
}

abbrev result : Result ℕ
result = record {
  parsed_emails = item ∷ [];
  parsed_email_count = 1;
  failures =
      message_failure normalize_input invalid_email_input
        (message_for_invalid_email_input (email 0)) (email 0)
      ∷ message_failure response_parse analysis_response_invalid
          (message_for_analysis_response_invalid (email 6)) (email 6)
      ∷ [];
}

stage_runs :
    execute
      (λ refused. refused)
      sources
      live
      (some (λ user_id. ok analyze))
      (some repository)
      (1 ∷ 0 ∷ [])
      command
      0
    ≡ (ok result, 1)
unfolding analysis_opened
stage_runs = refl

execute-IsNumbered_example :
    All
      (λ (i : ParsedEmailResultItem ℕ). IsNumbered i.body_digest i.parsed_email)
      result.parsed_emails
execute-IsNumbered_example =
    execute-IsNumbered (λ refused. refused) sources repository live (some (λ user_id. ok analyze))
      (1 ∷ 0 ∷ []) command 0 1 result stage_runs

execute-schedule_example :
    execute
      (λ refused. refused)
      sources
      live
      (some (λ user_id. ok analyze))
      (some repository)
      (1 ∷ 0 ∷ [])
      command
      0
    ≡ execute
        (λ refused. refused)
        sources
        live
        (some (λ user_id. ok analyze))
        (some repository)
        (0 ∷ 1 ∷ [])
        command
        0
unfolding analysis_opened
execute-schedule_example =
    execute-schedule (λ refused. refused) sources repository live (some (λ user_id. ok analyze))
      (1 ∷ 0 ∷ []) (0 ∷ 1 ∷ []) command 0
      (finished (0 ∷ []) 1 [] (0 ∷ []) (finished [] 0 [] [] waited))
      (finished [] 0 (1 ∷ []) (1 ∷ []) (finished [] 1 [] [] waited))

abbrev save_input : SaveInput ℕ
save_input = record {
  user_id = 7;
  email_id = 5;
  analysis_run_id = txt "run-1";
  position_base = pos 0;
  extracted_at = record { instant = 40; location = 0 };
  prompt_version = txt "v1";
  parsed_emails = draft ∷ [];
}

whole-IsReading : IsReading 1 (λ (n : ℕ). n)
unfolding eq_text
whole-IsReading = record {
  gt_abs = λ x y h k. refl;
  limit_finite = refl;
  abs_limit = refl;
  units_limit = refl;
}

validate_save_input_iff_example : (validate_save_input save_input ≡ ok tt) ↔ (
    (save_input.user_id ≢ 0)
    × ((save_input.email_id ≢ 0)
        × ((is_empty (trim_space save_input.analysis_run_id) ≡ false)
            × ((is_negative save_input.position_base ≡ false)
                × ((is_zero save_input.extracted_at ≡ false)
                    × ((is_empty (trim_space save_input.prompt_version) ≡ false)
                        × All (IsInBounds 1 (λ n. n)) save_input.parsed_emails))))))
validate_save_input_iff_example = validate_save_input_iff 1 (λ n. n) whole-IsReading save_input
