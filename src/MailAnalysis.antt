-- ===== src/MailAnalysis.antt =====
-- The mail analysis stage, internal/mailanalysis: it sorts out invalid e-mails, has the others
-- analysed concurrently and saves the drafts of each. `S` is the state behind the repository, the
-- UUID generator and the clock; `X` and `Y` are the errors of the analyzer and of the repository.
-- The factory creates the analyzer or fails. Logging is left out.
pub mod Types
pub mod Messages
pub mod Drafts
pub mod Input
pub mod Concurrent
pub mod Kept
pub mod Outcomes
pub mod Results
use billingrse_backend.Prelude.{
  ℕ, Bool, true, false, ◌&&◌, not, Option, none, some, List, [], ◌∷◌, ◌++◌, ◌+◌, Outcome, ok, err,
  length, is_empty, ◌==◌, if◌then◌else◌, pos,
}
use billingrse_backend.GoText.{Text, txt, trim_space, CaseTable}
use billingrse_backend.GoTime.{Time, utc}
use billingrse_backend.GoSources.{Sources}
use billingrse_backend.GoContext.{Context, is_nil_context}
use billingrse_backend.Domain.ParsedEmail.{ParsedEmail}
use Types.{
  EmailForAnalysisTarget, Command, AnalysisOutput, SaveInput, SavedRecord, MessageFailure,
  ParsedEmailResultItem, Result, CommandError, nil_context_given, user_id_required,
  analyzer_factory_not_configured, repository_not_configured, failed_to_create_analyzer,
  analyze_stage, response_parse, save_stage, analysis_failed, analysis_response_invalid,
  analysis_response_empty, parsed_email_save_failed,
}
use Messages.{
  message_for_analysis_failed, message_for_analysis_response_invalid,
  message_for_analysis_response_empty, message_for_parsed_email_save_failed,
}
use Drafts.{normalize_output}
use Input.{message_failure, normalize_and_validate_emails}
use Concurrent.{Analyze, AnalysisExecutionResult, analyze_emails_concurrently}

-- ParsedEmailRepository.SaveAll.
abbrev pub SaveAll : (F S Y : Type 0) → Type 0
SaveAll F S Y = SaveInput F → S → Outcome Y (List SavedRecord) × S

abbrev pub fallback_billing_number_prefix : Text
fallback_billing_number_prefix = txt "digest_"

-- `BillingNumber != nil && strings.TrimSpace(*BillingNumber) != ""`.
abbrev pub has_number : Option Text → Bool
has_number none = false
has_number (some number) = not (is_empty (trim_space number))

-- What becomes of one analysed e-mail.
pub data Verdict (F : Type 0) : Type 0 where
  stored : List (ParsedEmailResultItem F) → ℕ → Verdict F
  failed : MessageFailure → Verdict F

module _ {F : Type 0} where
  abbrev pub with_fallback : Text → ParsedEmail F → ParsedEmail F
  with_fallback fallback p =
      if has_number p.billing_number then p else record p { billing_number = some fallback }

  -- The loop of applyFallbackBillingNumbers.
  unfoldable pub fill_numbers : Text → List (ParsedEmail F) → List (ParsedEmail F)
  fill_numbers fallback [] = []
  fill_numbers fallback (p ∷ ps) = with_fallback fallback p ∷ fill_numbers fallback ps

  unfoldable pub apply_fallback_billing_numbers : List (ParsedEmail F) → Text → List (ParsedEmail F)
  apply_fallback_billing_numbers ps body_digest =
      if is_empty (trim_space body_digest)
      then ps
      else fill_numbers (fallback_billing_number_prefix ++ trim_space body_digest) ps

  abbrev pub result_item :
      EmailForAnalysisTarget → SavedRecord → ParsedEmail F → ParsedEmailResultItem F
  result_item email saved draft = record {
    parsed_email_id = saved.id;
    email_id = saved.email_id;
    external_message_id = email.external_message_id;
    subject = email.subject;
    from = email.from;
    to = email.to;
    body_digest = email.body_digest;
    parsed_email = draft;
  }

  -- The loop over the records, which stops when there are more records than drafts.
  unfoldable pub result_items :
      EmailForAnalysisTarget
      → List SavedRecord
      → List (ParsedEmail F)
      → List (ParsedEmailResultItem F)
  result_items email (saved ∷ records) (draft ∷ drafts) =
      result_item email saved draft ∷ result_items email records drafts
  result_items email _ _ = []

  abbrev pub empty_result : Result F
  empty_result = record { parsed_emails = []; parsed_email_count = 0; failures = [] }

  abbrev pub append_verdict : Result F → Verdict F → Result F
  append_verdict r (stored items count) = record r {
    parsed_emails = r.parsed_emails ++ items;
    parsed_email_count = r.parsed_email_count + count;
  }
  append_verdict r (failed f) = record r { failures = r.failures ++ f ∷ [] }

  abbrev pub by_save :
      {Y : Type 0}
      → EmailForAnalysisTarget
      → List (ParsedEmail F)
      → Outcome Y (List SavedRecord)
      → Verdict F
  by_save email drafts (err e) = failed (
      message_failure save_stage parsed_email_save_failed
        (message_for_parsed_email_save_failed email) email)
  by_save email drafts (ok records) = stored (result_items email records drafts) (length records)

-- failureForAnalyzeError.
abbrev pub failure_for_analyze_error : EmailForAnalysisTarget → Bool → MessageFailure
failure_for_analyze_error email is_response_invalid =
    if is_response_invalid
    then message_failure response_parse analysis_response_invalid
        (message_for_analysis_response_invalid email) email
    else message_failure analyze_stage analysis_failed (message_for_analysis_failed email) email

abbrev pub empty_response : EmailForAnalysisTarget → MessageFailure
empty_response email =
    message_failure response_parse analysis_response_empty
      (message_for_analysis_response_empty email) email

module _ {F S Y : Type 0} (sources : Sources S) (save_all : SaveAll F S Y) where
  -- The call of SaveAll, after those of uuid.NewString and clock.Now.
  unfoldable pub save :
      ℕ
      → EmailForAnalysisTarget
      → Text
      → List (ParsedEmail F)
      → S
      → Outcome Y (List SavedRecord) × S
  save user_id email prompt_version drafts s =
      let (run_id, s1) = sources.new_string s in
      let (now, s2) = sources.now s1 in
      save_all
        (record {
          user_id = user_id;
          email_id = email.email_id;
          analysis_run_id = run_id;
          position_base = pos 0;
          extracted_at = utc now;
          prompt_version = prompt_version;
          parsed_emails = drafts;
        })
        s2

  abbrev pub by_drafts :
      ℕ → EmailForAnalysisTarget → Text → List (ParsedEmail F) → S → Verdict F × S
  by_drafts user_id email prompt_version [] s = (failed (empty_response email), s)
  by_drafts user_id email prompt_version (draft ∷ drafts) s =
      let (saved, s') = save user_id email prompt_version (draft ∷ drafts) s in
      (by_save email (draft ∷ drafts) saved, s')

module _ {F S X Y : Type 0} ⦃table : CaseTable⦄ (is_response_invalid : X → Bool)
    (sources : Sources S) (save_all : SaveAll F S Y) where
  abbrev pub by_answer :
      ℕ → EmailForAnalysisTarget → Outcome X (AnalysisOutput F) → S → Verdict F × S
  by_answer user_id email (err e) s =
      (failed (failure_for_analyze_error email (is_response_invalid e)), s)
  by_answer user_id email (ok output) s =
      by_drafts sources save_all user_id email (normalize_output output).prompt_version
        (apply_fallback_billing_numbers (normalize_output output).parsed_emails email.body_digest) s

  -- The body of the loop of Execute.
  unfoldable pub settle : ℕ → AnalysisExecutionResult F X → S → Verdict F × S
  settle user_id analyzed s = by_answer user_id analyzed.email analyzed.answer s

  unfoldable pub settle_all : ℕ → Result F → List (AnalysisExecutionResult F X) → S → Result F × S
  settle_all user_id r [] s = (r, s)
  settle_all user_id r (analyzed ∷ rest) s =
      let (verdict, s') = settle user_id analyzed s in
      settle_all user_id (append_verdict r verdict) rest s'

module _ {F S X Y : Type 0} ⦃table : CaseTable⦄ (is_response_invalid : X → Bool)
    (sources : Sources S) where
  abbrev pub with_analyzer :
      SaveAll F S Y
      → Outcome X (Analyze F X)
      → ℕ
      → List ℕ
      → List EmailForAnalysisTarget
      → List MessageFailure
      → S
      → Outcome (CommandError X) (Result F) × S
  with_analyzer save_all (err e) user_id schedule valid failures s =
      (err (failed_to_create_analyzer e), s)
  with_analyzer save_all (ok analyze) user_id schedule valid failures s =
      let (r, s') =
        settle_all is_response_invalid sources save_all user_id
          (record empty_result { failures = failures })
          (analyze_emails_concurrently analyze schedule valid) s in
      (ok r, s')

  -- validateDependencies and what follows it; a dependency that is nil is `none`.
  abbrev pub with_dependencies :
      Option (ℕ → Outcome X (Analyze F X))
      → Option (SaveAll F S Y)
      → ℕ
      → List ℕ
      → List EmailForAnalysisTarget
      → List MessageFailure
      → S
      → Outcome (CommandError X) (Result F) × S
  with_dependencies none repository user_id schedule valid failures s =
      (err analyzer_factory_not_configured, s)
  with_dependencies (some create) none user_id schedule valid failures s =
      (err repository_not_configured, s)
  with_dependencies (some create) (some save_all) user_id schedule valid failures s =
      with_analyzer save_all (create user_id) user_id schedule valid failures s

  -- useCase.Execute, where the goroutines of the analysis finish in the order of the schedule.
  unfoldable pub execute :
      Context
      → Option (ℕ → Outcome X (Analyze F X))
      → Option (SaveAll F S Y)
      → List ℕ
      → Command
      → S
      → Outcome (CommandError X) (Result F) × S
  execute ctx factory repository schedule cmd s =
      let (valid, failures) = normalize_and_validate_emails cmd.emails in
      if is_nil_context ctx
      then (err nil_context_given, s)
      else if cmd.user_id == 0
      then (err user_id_required, s)
      else if is_empty cmd.emails
      then (ok empty_result, s)
      else if is_empty valid
      then (ok (record empty_result { failures = failures }), s)
      else with_dependencies factory repository cmd.user_id schedule valid failures s
