-- ===== src/MailAnalysis/Types.antt =====
-- What the mail analysis stage takes and returns: the types of
-- internal/mailanalysis/application/usecase.go, internal/mailanalysis/domain and the row of
-- infrastructure/parsed_email_repository.go. `F` stands for float64.
use billingrse_backend.Prelude.{ℕ, List, ℤ}
use billingrse_backend.GoText.{Text, txt}
use billingrse_backend.GoTime.{Time}
use billingrse_backend.Domain.ParsedEmail.{ParsedEmail}

abbrev pub normalize_input : Text
normalize_input = txt "normalize_input"

abbrev pub analyze_stage : Text
analyze_stage = txt "analyze"

abbrev pub response_parse : Text
response_parse = txt "response_parse"

abbrev pub save_stage : Text
save_stage = txt "save"

abbrev pub invalid_email_input : Text
invalid_email_input = txt "invalid_email_input"

abbrev pub analysis_failed : Text
analysis_failed = txt "analysis_failed"

abbrev pub analysis_response_invalid : Text
analysis_response_invalid = txt "analysis_response_invalid"

abbrev pub analysis_response_empty : Text
analysis_response_empty = txt "analysis_response_empty"

abbrev pub parsed_email_save_failed : Text
parsed_email_save_failed = txt "parsed_email_save_failed"

pub record EmailForAnalysisTarget : Type 0 where
  pub email_id : ℕ
  pub external_message_id : Text
  pub subject : Text
  pub from : Text
  pub to : List Text
  pub received_at : Time
  pub body : Text
  pub body_digest : Text

pub record Command : Type 0 where
  pub user_id : ℕ
  pub emails : List EmailForAnalysisTarget

pub record AnalysisOutput (F : Type 0) : Type 0 where
  pub parsed_emails : List (ParsedEmail F)
  pub prompt_version : Text

pub record SaveInput (F : Type 0) : Type 0 where
  pub user_id : ℕ
  pub email_id : ℕ
  pub analysis_run_id : Text
  pub position_base : ℤ
  pub extracted_at : Time
  pub prompt_version : Text
  pub parsed_emails : List (ParsedEmail F)

-- madomain.ParsedEmailRecord.
pub record SavedRecord : Type 0 where
  pub id : ℕ
  pub email_id : ℕ

pub record MessageFailure : Type 0 where
  pub email_id : ℕ
  pub external_message_id : Text
  pub stage : Text
  pub code : Text
  pub message : Text

pub record ParsedEmailResultItem (F : Type 0) : Type 0 where
  pub parsed_email_id : ℕ
  pub email_id : ℕ
  pub external_message_id : Text
  pub subject : Text
  pub from : Text
  pub to : List Text
  pub body_digest : Text
  pub parsed_email : ParsedEmail F

pub record Result (F : Type 0) : Type 0 where
  pub parsed_emails : List (ParsedEmailResultItem F)
  pub parsed_email_count : ℕ
  pub failures : List MessageFailure

-- The errors of EmailForAnalysisTarget.Validate.
pub data EmailError : Type 0 where
  email_id_required external_message_id_required body_required : EmailError

-- The errors of Execute; `X` is the type of the analyzer factory's errors.
pub data CommandError (X : Type 0) : Type 0 where
  nil_context_given user_id_required : CommandError X
  analyzer_factory_not_configured repository_not_configured : CommandError X
  failed_to_create_analyzer : X → CommandError X

-- The errors of validateParsedEmailBounds; `in_line_item` is the prefix `line_items[%d]: `.
pub data BoundsError : Type 0 where
  exceeds_max_length : Text → ℕ → BoundsError
  amount_not_finite amount_too_large amount_scale : BoundsError
  too_many_line_items : BoundsError
  in_line_item : ℕ → BoundsError → BoundsError

-- The errors of SaveInput.Validate; `in_parsed_email` is the prefix `parsed_emails[%d]: `.
pub data SaveInputError : Type 0 where
  user_id_required email_id_required analysis_run_id_required : SaveInputError
  position_base_negative extracted_at_required prompt_version_required : SaveInputError
  in_parsed_email : ℕ → BoundsError → SaveInputError
