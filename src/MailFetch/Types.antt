-- ===== src/MailFetch/Types.antt =====
-- What the mail fetch stage takes and returns: internal/mailfetch/domain and the types of
-- application/usecase.go.
use billingrse_backend.Prelude.{ℕ, not, List, Outcome, ◌>>◌, fail_if, is_empty}
use billingrse_backend.GoText.{Text, txt, trim_space}
use billingrse_backend.GoTime.{Time, is_zero, before}

abbrev pub fetch_detail : Text
fetch_detail = txt "fetch_detail"

abbrev pub normalize_stage : Text
normalize_stage = txt "normalize"

abbrev pub save_stage : Text
save_stage = txt "save"

abbrev pub fetch_detail_failed : Text
fetch_detail_failed = txt "fetch_detail_failed"

abbrev pub invalid_fetched_email : Text
invalid_fetched_email = txt "invalid_fetched_email"

abbrev pub duplicate_external_message_id : Text
duplicate_external_message_id = txt "duplicate_external_message_id"

abbrev pub email_save_failed : Text
email_save_failed = txt "email_save_failed"

pub record MessageFailure : Type 0 where
  pub external_message_id : Text
  pub stage : Text
  pub code : Text
  pub message : Text

pub record EmailSource : Type 0 where
  pub provider : Text
  pub account_identifier : Text

pub record ConnectionRef : Type 0 where
  pub connection_id : ℕ
  pub user_id : ℕ
  pub provider : Text
  pub account_identifier : Text

-- ConnectionRef.Source.
abbrev pub source : ConnectionRef → EmailSource
source r = record {
  provider = trim_space r.provider;
  account_identifier = trim_space r.account_identifier;
}

-- The errors of EmailSource.Validate.
pub data SourceError : Type 0 where
  provider_required account_identifier_required : SourceError

-- EmailSource.Validate.
unfoldable pub validate_source : EmailSource → Outcome SourceError (Unit {0})
validate_source s = do
  fail_if (is_empty (trim_space s.provider)) provider_required
  fail_if (is_empty (trim_space s.account_identifier)) account_identifier_required

-- SaveStatus is a string with these two values.
abbrev pub status_created : Text
status_created = txt "created"

abbrev pub status_existing : Text
status_existing = txt "existing"

pub record SaveResult : Type 0 where
  pub email_id : ℕ
  pub external_message_id : Text
  pub status : Text

pub record FetchCondition : Type 0 where
  pub label_name : Text
  pub since : Time
  pub until : Time

-- FetchCondition.Normalize.
abbrev pub normalize_condition : FetchCondition → FetchCondition
normalize_condition c = record c { label_name = trim_space c.label_name }

-- The errors of FetchCondition.Validate.
pub data ConditionError : Type 0 where
  label_name_required since_required until_required since_not_before_until : ConditionError

-- FetchCondition.Validate.
unfoldable pub validate_condition : FetchCondition → Outcome ConditionError (Unit {0})
validate_condition c = do
  let normalized = normalize_condition c
  fail_if (is_empty normalized.label_name) label_name_required
  fail_if (is_zero normalized.since) since_required
  fail_if (is_zero normalized.until) until_required
  fail_if (not (before normalized.since normalized.until)) since_not_before_until

pub record Command : Type 0 where
  pub user_id : ℕ
  pub connection_id : ℕ
  pub condition : FetchCondition

pub record CreatedEmail : Type 0 where
  pub email_id : ℕ
  pub external_message_id : Text
  pub subject : Text
  pub from : Text
  pub to : List Text
  pub date : Time
  pub body : Text
  pub body_digest : Text

pub record Result : Type 0 where
  pub provider : Text
  pub account_identifier : Text
  pub matched_message_count : ℕ
  pub created_emails : List CreatedEmail
  pub existing_email_ids : List ℕ
  pub failures : List MessageFailure

-- The errors of Execute; `X` is the type of those of the repositories and of the fetcher.
pub data CommandError (X : Type 0) : Type 0 where
  nil_context_given user_id_required connection_id_required : CommandError X
  condition_invalid : ConditionError → CommandError X
  refused : X → CommandError X
  failed_to_save : X → CommandError X
