-- ===== src/MailAnalysis/Input.antt =====
-- The e-mails that the stage takes: EmailForAnalysisTarget of internal/mailanalysis/application/
-- usecase.go and the loop that sorts out the invalid ones.
use billingrse_backend.Prelude.{
  List, [], ◌∷◌, Outcome, ok, err, ◌>>◌, fail_if, is_empty, ◌==◌, if◌then◌else◌,
}
use billingrse_backend.GoText.{Text, trim_space}
use billingrse_backend.MailAnalysis.Types.{
  EmailForAnalysisTarget, MessageFailure, EmailError, email_id_required,
  external_message_id_required, body_required, normalize_input, invalid_email_input,
}
use billingrse_backend.MailAnalysis.Messages.{message_for_invalid_email_input}

-- The loop over the recipients.
unfoldable pub normalize_recipients : List Text → List Text
normalize_recipients [] = []
normalize_recipients (recipient ∷ recipients) =
    let rest = normalize_recipients recipients in
    if is_empty (trim_space recipient) then rest else trim_space recipient ∷ rest

-- EmailForAnalysisTarget.Normalize.
unfoldable pub normalize : EmailForAnalysisTarget → EmailForAnalysisTarget
normalize e = record e {
  external_message_id = trim_space e.external_message_id;
  subject = trim_space e.subject;
  from = trim_space e.from;
  body = trim_space e.body;
  body_digest = trim_space e.body_digest;
  to = normalize_recipients e.to;
}

-- EmailForAnalysisTarget.Validate.
unfoldable pub validate : EmailForAnalysisTarget → Outcome EmailError (Unit {0})
validate e = do
  fail_if (e.email_id == 0) email_id_required
  fail_if (is_empty (trim_space e.external_message_id)) external_message_id_required
  fail_if (is_empty (trim_space e.body)) body_required

abbrev pub message_failure : Text → Text → Text → EmailForAnalysisTarget → MessageFailure
message_failure stage code message email = record {
  email_id = email.email_id;
  external_message_id = email.external_message_id;
  stage = stage;
  code = code;
  message = message;
}

-- The first component are the valid e-mails.
abbrev pub sort_email :
    Outcome EmailError (Unit {0})
    → EmailForAnalysisTarget
    → List EmailForAnalysisTarget × List MessageFailure
    → List EmailForAnalysisTarget × List MessageFailure
sort_email (ok u) email (valid, failures) = (email ∷ valid, failures)
sort_email (err e) email (valid, failures) = (
  valid,
  message_failure normalize_input invalid_email_input (message_for_invalid_email_input email) email
      ∷ failures,
)

-- normalizeAndValidateEmails.
unfoldable pub normalize_and_validate_emails :
    List EmailForAnalysisTarget → List EmailForAnalysisTarget × List MessageFailure
normalize_and_validate_emails [] = ([], [])
normalize_and_validate_emails (email ∷ emails) =
    sort_email (validate (normalize email)) (normalize email) (normalize_and_validate_emails emails)
