-- ===== src/Domain/Email.antt =====
-- The fetched e-mail of internal/common/domain/email.go: FetchedEmailDTO and Email.
use billingrse_backend.Prelude.{
  ℕ, Bool, not, List, [], ◌∷◌, ◌++◌, Outcome, ok, ◌>>◌, fail_if, is_empty, ◌==◌,
}
use billingrse_backend.GoText.{Text, trim_space}
use billingrse_backend.GoTime.{Time}
use billingrse_backend.Domain.ParsedEmail.{ParsedEmail}

pub record FetchedEmail : Type 0 where
  pub id : Text
  pub subject : Text
  pub from : Text
  pub to : List Text
  pub date : Time
  pub body : Text
  pub body_digest : Text

pub record Email (F : Type 0) : Type 0 where
  pub id : ℕ
  pub user_id : ℕ
  pub external_message_id : Text
  pub subject : Text
  pub from : Text
  pub to : List Text
  pub body_digest : Text
  pub received_at : Time
  pub parsed_emails : List (ParsedEmail F)

-- The errors of Email.Validate.
pub data EmailError : Type 0 where
  email_user_id_empty email_external_message_id_empty email_body_digest_empty : EmailError

module _ {F : Type 0} where
  -- Email.Validate.
  unfoldable pub validate : Email F → Outcome EmailError (Unit {0})
  validate e = do
    fail_if (e.user_id == 0) email_user_id_empty
    fail_if (is_empty (trim_space e.external_message_id)) email_external_message_id_empty
    fail_if (is_empty (trim_space e.body_digest)) email_body_digest_empty

  -- HasParsedEmail.
  abbrev pub has_parsed_email : Email F → Bool
  has_parsed_email e = not (is_empty e.parsed_emails)

  -- AppendParsedEmail.
  abbrev pub append_parsed_email : Email F → ParsedEmail F → Email F
  append_parsed_email e parsed = record e { parsed_emails = e.parsed_emails ++ parsed ∷ [] }

  -- The fields that NewEmailFromFetchedDTO sets.
  abbrev pub email_of : ℕ → FetchedEmail → Email F
  email_of user_id dto = record {
    id = 0;
    user_id = user_id;
    external_message_id = trim_space dto.id;
    subject = dto.subject;
    from = dto.from;
    to = dto.to;
    body_digest = trim_space dto.body_digest;
    received_at = dto.date;
    parsed_emails = [];
  }

  -- NewEmailFromFetchedDTO.
  unfoldable pub new_email_from_fetched_dto : ℕ → FetchedEmail → Outcome EmailError (Email F)
  new_email_from_fetched_dto user_id dto = do
    validate (email_of user_id dto)
    ok (email_of user_id dto)
