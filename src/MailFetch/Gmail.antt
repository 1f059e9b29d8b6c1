-- ===== src/MailFetch/Gmail.antt =====
-- The Gmail fetcher, internal/mailfetch/infrastructure/gmail_mail_fetcher.go, with the connection
-- reader and the fetcher factory, connection_reader_adapter.go and mail_fetcher_factory.go. The
-- Gmail client (internal/library/gmail) is a parameter. The eight workers each take the next message
-- and write its own element of the results; a schedule lists the messages in the order in which
-- their details are written.
use billingrse_backend.Prelude.{
  ℕ, Bool, not, ◌||◌, List, [], ◌∷◌, Outcome, ok, err, is_empty, if◌then◌else◌,
}
use billingrse_backend.GoText.{Text, txt, trim_space, to_lower, eq_text, CaseTable}
use billingrse_backend.GoTime.{Time, zero_time, is_zero, before}
use billingrse_backend.Goroutines.{run_goroutines}
use billingrse_backend.Domain.Email.{FetchedEmail}
use billingrse_backend.MailFetch.Types.{
  MessageFailure, ConnectionRef, FetchCondition, fetch_detail, normalize_stage, fetch_detail_failed,
  invalid_fetched_email,
}
use billingrse_backend.MailFetch.Messages.{
  fetch_detail_failure_message, normalize_fetched_email_failure_message,
}
use billingrse_backend.MailFetch.{Fetch, message_failure}

-- gmailMessageClient; the detail of a message may depend on the call, which is numbered by the
-- index of the message.
pub record GmailClient (S X : Type 0) : Type 0 where
  pub get_messages_by_label_name : Text → Time → S → Outcome X (List Text) × S
  pub get_gmail_detail : S → ℕ → Text → Outcome X FetchedEmail

-- The errors of Fetch, of Create and of FindUsableConnection.
pub data FetchError (X : Type 0) : Type 0 where
  provider_session_build_failed provider_list_failed : X → FetchError X
  provider_label_not_found : Text → FetchError X
  provider_unsupported : Text → FetchError X
  connection_not_found connection_unavailable : FetchError X
  failed_to_resolve : X → FetchError X

pub record DetailResult (X : Type 0) : Type 0 where
  pub message_id : Text
  pub answer : Outcome X FetchedEmail

abbrev zero_detail : FetchedEmail
zero_detail = record {
  id = [];
  subject = [];
  from = [];
  to = [];
  date = zero_time;
  body = [];
  body_digest = [];
}

-- fallbackExternalMessageID.
abbrev pub fallback_external_message_id : Text → Text → Text
fallback_external_message_id preferred fallback =
    if is_empty (trim_space preferred) then trim_space fallback else trim_space preferred

abbrev pub trimmed_dto : FetchedEmail → FetchedEmail
trimmed_dto dto = record dto { id = trim_space dto.id }

-- `dto.Date.Before(cond.Since) || !dto.Date.Before(cond.Until)`.
abbrev pub is_outside : FetchCondition → FetchedEmail → Bool
is_outside cond dto = before dto.date cond.since || not (before dto.date cond.until)

abbrev pub by_dto :
    FetchCondition
    → Text
    → FetchedEmail
    → List FetchedEmail × List MessageFailure
    → List FetchedEmail × List MessageFailure
by_dto cond message_id dto (fetched, failures) =
    if is_empty dto.id || is_zero dto.date
    then (
      fetched,
      message_failure (fallback_external_message_id dto.id message_id) normalize_stage
            invalid_fetched_email
            (normalize_fetched_email_failure_message
              (fallback_external_message_id dto.id message_id) (is_zero dto.date))
          ∷ failures,
    )
    else if is_outside cond dto
    then (fetched, failures)
    else (dto ∷ fetched, failures)

module _ {X : Type 0} where
  abbrev pub detail : Text → Outcome X FetchedEmail → DetailResult X
  detail message_id answer = record { message_id = message_id; answer = answer }

  -- fetchGmailDetailsConcurrently.
  unfoldable pub fetch_gmail_details_concurrently :
      (ℕ → Text → Outcome X FetchedEmail) → List ℕ → List Text → List (DetailResult X)
  fetch_gmail_details_concurrently get_detail schedule message_ids =
      run_goroutines (detail [] (ok zero_detail)) (λ idx id. detail id (get_detail idx id)) schedule
        message_ids

  abbrev pub by_answer :
      FetchCondition
      → Text
      → Outcome X FetchedEmail
      → List FetchedEmail × List MessageFailure
      → List FetchedEmail × List MessageFailure
  by_answer cond message_id (err e) (fetched, failures) = (
    fetched,
    message_failure message_id fetch_detail fetch_detail_failed
          (fetch_detail_failure_message message_id)
        ∷ failures,
  )
  by_answer cond message_id (ok dto) sorted = by_dto cond message_id (trimmed_dto dto) sorted

  -- The loop of Fetch over the details.
  unfoldable pub sort_details :
      FetchCondition → List (DetailResult X) → List FetchedEmail × List MessageFailure
  sort_details cond [] = ([], [])
  sort_details cond (d ∷ ds) = by_answer cond d.message_id d.answer (sort_details cond ds)

module _ {X : Type 0} (is_label_not_found : X → Bool) where
  abbrev pub list_error : FetchCondition → X → FetchError X
  list_error cond e =
      if is_label_not_found e
      then provider_label_not_found cond.label_name
      else provider_list_failed e

module _ {S X : Type 0} (is_label_not_found : X → Bool) where
  abbrev pub with_messages :
      GmailClient S X
      → List ℕ
      → FetchCondition
      → Outcome X (List Text) × S
      → Outcome (FetchError X) (List FetchedEmail × List MessageFailure) × S
  with_messages client schedule cond (err e, s) = (err (list_error is_label_not_found cond e), s)
  with_messages client schedule cond (ok message_ids, s) = (
    ok (
        sort_details cond
          (fetch_gmail_details_concurrently (client.get_gmail_detail s) schedule message_ids)),
    s,
  )

  abbrev pub with_client :
      List ℕ
      → FetchCondition
      → Outcome X (GmailClient S X) × S
      → Outcome (FetchError X) (List FetchedEmail × List MessageFailure) × S
  with_client schedule cond (err e, s) = (err (provider_session_build_failed e), s)
  with_client schedule cond (ok client, s) =
      with_messages client schedule cond
        (client.get_messages_by_label_name cond.label_name cond.since s)

  -- GmailMailFetcherAdapter.Fetch; `build` is the call of the client builder for the connection.
  unfoldable pub fetch :
      (ConnectionRef → S → Outcome X (GmailClient S X) × S)
      → ConnectionRef
      → List ℕ
      → Fetch S (FetchError X)
  fetch build conn schedule cond s = with_client schedule cond (build conn s)

module _ {S X : Type 0} ⦃table : CaseTable⦄ (is_label_not_found : X → Bool) where
  -- DefaultMailFetcherFactory.Create.
  unfoldable pub create_fetcher :
      (ConnectionRef → S → Outcome X (GmailClient S X) × S)
      → List ℕ
      → ConnectionRef
      → Outcome (FetchError X) (Fetch S (FetchError X))
  create_fetcher build schedule conn =
      if eq_text (to_lower (trim_space conn.provider)) (txt "gmail")
      then ok (fetch is_label_not_found build conn schedule)
      else err (provider_unsupported conn.provider)

-- macdomain.EmailCredential, the fields that the reader uses.
pub record Credential : Type 0 where
  pub id : ℕ
  pub user_id : ℕ
  pub type_name : Text
  pub gmail_address : Text
  pub access_token : Text
  pub refresh_token : Text

module _ {X : Type 0} ⦃table : CaseTable⦄ where
  -- The end of FindUsableConnection, for the credential that was found.
  unfoldable pub usable_connection : Credential → Outcome (FetchError X) ConnectionRef
  usable_connection c =
      let provider = to_lower (trim_space c.type_name) in
      let account_identifier = to_lower (trim_space c.gmail_address) in
      if is_empty provider
        || is_empty account_identifier
        || is_empty (trim_space c.access_token)
        || is_empty (trim_space c.refresh_token)
      then err connection_unavailable
      else ok (record {
        connection_id = c.id;
        user_id = c.user_id;
        provider = provider;
        account_identifier = account_identifier;
      })

module _ {S X : Type 0} ⦃table : CaseTable⦄ (is_credential_not_found : X → Bool) where
  abbrev pub with_credential : Outcome X Credential × S → Outcome (FetchError X) ConnectionRef × S
  with_credential (err e, s) =
      (if is_credential_not_found e then err connection_not_found else err (failed_to_resolve e), s)
  with_credential (ok c, s) = (usable_connection c, s)

  -- MailAccountConnectionReaderAdapter.FindUsableConnection.
  unfoldable pub find_usable_connection :
      (ℕ → ℕ → S → Outcome X Credential × S) → ℕ → ℕ → S → Outcome (FetchError X) ConnectionRef × S
  find_usable_connection find_credential user_id connection_id s =
      with_credential (find_credential connection_id user_id s)
