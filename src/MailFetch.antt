-- ===== src/MailFetch.antt =====
-- The mail fetch stage, internal/mailfetch/application/usecase.go: it resolves the connection, has
-- its provider fetch the e-mails, sorts out the invalid and duplicate ones and saves the others.
-- `S` is the state behind the repositories and the provider, `X` the type of their errors, and
-- `sum256_hex` the hexadecimal SHA-256 sum of a text. Logging is left out.
pub mod Types
pub mod Messages
pub mod Targets
pub mod Accounts
pub mod Gmail
pub mod GmailPeriod
use billingrse_backend.Prelude.{
  ℕ, Bool, ◌||◌, Option, none, some, List, [], ◌∷◌, ◌++◌, Outcome, ok, err, ◌>>=◌, ◌>>◌, fail_if,
  length, is_empty, ◌==◌, if◌then◌else◌,
}
use billingrse_backend.GoText.{Text, trim_space, eq_text, has_key}
use billingrse_backend.GoTime.{is_zero}
use billingrse_backend.GoContext.{Context, is_nil_context}
use billingrse_backend.Domain.Email.{FetchedEmail}
use Types.{
  ConditionError, MessageFailure, EmailSource, ConnectionRef, source, SaveResult, FetchCondition,
  normalize_condition, validate_condition, Command, CreatedEmail, Result, CommandError,
  nil_context_given, user_id_required, connection_id_required, condition_invalid, refused,
  failed_to_save, normalize_stage, save_stage, invalid_fetched_email, duplicate_external_message_id,
  email_save_failed, status_created, status_existing,
}
use Messages.{normalize_failure_message, duplicate_failure_message, save_status_failure_message}

-- MailFetcher.Fetch.
abbrev pub Fetch : (S X : Type 0) → Type 0
Fetch S X = FetchCondition → S → Outcome X (List FetchedEmail × List MessageFailure) × S

-- EmailRepository.SaveAllIfAbsent.
abbrev pub SaveAllIfAbsent : (S X : Type 0) → Type 0
SaveAllIfAbsent S X =
    ℕ → EmailSource → List FetchedEmail → S → Outcome X (List SaveResult × List MessageFailure) × S

-- The parts of the use case.
pub record Parts (S X : Type 0) : Type 0 where
  pub find_usable_connection : ℕ → ℕ → S → Outcome X ConnectionRef × S
  pub create_fetcher : ConnectionRef → Outcome X (Fetch S X)
  pub save_all_if_absent : SaveAllIfAbsent S X

abbrev pub message_failure : Text → Text → Text → Text → MessageFailure
message_failure external_message_id stage code message = record {
  external_message_id = external_message_id;
  stage = stage;
  code = code;
  message = message;
}

-- `externalMessageID == "" || dto.Date.IsZero()`.
abbrev pub is_invalid : FetchedEmail → Bool
is_invalid dto = is_empty (trim_space dto.id) || is_zero dto.date

-- The keys of `seenMessageIDs` after an e-mail.
abbrev pub seen_after : List Text → FetchedEmail → List Text
seen_after seen dto =
    if is_invalid dto || has_key (trim_space dto.id) seen then seen else trim_space dto.id ∷ seen

abbrev pub add_target :
    FetchedEmail → List FetchedEmail × List MessageFailure → List FetchedEmail × List MessageFailure
add_target dto (targets, failures) = (dto ∷ targets, failures)

abbrev pub add_failure :
    MessageFailure
    → List FetchedEmail × List MessageFailure
    → List FetchedEmail × List MessageFailure
add_failure f (targets, failures) = (targets, f ∷ failures)

module _ (sum256_hex : Text → Text) where
  -- computeBodyDigest.
  unfoldable pub compute_body_digest : Text → Text
  compute_body_digest body = sum256_hex body

  abbrev pub save_target : FetchedEmail → FetchedEmail
  save_target dto = record dto {
    id = trim_space dto.id;
    body_digest = compute_body_digest dto.body;
  }

  -- The loop over the fetched e-mails, with the keys of `seenMessageIDs`: the save targets and the
  -- failures.
  unfoldable pub sort_fetched :
      List Text → List FetchedEmail → List FetchedEmail × List MessageFailure
  sort_fetched seen [] = ([], [])
  sort_fetched seen (dto ∷ dtos) =
      let external_message_id = trim_space dto.id in
      let rest = sort_fetched (seen_after seen dto) dtos in
      if is_invalid dto
      then add_failure
          (message_failure external_message_id normalize_stage invalid_fetched_email
            (normalize_failure_message external_message_id (is_zero dto.date)))
          rest
      else if has_key external_message_id seen
      then add_failure
          (message_failure external_message_id normalize_stage duplicate_external_message_id
            (duplicate_failure_message external_message_id))
          rest
      else add_target (save_target dto) rest

-- `saveTargetsByMessageID[id]`: the targets have different ids.
unfoldable pub target_by_message_id : Text → List FetchedEmail → Option FetchedEmail
target_by_message_id id [] = none
target_by_message_id id (target ∷ targets) =
    let rest = target_by_message_id id targets in if eq_text id target.id then some target else rest

abbrev pub created_email : SaveResult → FetchedEmail → CreatedEmail
created_email saved dto = record {
  email_id = saved.email_id;
  external_message_id = saved.external_message_id;
  subject = dto.subject;
  from = dto.from;
  to = dto.to;
  date = dto.date;
  body = dto.body;
  body_digest = dto.body_digest;
}

abbrev pub append_created : Result → SaveResult → Option FetchedEmail → Result
append_created r saved none = r
append_created r saved (some dto) = record r {
  created_emails = r.created_emails ++ created_email saved dto ∷ [];
}

-- The body of the loop over the save results.
unfoldable pub append_saved : List FetchedEmail → Result → SaveResult → Result
append_saved targets r saved =
    if eq_text saved.status status_created
    then append_created r saved (target_by_message_id saved.external_message_id targets)
    else if eq_text saved.status status_existing
    then record r { existing_email_ids = r.existing_email_ids ++ saved.email_id ∷ [] }
    else record r {
      failures =
          r.failures
          ++ message_failure saved.external_message_id save_stage email_save_failed
              (save_status_failure_message saved.external_message_id saved.status)
            ∷ [];
    }

unfoldable pub append_all_saved : List FetchedEmail → Result → List SaveResult → Result
append_all_saved targets r [] = r
append_all_saved targets r (saved ∷ results) =
    append_all_saved targets (append_saved targets r saved) results

-- The result before the e-mails are saved.
abbrev pub fetched_result : ConnectionRef → List FetchedEmail → List MessageFailure → Result
fetched_result conn dtos failures = record {
  provider = conn.provider;
  account_identifier = conn.account_identifier;
  matched_message_count = length dtos;
  created_emails = [];
  existing_email_ids = [];
  failures = failures;
}

module _ {X : Type 0} where
  abbrev pub checked_condition :
      Outcome ConditionError (Unit {0}) → Outcome (CommandError X) (Unit {0})
  checked_condition (ok u) = ok tt
  checked_condition (err e) = err (condition_invalid e)

  -- validateCommand.
  unfoldable pub validate_command : Command → Outcome (CommandError X) (Unit {0})
  validate_command cmd = do
    fail_if (cmd.user_id == 0) user_id_required
    fail_if (cmd.connection_id == 0) connection_id_required
    checked_condition (validate_condition cmd.condition)

module _ {S X : Type 0} (sum256_hex : Text → Text) (parts : Parts S X) where
  abbrev pub with_saved :
      List FetchedEmail
      → Result
      → Outcome X (List SaveResult × List MessageFailure) × S
      → Outcome (CommandError X) Result × S
  with_saved targets r (err e, s) = (err (failed_to_save e), s)
  with_saved targets r (ok (results, failures), s) =
      (ok (append_all_saved targets (record r { failures = r.failures ++ failures }) results), s)

  abbrev pub with_fetched :
      ℕ
      → ConnectionRef
      → Outcome X (List FetchedEmail × List MessageFailure) × S
      → Outcome (CommandError X) Result × S
  with_fetched user_id conn (err e, s) = (err (refused e), s)
  with_fetched user_id conn (ok (dtos, failures), s) =
      let (targets, faults) = sort_fetched sum256_hex [] dtos in
      with_saved targets (fetched_result conn dtos (failures ++ faults))
        (parts.save_all_if_absent user_id (source conn) targets s)

  abbrev pub with_fetcher :
      Command → ConnectionRef → Outcome X (Fetch S X) → S → Outcome (CommandError X) Result × S
  with_fetcher cmd conn (err e) s = (err (refused e), s)
  with_fetcher cmd conn (ok fetch) s =
      with_fetched cmd.user_id conn (fetch (normalize_condition cmd.condition) s)

  abbrev pub with_connection :
      Command → Outcome X ConnectionRef × S → Outcome (CommandError X) Result × S
  with_connection cmd (err e, s) = (err (refused e), s)
  with_connection cmd (ok conn, s) = with_fetcher cmd conn (parts.create_fetcher conn) s

  abbrev pub with_command :
      Command → Outcome (CommandError X) (Unit {0}) → S → Outcome (CommandError X) Result × S
  with_command cmd (err e) s = (err e, s)
  with_command cmd (ok u) s =
      with_connection cmd (parts.find_usable_connection cmd.user_id cmd.connection_id s)

  -- useCase.Execute.
  unfoldable pub execute : Context → Command → S → Outcome (CommandError X) Result × S
  execute ctx cmd s =
      if is_nil_context ctx
      then (err nil_context_given, s)
      else with_command cmd (validate_command cmd) s
