-- ===== src/EmailStore.antt =====
-- The repository of fetched e-mails, internal/mailfetch/infrastructure/email_repository.go. The
-- database behind it (gorm on MySQL) is the interface `EmailDatabase`, on a state `S` and with errors
-- `X`, and `marshal` is json.Marshal on a list of texts; logging is left out.
pub mod Chunks
pub mod Reports
pub mod Stage
use billingrse_backend.Prelude.{
  ℕ, suc, zero, ◌+◌, Bool, true, false, ◌||◌, Option, none, some, List, [], ◌∷◌, ◌++◌, map, Outcome,
  ok, err, ◌>>=◌, ◌>>◌, length, is_empty, if◌then◌else◌,
}
use billingrse_backend.GoText.{Text, txt, trim_space, eq_text, has_key}
use billingrse_backend.GoTime.{Time, utc}
use billingrse_backend.GoSources.{Sources}
use billingrse_backend.Domain.Email.{FetchedEmail, Email, EmailError, new_email_from_fetched_dto}
use billingrse_backend.MailFetch.Types.{
  MessageFailure, EmailSource, SourceError, validate_source, SaveResult, normalize_stage,
  save_stage, invalid_fetched_email, duplicate_external_message_id, email_save_failed,
  status_created, status_existing,
}
use billingrse_backend.MailFetch.Messages.{
  invalid_fetched_email_message, duplicate_external_message_message, email_save_failure_message,
}
use billingrse_backend.MailFetch.{message_failure}
use Chunks.{chunks}

-- emailRecord; the database assigns the id.
pub record EmailRecord : Type 0 where
  pub id : ℕ
  pub user_id : ℕ
  pub provider : Text
  pub account_identifier : Text
  pub external_message_id : Text
  pub subject : Text
  pub from_raw : Text
  pub to_json : Text
  pub body_digest : Text
  pub received_at : Time
  pub created_run_id : Option Text
  pub created_at : Time
  pub updated_at : Time

pub record PreparedEmail (F : Type 0) : Type 0 where
  pub email : Email F
  pub to_json : Text

pub record EmailDatabase (S X : Type 0) : Type 0 where
  -- `Clauses(OnConflict{DoNothing}).Create(&records)`, the commit of the transaction around it, and
  -- `Where("user_id = ? AND external_message_id IN ?").Find`.
  pub create_if_absent : List EmailRecord → S → Outcome X (Unit {0}) × S
  pub commit : S → Outcome X (Unit {0}) × S
  pub find : ℕ → List Text → S → Outcome X (List EmailRecord) × S

-- The errors of SaveAllIfAbsent; `insert_failed` is batchInsertError.
pub data StoreError (X : Type 0) : Type 0 where
  source_invalid : SourceError → StoreError X
  failed_to_encode : X → StoreError X
  insert_failed commit_failed failed_to_find : X → StoreError X
  not_found_after_save : Text → StoreError X

-- `finalMap[id]`, for the map that the loop over the records fills: a later record replaces an
-- earlier one.
abbrev pub later : Option EmailRecord → Bool → EmailRecord → Option EmailRecord
later (some found) same row = some found
later none same row = if same then some row else none

unfoldable pub final_record : Text → List EmailRecord → Option EmailRecord
final_record id [] = none
final_record id (row ∷ rows) = later (final_record id rows) (eq_text id row.external_message_id) row

abbrev pub is_created_by : Text → Option Text → Bool
is_created_by run_id none = false
is_created_by run_id (some created_run_id) = eq_text created_run_id run_id

abbrev pub save_result : Text → EmailRecord → SaveResult
save_result run_id row = record {
  email_id = row.id;
  external_message_id = row.external_message_id;
  status = if is_created_by run_id row.created_run_id then status_created else status_existing;
}

module _ {F : Type 0} where
  abbrev pub external_message_id : PreparedEmail F → Text
  external_message_id item = item.email.external_message_id

  -- buildChunkSaveFailures.
  abbrev pub chunk_save_failure : PreparedEmail F → MessageFailure
  chunk_save_failure item =
      message_failure item.email.external_message_id save_stage email_save_failed
        (email_save_failure_message item.email.external_message_id)

  unfoldable pub build_chunk_save_failures : List (PreparedEmail F) → List MessageFailure
  build_chunk_save_failures chunk = map chunk_save_failure chunk

  abbrev pub email_record : ℕ → EmailSource → Text → Time → PreparedEmail F → EmailRecord
  email_record user_id source run_id now item = record {
    id = 0;
    user_id = user_id;
    provider = trim_space source.provider;
    account_identifier = trim_space source.account_identifier;
    external_message_id = item.email.external_message_id;
    subject = item.email.subject;
    from_raw = item.email.from;
    to_json = item.to_json;
    body_digest = item.email.body_digest;
    received_at = item.email.received_at;
    created_run_id = some run_id;
    created_at = now;
    updated_at = now;
  }

module _ {X : Type 0} where
  abbrev pub found_result : Text → Text → Option EmailRecord → Outcome (StoreError X) SaveResult
  found_result run_id id none = err (not_found_after_save id)
  found_result run_id id (some row) = ok (save_result run_id row)

module _ {F X : Type 0} where
  -- The loop that builds the results of a chunk.
  unfoldable pub chunk_results :
      Text → List EmailRecord → List (PreparedEmail F) → Outcome (StoreError X) (List SaveResult)
  chunk_results run_id rows [] = ok []
  chunk_results run_id rows (item ∷ items) =
      found_result run_id (external_message_id item) (final_record (external_message_id item) rows)
      >>= λ result. chunk_results run_id rows items >>= λ results. ok (result ∷ results)

module _ {F S X : Type 0} (sources : Sources S) (db : EmailDatabase S X) where
  abbrev pub with_rows :
      Text
      → List (PreparedEmail F)
      → Outcome X (List EmailRecord) × S
      → Outcome (StoreError X) (List SaveResult) × S
  with_rows run_id chunk (err e, s) = (err (failed_to_find e), s)
  with_rows run_id chunk (ok rows, s) = (chunk_results run_id rows chunk, s)

  abbrev pub with_commit :
      ℕ
      → Text
      → List (PreparedEmail F)
      → S
      → Outcome X (Unit {0}) × S
      → Outcome (StoreError X) (List SaveResult) × S
  with_commit user_id run_id chunk before (err e, s) = (err (commit_failed e), before)
  with_commit user_id run_id chunk before (ok u, s) =
      with_rows run_id chunk (db.find user_id (map external_message_id chunk) s)

  -- The transaction: if it fails, the database is as it was before.
  abbrev pub with_insert :
      ℕ
      → Text
      → List (PreparedEmail F)
      → S
      → Outcome X (Unit {0}) × S
      → Outcome (StoreError X) (List SaveResult) × S
  with_insert user_id run_id chunk before (err e, s) = (err (insert_failed e), before)
  with_insert user_id run_id chunk before (ok u, s) =
      with_commit user_id run_id chunk before (db.commit s)

  -- savePreparedEmails, for a chunk that is not empty.
  unfoldable pub save_prepared_emails :
      ℕ → EmailSource → List (PreparedEmail F) → S → Outcome (StoreError X) (List SaveResult) × S
  save_prepared_emails user_id source chunk s =
      let (run_id, s1) = sources.new_string s in
      let (now, s2) = sources.now s1 in
      with_insert user_id run_id chunk s2
        (db.create_if_absent (map (email_record user_id source run_id (utc now)) chunk) s2)

module _ {F X : Type 0} where
  -- What the loop over the slices does with the answer for one.
  abbrev pub by_chunk :
      List (PreparedEmail F)
      → Outcome (StoreError X) (List SaveResult)
      → List SaveResult × List MessageFailure
      → Outcome (StoreError X) (List SaveResult × List MessageFailure)
  by_chunk chunk (err (insert_failed e)) (results, failures) =
      ok (results, failures ++ build_chunk_save_failures chunk)
  by_chunk chunk (err e) (results, failures) = err e
  by_chunk chunk (ok saved) (results, failures) = ok (results ++ saved, failures)

  abbrev pub add_prepared :
      PreparedEmail F
      → List (PreparedEmail F) × List MessageFailure
      → Outcome (StoreError X) (List (PreparedEmail F) × List MessageFailure)
  add_prepared item (prepared, failures) = ok (item ∷ prepared, failures)

  abbrev pub add_failure :
      MessageFailure
      → List (PreparedEmail F) × List MessageFailure
      → Outcome (StoreError X) (List (PreparedEmail F) × List MessageFailure)
  add_failure f (prepared, failures) = ok (prepared, f ∷ failures)

  abbrev pub with_json :
      Email F
      → Outcome X Text
      → Outcome (StoreError X) (List (PreparedEmail F) × List MessageFailure)
      → Outcome (StoreError X) (List (PreparedEmail F) × List MessageFailure)
  with_json email (err e) rest = err (failed_to_encode e)
  with_json email (ok json) rest = rest >>= add_prepared (record { email = email; to_json = json })

  -- The end of the loop's body in prepareEmails, after the call of NewEmailFromFetchedDTO.
  abbrev pub with_email :
      (List Text → Outcome X Text)
      → Text
      → Outcome EmailError (Email F)
      → Outcome (StoreError X) (List (PreparedEmail F) × List MessageFailure)
      → Outcome (StoreError X) (List (PreparedEmail F) × List MessageFailure)
  with_email marshal id (err e) rest =
      rest
      >>= add_failure (
          message_failure id normalize_stage invalid_fetched_email
            (invalid_fetched_email_message id))
  with_email marshal id (ok email) rest = with_json email (marshal email.to) rest

-- The keys of `seenMessageIDs` after an e-mail.
abbrev pub seen_after : List Text → Text → List Text
seen_after seen id = if is_empty id || has_key id seen then seen else id ∷ seen

module _ {F X : Type 0} (marshal : List Text → Outcome X Text) where
  -- The loop of prepareEmails, with the keys of `seenMessageIDs`.
  unfoldable pub prepare_emails :
      ℕ
      → List Text
      → List FetchedEmail
      → Outcome (StoreError X) (List (PreparedEmail F) × List MessageFailure)
  prepare_emails user_id seen [] = ok ([], [])
  prepare_emails user_id seen (dto ∷ dtos) =
      let id = trim_space dto.id in
      let rest = prepare_emails user_id (seen_after seen id) dtos in
      if is_empty id
      then rest
        >>= add_failure (
            message_failure [] normalize_stage invalid_fetched_email
              (invalid_fetched_email_message (txt "unknown")))
      else if has_key id seen
      then rest
        >>= add_failure (
            message_failure id normalize_stage duplicate_external_message_id
              (duplicate_external_message_message id))
      else with_email marshal id (new_email_from_fetched_dto user_id (record dto { id = id })) rest

module _ {S X : Type 0} where
  abbrev pub next_chunk :
      (List SaveResult × List MessageFailure
        → S
        → Outcome (StoreError X) (List SaveResult × List MessageFailure) × S)
      → Outcome (StoreError X) (List SaveResult × List MessageFailure)
      → S
      → Outcome (StoreError X) (List SaveResult × List MessageFailure) × S
  next_chunk next (err e) s = (err e, s)
  next_chunk next (ok sofar) s = next sofar s

  abbrev pub with_failures :
      List MessageFailure
      → Outcome (StoreError X) (List SaveResult × List MessageFailure) × S
      → Outcome (StoreError X) (List SaveResult × List MessageFailure) × S
  with_failures failures (err e, s) = (err e, s)
  with_failures failures (ok (results, save_failures), s) =
      (ok (results, failures ++ save_failures), s)

module _ {F S X : Type 0} (sources : Sources S) (db : EmailDatabase S X) where
  -- The loop of savePreparedEmailChunks over the slices, with the results and failures so far.
  unfoldable pub save_chunks :
      ℕ
      → EmailSource
      → List (List (PreparedEmail F))
      → List SaveResult × List MessageFailure
      → S
      → Outcome (StoreError X) (List SaveResult × List MessageFailure) × S
  save_chunks user_id source [] sofar s = (ok sofar, s)
  save_chunks user_id source (chunk ∷ rest) sofar s =
      let (answer, s') = save_prepared_emails sources db user_id source chunk s in
      next_chunk (save_chunks user_id source rest) (by_chunk chunk answer sofar) s'

  -- savePreparedEmailChunks.
  unfoldable pub save_prepared_email_chunks :
      ℕ
      → EmailSource
      → List (PreparedEmail F)
      → S
      → Outcome (StoreError X) (List SaveResult × List MessageFailure) × S
  save_prepared_email_chunks user_id source prepared s =
      save_chunks user_id source (chunks prepared) ([], []) s

  abbrev pub with_prepared :
      ℕ
      → EmailSource
      → Outcome (StoreError X) (List (PreparedEmail F) × List MessageFailure)
      → S
      → Outcome (StoreError X) (List SaveResult × List MessageFailure) × S
  with_prepared user_id source (err e) s = (err e, s)
  with_prepared user_id source (ok ([], failures)) s = (ok ([], failures), s)
  with_prepared user_id source (ok (item ∷ items, failures)) s =
      with_failures failures (save_prepared_email_chunks user_id source (item ∷ items) s)

module _ (F : Type 0) {S X : Type 0} (sources : Sources S) (db : EmailDatabase S X) where
  abbrev pub with_source :
      (List Text → Outcome X Text)
      → ℕ
      → EmailSource
      → Outcome SourceError (Unit {0})
      → List FetchedEmail
      → S
      → Outcome (StoreError X) (List SaveResult × List MessageFailure) × S
  with_source marshal user_id source (err e) dtos s = (err (source_invalid e), s)
  with_source marshal user_id source (ok u) [] s = (ok ([], []), s)
  with_source marshal user_id source (ok u) (dto ∷ dtos) s =
      with_prepared {F = F} sources db user_id source
        (prepare_emails marshal user_id [] (dto ∷ dtos)) s

  -- SaveAllIfAbsent. The failures that it returns beside an error are not represented: its caller
  -- does not use them.
  unfoldable pub save_all_if_absent :
      (List Text → Outcome X Text)
      → ℕ
      → EmailSource
      → List FetchedEmail
      → S
      → Outcome (StoreError X) (List SaveResult × List MessageFailure) × S
  save_all_if_absent marshal user_id source dtos s =
      with_source marshal user_id source (validate_source source) dtos s
