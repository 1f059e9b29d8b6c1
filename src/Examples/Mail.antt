-- ===== src/Examples/Mail.antt =====
-- The theorems of MailFetch and EmailStore on a concrete provider and database.
use billingrse_backend.Prelude.{
  ℕ, zero, suc, ◌+◌, ◌≡◌, refl, Bool, false, ◌||◌, some, List, [], ◌∷◌, Outcome, ok, All, length,
  if◌then◌else◌,
}
use billingrse_backend.GoText.{
  Text, txt, eq_text, has_key, trim_space, trim_left, trim_right, is_space,
}
use billingrse_backend.GoSources.{Sources}
use billingrse_backend.GoContext.{live}
use billingrse_backend.Goroutines.{waited, finished, run_goroutines, finish, finish_all, indices}
use billingrse_backend.Domain.Email.{FetchedEmail, Email, new_email_from_fetched_dto}
use billingrse_backend.Domain.Email
use billingrse_backend.MailFetch.Types.{
  ConnectionRef, EmailSource, SaveResult, Command, CreatedEmail, Result, validate_source,
  validate_condition,
}
use billingrse_backend.MailFetch.Targets.{IsFresh, ids, sort_fetched-IsFresh}
use billingrse_backend.MailFetch.Accounts.{IsAnalysable, execute-IsAnalysable}
use billingrse_backend.MailFetch.Gmail.{
  GmailClient, fetch, sort_details, fetch_gmail_details_concurrently, with_messages,
}
use billingrse_backend.MailFetch.GmailPeriod.{IsInPeriod, fetch-IsInPeriod, fetch-schedule}
use billingrse_backend.MailFetch.{
  Fetch, Parts, compute_body_digest, sort_fetched, target_by_message_id, append_saved,
  append_all_saved, validate_command, execute,
}
use billingrse_backend.EmailStore.Chunks.{
  take, drop, chunks_within, chunks, concat, IsBatch, concat-chunks,
}
use billingrse_backend.EmailStore.{
  EmailRecord, EmailDatabase, StoreError, final_record, build_chunk_save_failures, chunk_results,
  save_prepared_emails, prepare_emails, save_chunks, save_prepared_email_chunks, save_all_if_absent,
}
use billingrse_backend.EmailStore.Reports.{keys, IsReport, save_all_if_absent-Reports}
use billingrse_backend.EmailStore.Stage.{wired, execute-wired}

abbrev mail : Text → ℕ → FetchedEmail
mail id date = record {
  id = id;
  subject = txt "Receipt";
  from = txt "shop@example.com";
  to = [];
  date = record { instant = date; location = 0 };
  body = txt "450 yen";
  body_digest = [];
}

-- Two e-mails, one of them twice, and one without an id.
abbrev mails : List FetchedEmail
mails = mail (txt "m-1") 20 ∷ mail (txt " m-1 ") 20 ∷ mail (txt "m-2") 30 ∷ mail [] 30 ∷ []

-- The digest of the examples has no white space and is never empty.
abbrev digest : Text → Text
digest body = txt "0f"

-- A table of e-mails, with a row for m-2.
abbrev old_row : EmailRecord
old_row = record {
  id = 1;
  user_id = 7;
  provider = txt "gmail";
  account_identifier = txt "me@example.com";
  external_message_id = txt "m-2";
  subject = [];
  from_raw = [];
  to_json = txt "[]";
  body_digest = txt "0f";
  received_at = record { instant = 30; location = 0 };
  created_run_id = some (txt "run-0");
  created_at = record { instant = 31; location = 0 };
  updated_at = record { instant = 31; location = 0 };
}

abbrev is_stored : Text → List EmailRecord → Bool
is_stored id [] = false
is_stored id (row ∷ rows) = eq_text row.external_message_id id || is_stored id rows

abbrev insert_rows : List EmailRecord → List EmailRecord → List EmailRecord
insert_rows [] table = table
insert_rows (row ∷ rows) table = insert_rows rows (
    if is_stored row.external_message_id table
    then table
    else record row { id = suc (length table) } ∷ table)

abbrev memory : EmailDatabase (List EmailRecord) Text
memory = record {
  create_if_absent = λ rows table. (ok tt, insert_rows rows table);
  commit = λ table. (ok tt, table);
  find = λ user_id ids table. (ok table, table);
}

abbrev sources : Sources (List EmailRecord)
sources = record {
  new_string = λ table. (txt "run-1", table);
  now = λ table. (record { instant = 40; location = 9 }, table);
}

abbrev marshal : List Text → Outcome Text Text
marshal recipients = ok (txt "[]")

abbrev source : EmailSource
source = record { provider = txt "gmail"; account_identifier = txt "me@example.com" }

-- What the store computes with.
mail_opened : Unit {0}
unfolding eq_text has_key trim_space trim_left trim_right is_space compute_body_digest sort_fetched
    target_by_message_id append_saved append_all_saved validate_command validate_condition execute
    validate_source new_email_from_fetched_dto Email.validate take drop chunks_within chunks concat
    final_record build_chunk_save_failures chunk_results save_prepared_emails prepare_emails
    save_chunks save_prepared_email_chunks save_all_if_absent
mail_opened = tt

abbrev saved : List SaveResult
saved =
    record { email_id = 2; external_message_id = txt "m-1"; status = txt "created" }
    ∷ record { email_id = 1; external_message_id = txt "m-2"; status = txt "existing" }
    ∷ []

-- The e-mails that remain when the stage has sorted them.
abbrev targets : List FetchedEmail
targets =
    record (mail (txt "m-1") 20) { body_digest = txt "0f" }
    ∷ record (mail (txt "m-2") 30) { body_digest = txt "0f" }
    ∷ []

store_runs :
    (save_all_if_absent ℕ sources memory marshal 7 source targets (old_row ∷ [])).0 ≡ ok (saved, [])
unfolding mail_opened
store_runs = refl

save_all_if_absent-Reports_example : (length saved + 0 ≡ 2) × All (IsReport (keys targets)) saved
unfolding mail_opened
save_all_if_absent-Reports_example =
    save_all_if_absent-Reports ℕ sources memory marshal 7 source targets (old_row ∷ []) _ saved []
      refl

concat-chunks_example : (concat (chunks mails) ≡ mails) × All IsBatch (chunks mails)
concat-chunks_example = concat-chunks mails

sort_fetched-IsFresh_example : IsFresh [] (ids (sort_fetched digest [] mails).0)
sort_fetched-IsFresh_example = sort_fetched-IsFresh digest [] mails

abbrev connection : ConnectionRef
connection = record {
  connection_id = 3;
  user_id = 7;
  provider = txt "gmail";
  account_identifier = txt "me@example.com";
}

abbrev find_connection :
    ℕ → ℕ → List EmailRecord → Outcome (StoreError Text) ConnectionRef × List EmailRecord
find_connection user_id connection_id table = (ok connection, table)

abbrev fetch_mails : Fetch (List EmailRecord) (StoreError Text)
fetch_mails cond table = (ok (mails, []), table)

abbrev create :
    ConnectionRef → Outcome (StoreError Text) (Fetch (List EmailRecord) (StoreError Text))
create conn = ok fetch_mails

abbrev command : Command
command = record {
  user_id = 7;
  connection_id = 3;
  condition = record {
    label_name = txt "billing";
    since = record { instant = 10; location = 0 };
    until = record { instant = 50; location = 0 };
  };
}

abbrev created : CreatedEmail
created = record {
  email_id = 2;
  external_message_id = txt "m-1";
  subject = txt "Receipt";
  from = txt "shop@example.com";
  to = [];
  date = record { instant = 20; location = 0 };
  body = txt "450 yen";
  body_digest = txt "0f";
}

abbrev parts : Parts (List EmailRecord) (StoreError Text)
parts = wired ℕ digest sources memory marshal find_connection create

-- The result of the run: one created e-mail, an existing one, and two failures.
abbrev result : Result
result = record {
  provider = txt "gmail";
  account_identifier = txt "me@example.com";
  matched_message_count = 4;
  created_emails = created ∷ [];
  existing_email_ids = 1 ∷ [];
  failures = (sort_fetched digest [] mails).1;
}

stage_runs : (execute digest parts live command (old_row ∷ [])).0 ≡ ok result
unfolding mail_opened
stage_runs = refl

execute-wired_example :
    (result.matched_message_count ≡ 4)
    × (length result.created_emails + (length result.existing_email_ids + length result.failures)
        ≡ 4)
unfolding mail_opened
execute-wired_example =
    execute-wired ℕ digest sources memory marshal find_connection create live command (old_row ∷ [])
      (old_row ∷ []) (old_row ∷ []) _ result connection fetch_mails mails [] refl refl refl refl

execute-IsAnalysable_example : All (IsAnalysable digest) result.created_emails
unfolding mail_opened
execute-IsAnalysable_example =
    execute-IsAnalysable digest parts live command (old_row ∷ []) _ result refl

-- A Gmail client with a message in the period and one after it.
abbrev detail_of : ℕ → Outcome Text FetchedEmail
detail_of zero = ok (mail (txt "m-1") 20)
detail_of (suc idx) = ok (mail (txt "m-2") 70)

abbrev client : GmailClient ℕ Text
client = record {
  get_messages_by_label_name = λ label since s. (ok (txt "m-1" ∷ txt "m-2" ∷ []), s);
  get_gmail_detail = λ s idx id. detail_of idx;
}

abbrev not_found : Text → Bool
not_found e = false

fetch-IsInPeriod_example : All (IsInPeriod command.condition) (mail (txt "m-1") 20 ∷ [])
unfolding mail_opened fetch sort_details fetch_gmail_details_concurrently run_goroutines finish
    finish_all
fetch-IsInPeriod_example =
    fetch-IsInPeriod not_found (λ conn s. (ok client, s)) connection (1 ∷ 0 ∷ []) command.condition
      0 0 (mail (txt "m-1") 20 ∷ []) [] refl

fetch-schedule_example :
    with_messages not_found client
      (1 ∷ 0 ∷ [])
      command.condition
      (ok (txt "m-1" ∷ txt "m-2" ∷ []), 0)
    ≡ with_messages not_found client
        (0 ∷ 1 ∷ [])
        command.condition
        (ok (txt "m-1" ∷ txt "m-2" ∷ []), 0)
unfolding indices
fetch-schedule_example =
    fetch-schedule not_found client command.condition (txt "m-1" ∷ txt "m-2" ∷ []) 0 (1 ∷ 0 ∷ [])
      (0 ∷ 1 ∷ []) (finished (0 ∷ []) 1 [] (0 ∷ []) (finished [] 0 [] [] waited))
      (finished [] 0 (1 ∷ []) (1 ∷ []) (finished [] 1 [] [] waited))
