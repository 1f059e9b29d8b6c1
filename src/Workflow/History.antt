-- ===== src/Workflow/History.antt =====
-- The rows that the history repository writes, internal/manualmailworkflow/infrastructure/
-- workflow_status_repository.go, but for List. The statements of the database (gorm on MySQL) and the
-- clock are parameters, on a state `S` and with errors `X`. Logging, and the texts that wrap an error,
-- are left out.
pub mod Lifecycle
use billingrse_backend.Prelude.{
  ℕ, suc, ◌+◌, Bool, true, false, not, Option, none, some, List, [], ◌∷◌, ◌++◌, map, Outcome, ok,
  err, ◌>>=◌, ◌>>◌, fail_if, length, is_empty, ◌==◌, if◌then◌else◌,
}
use billingrse_backend.GoText.{Text, txt, trim_space, eq_text}
use billingrse_backend.GoTime.{Time, utc}
use billingrse_backend.GoContext.{Context, nil_context, live}
use billingrse_backend.Workflow.Types.{
  StageFailureRecord, StageProgress, status_queued, status_running, status_failed, stage_fetch,
  stage_analysis, stage_vendor_resolution, stage_billing_eligibility, stage_billing,
}
use billingrse_backend.Workflow.StatusRepository.{is_supported_stage, counted_failure_record_count}

-- The three counters of a stage.
pub record StageCounts : Type 0 where
  pub success_count : ℕ
  pub business_failure_count : ℕ
  pub technical_failure_count : ℕ

-- manualMailWorkflowHistoryRecord.
pub record HistoryRow : Type 0 where
  pub id : ℕ
  pub workflow_id : Text
  pub user_id : ℕ
  pub provider : Text
  pub account_identifier : Text
  pub label_name : Text
  pub since_at : Time
  pub until_at : Time
  pub status : Text
  pub current_stage : Option Text
  pub queued_at : Time
  pub finished_at : Option Time
  pub error_message : Option Text
  pub fetch_counts : StageCounts
  pub analysis_counts : StageCounts
  pub vendor_resolution_counts : StageCounts
  pub billing_eligibility_counts : StageCounts
  pub billing_counts : StageCounts
  pub created_at : Time
  pub updated_at : Time

-- manualMailWorkflowStageFailureRecord.
pub record FailureRow : Type 0 where
  pub workflow_history_id : ℕ
  pub stage : Text
  pub external_message_id : Option Text
  pub reason_code : Text
  pub message : Text
  pub created_at : Time

-- The statements: `Model(&row{}).Where("id = ?", id).Updates(…)`, where the columns are given by what
-- they make of a row, with the number of rows affected; `Create(&records)`; and the commit of a
-- transaction.
pub record HistoryDatabase (S X : Type 0) : Type 0 where
  pub update_history : ℕ → (HistoryRow → HistoryRow) → S → Outcome X ℕ × S
  pub create_failures : List FailureRow → S → Outcome X (Unit {0}) × S
  pub commit : S → Outcome X (Unit {0}) × S
  pub now : S → Time

pub data HistoryError (X : Type 0) : Type 0 where
  nil_context_given database_not_configured : HistoryError X
  current_stage_required record_not_found failure_records_count_mismatch : HistoryError X
  unsupported_workflow_stage : Text → HistoryError X
  statement_failed : X → HistoryError X

module _ {S X : Type 0} where
  -- The checks of the context and of the database, which may be nil.
  abbrev pub opened :
      Context → Option (HistoryDatabase S X) → Outcome (HistoryError X) (HistoryDatabase S X)
  opened nil_context db = err nil_context_given
  opened live none = err database_not_configured
  opened live (some db) = ok db

  abbrev pub run_on :
      {A : Type 0}
      → Outcome (HistoryError X) A
      → (A → S → Outcome (HistoryError X) (Unit {0}) × S)
      → S
      → Outcome (HistoryError X) (Unit {0}) × S
  run_on (err e) rest s = (err e, s)
  run_on (ok a) rest s = rest a s

  abbrev pub affected : Outcome X ℕ × S → Outcome (HistoryError X) (Unit {0}) × S
  affected (err e, s) = (err (statement_failed e), s)
  affected (ok n, s) = (fail_if (n == 0) record_not_found, s)

  abbrev pub update :
      HistoryDatabase S X
      → ℕ
      → (HistoryRow → HistoryRow)
      → S
      → Outcome (HistoryError X) (Unit {0}) × S
  update db id change s = affected (db.update_history id change s)

  abbrev pub committed : S → Outcome X (Unit {0}) × S → Outcome (HistoryError X) (Unit {0}) × S
  committed before (ok u, s) = (ok tt, s)
  committed before (err e, s) = (err (statement_failed e), before)

  -- Transaction: what fails, in the body or at its commit, leaves the database as it was before.
  abbrev pub transaction :
      HistoryDatabase S X
      → S
      → Outcome (HistoryError X) (Unit {0}) × S
      → Outcome (HistoryError X) (Unit {0}) × S
  transaction db before (err e, s) = (err e, before)
  transaction db before (ok u, s) = committed before (db.commit s)

abbrev pub zero_counts : StageCounts
zero_counts = record { success_count = 0; business_failure_count = 0; technical_failure_count = 0 }

pub record QueuedHistory : Type 0 where
  pub workflow_id : Text
  pub user_id : ℕ
  pub provider : Text
  pub account_identifier : Text
  pub label_name : Text
  pub since_at : Time
  pub until_at : Time
  pub queued_at : Time

-- The row that CreateQueued inserts, after resolveConnectionSnapshot; the database gives it the id.
unfoldable pub queued_row : ℕ → QueuedHistory → Time → HistoryRow
queued_row id cmd now = record {
  id = id;
  workflow_id = trim_space cmd.workflow_id;
  user_id = cmd.user_id;
  provider = cmd.provider;
  account_identifier = cmd.account_identifier;
  label_name = trim_space cmd.label_name;
  since_at = utc cmd.since_at;
  until_at = utc cmd.until_at;
  status = status_queued;
  current_stage = none;
  queued_at = utc cmd.queued_at;
  finished_at = none;
  error_message = none;
  fetch_counts = zero_counts;
  analysis_counts = zero_counts;
  vendor_resolution_counts = zero_counts;
  billing_eligibility_counts = zero_counts;
  billing_counts = zero_counts;
  created_at = now;
  updated_at = now;
}

abbrev pub running : Text → Time → HistoryRow → HistoryRow
running stage now row = record row {
  status = status_running;
  current_stage = some stage;
  error_message = none;
  updated_at = now;
}

-- MarkRunning.
unfoldable pub mark_running :
    {S X : Type 0}
    → Context
    → Option (HistoryDatabase S X)
    → ℕ
    → Text
    → S
    → Outcome (HistoryError X) (Unit {0}) × S
mark_running ctx db history_id current_stage = run_on (opened ctx db) (λ db.
    run_on (fail_if (is_empty (trim_space current_stage)) current_stage_required)
      (λ _ s. update db history_id (running (trim_space current_stage) (utc (db.now s))) s))

abbrev pub counts_of : StageProgress → StageCounts
counts_of p = record {
  success_count = p.success_count;
  business_failure_count = p.business_failure_count;
  technical_failure_count = p.technical_failure_count;
}

-- The columns that stageCountColumns picks.
unfoldable pub set_counts : Text → StageCounts → HistoryRow → HistoryRow
set_counts stage counts row =
    if eq_text stage stage_fetch
    then record row { fetch_counts = counts }
    else if eq_text stage stage_analysis
    then record row { analysis_counts = counts }
    else if eq_text stage stage_vendor_resolution
    then record row { vendor_resolution_counts = counts }
    else if eq_text stage stage_billing_eligibility
    then record row { billing_eligibility_counts = counts }
    else if eq_text stage stage_billing
    then record row { billing_counts = counts }
    else row

abbrev pub touched : Time → HistoryRow → HistoryRow
touched now row = record row { updated_at = now }

abbrev pub failure_row : ℕ → Time → StageFailureRecord → FailureRow
failure_row history_id now f = record {
  workflow_history_id = history_id;
  stage = f.stage;
  external_message_id = f.external_message_id;
  reason_code = f.reason_code;
  message = f.message;
  created_at = now;
}

-- The checks of SaveStageProgress.
unfoldable pub check_progress : {X : Type 0} → StageProgress → Outcome (HistoryError X) (Unit {0})
check_progress p = do
  fail_if (not (is_supported_stage p.stage)) (unsupported_workflow_stage p.stage)
  fail_if
      (not (
        counted_failure_record_count p.failure_records
        == p.business_failure_count + p.technical_failure_count))
      failure_records_count_mismatch

abbrev pub counted_row : StageProgress → Time → HistoryRow → HistoryRow
counted_row p now row = touched now (set_counts (trim_space p.stage) (counts_of p) row)

abbrev pub failed_rows : StageProgress → Time → List FailureRow
failed_rows p now = map (failure_row p.history_id now) p.failure_records

module _ {S X : Type 0} where
  abbrev pub created : Outcome X (Unit {0}) × S → Outcome (HistoryError X) (Unit {0}) × S
  created (ok u, s) = (ok tt, s)
  created (err e, s) = (err (statement_failed e), s)

  abbrev pub after_update :
      HistoryDatabase S X
      → StageProgress
      → Time
      → Outcome (HistoryError X) (Unit {0}) × S
      → Outcome (HistoryError X) (Unit {0}) × S
  after_update db p now (err e, s) = (err e, s)
  after_update db p now (ok u, s) =
      if is_empty p.failure_records
      then (ok tt, s)
      else created (db.create_failures (failed_rows p now) s)

  -- The body of the transaction.
  abbrev pub save_rows :
      HistoryDatabase S X → StageProgress → Time → S → Outcome (HistoryError X) (Unit {0}) × S
  save_rows db p now s = after_update db p now (update db p.history_id (counted_row p now) s)

  -- SaveStageProgress.
  unfoldable pub save_stage_progress :
      Context
      → Option (HistoryDatabase S X)
      → StageProgress
      → S
      → Outcome (HistoryError X) (Unit {0}) × S
  save_stage_progress ctx db p = run_on (opened ctx db) (λ db.
      run_on (check_progress p) (λ _ s. transaction db s (save_rows db p (utc (db.now s)) s)))

abbrev pub terminal : Text → Option Text → Time → Option Text → Time → HistoryRow → HistoryRow
terminal status current_stage finished_at error_message now row = record row {
  status = status;
  current_stage = current_stage;
  finished_at = some finished_at;
  error_message = error_message;
  updated_at = now;
}

-- The trimmed text, and nil when nothing is left of it.
abbrev pub filled : Text → Option Text
filled value = if is_empty (trim_space value) then none else some (trim_space value)

module _ {S X : Type 0} where
  -- updateTerminalStatus.
  unfoldable pub update_terminal_status :
      Context
      → Option (HistoryDatabase S X)
      → ℕ
      → Text
      → Option Text
      → Time
      → Option Text
      → S
      → Outcome (HistoryError X) (Unit {0}) × S
  update_terminal_status ctx db history_id status current_stage finished_at error_message =
      run_on (opened ctx db) (λ db s.
        update db history_id
          (terminal status current_stage (utc finished_at) error_message (utc (db.now s))) s)

  -- Complete.
  unfoldable pub complete :
      Context
      → Option (HistoryDatabase S X)
      → ℕ
      → Text
      → Time
      → S
      → Outcome (HistoryError X) (Unit {0}) × S
  complete ctx db history_id status finished_at =
      update_terminal_status ctx db history_id status none finished_at none

  -- Fail.
  unfoldable pub fail :
      Context
      → Option (HistoryDatabase S X)
      → ℕ
      → Text
      → Time
      → Text
      → S
      → Outcome (HistoryError X) (Unit {0}) × S
  fail ctx db history_id current_stage finished_at error_message =
      update_terminal_status ctx db history_id status_failed (filled current_stage) finished_at
        (filled error_message)
