-- ===== src/Workflow/Start.antt =====
-- startUseCase.Start of internal/manualmailworkflow/application/start_usecase.go, with the dispatcher
-- and the history repository as functions on a state `S`. Logging is left out, and a panic, which Start
-- does not recover.
use billingrse_backend.Prelude.{ℕ, Option, [], Outcome, ok, err, ◌>>=◌, ◌>>◌, fail_if}
use billingrse_backend.GoText.{Text, txt}
use billingrse_backend.GoTime.{Time, utc}
use billingrse_backend.GoContext.{Context, is_nil_context}
use billingrse_backend.Workflow.Types.{Command, DispatchJob, status_queued}
use billingrse_backend.Workflow.Validation.{normalize_condition, validate_command}
use billingrse_backend.Workflow.ErrorMessages.{GoErrors, workflow_error_message}
use billingrse_backend.Workflow.Parts.{configured, as_error}
pub mod Dispatch

pub record StartResult : Type 0 where
  pub workflow_id : Text
  pub status : Text

pub record QueuedWorkflowHistory : Type 0 where
  pub workflow_id : Text
  pub user_id : ℕ
  pub connection_id : ℕ
  pub label_name : Text
  pub since_at : Time
  pub until_at : Time
  pub queued_at : Time

pub record WorkflowHistoryRef : Type 0 where
  pub history_id : ℕ
  pub workflow_id : Text

-- WorkflowDispatcher.
abbrev pub Dispatcher : (E S : Type 0) → Type 0
Dispatcher E S = DispatchJob → S → Outcome E (Unit {0}) × S

-- The methods of WorkflowStatusRepository that Start calls.
pub record QueueRepository (E S : Type 0) : Type 0 where
  pub create_queued : QueuedWorkflowHistory → S → Outcome E WorkflowHistoryRef × S
  pub fail : ℕ → Text → Time → Text → S → Outcome E (Unit {0}) × S

-- What Start takes from outside: nanoid.GenerateString with its alphabet and length, the clock, and
-- fmt.Errorf with a prefix and %w.
pub record StartSources (E S : Type 0) : Type 0 where
  pub generate_string : Text → ℕ → S → Outcome E Text × S
  pub now : S → Time
  pub wrap_error : Text → E → E

abbrev pub dispatch_job : Command → WorkflowHistoryRef → DispatchJob
dispatch_job cmd ref = record {
  history_id = ref.history_id;
  workflow_id = ref.workflow_id;
  user_id = cmd.user_id;
  connection_id = cmd.connection_id;
  condition = cmd.condition;
}

abbrev pub queued_history : Command → Text → Time → QueuedWorkflowHistory
queued_history cmd workflow_id now = record {
  workflow_id = workflow_id;
  user_id = cmd.user_id;
  connection_id = cmd.connection_id;
  label_name = cmd.condition.label_name;
  since_at = cmd.condition.since;
  until_at = cmd.condition.until;
  queued_at = utc now;
}

module _ {E S : Type 0} ⦃errors : GoErrors E⦄ (sources : StartSources E S) where
  -- newWorkflowID.
  abbrev pub new_workflow_id : S → Outcome E Text × S
  new_workflow_id = sources.generate_string (txt "0123456789ABCDEFGHIJKLMNOPQRSTUVWXYZ") 26

  -- The answer of Dispatch; a failure is recorded, whatever becomes of Fail.
  abbrev pub with_dispatch :
      QueueRepository E S
      → WorkflowHistoryRef
      → Outcome E (Unit {0}) × S
      → Outcome E StartResult × S
  with_dispatch repository ref (ok u, s) =
      (ok (record { workflow_id = ref.workflow_id; status = status_queued }), s)
  with_dispatch repository ref (err e, s) = (
    err e,
    (repository.fail ref.history_id [] (utc (sources.now s)) (workflow_error_message [] e) s).1,
  )

  abbrev pub with_history :
      Dispatcher E S
      → QueueRepository E S
      → Command
      → Outcome E WorkflowHistoryRef × S
      → Outcome E StartResult × S
  with_history dispatch repository cmd (err e, s) = (err e, s)
  with_history dispatch repository cmd (ok ref, s) =
      with_dispatch repository ref (dispatch (dispatch_job cmd ref) s)

  abbrev pub with_id :
      Dispatcher E S
      → QueueRepository E S
      → Command
      → Outcome E Text × S
      → Outcome E StartResult × S
  with_id dispatch repository cmd (err e, s) =
      (err (sources.wrap_error (txt "failed to generate workflow id") e), s)
  with_id dispatch repository cmd (ok workflow_id, s) =
      with_history dispatch repository cmd
        (repository.create_queued (queued_history cmd workflow_id (sources.now s)) s)

  -- Start after its checks.
  unfoldable pub accept :
      Dispatcher E S → QueueRepository E S → Command → S → Outcome E StartResult × S
  accept dispatch repository cmd s =
      with_id dispatch repository (record cmd { condition = normalize_condition cmd.condition })
        (new_workflow_id s)

  -- The checks before the first call.
  unfoldable pub check_start :
      Context
      → Option (Dispatcher E S)
      → Option (QueueRepository E S)
      → Command
      → Outcome E (Dispatcher E S × QueueRepository E S)
  check_start ctx dispatcher repository cmd = do
    fail_if (is_nil_context ctx) errors.nil_context
    as_error (validate_command cmd)
    dispatch ← configured dispatcher (txt "workflow_dispatcher")
    queue ← configured repository (txt "workflow_status_repository")
    ok (dispatch, queue)

  abbrev pub checked_start :
      Command → S → Outcome E (Dispatcher E S × QueueRepository E S) → Outcome E StartResult × S
  checked_start cmd s (err e) = (err e, s)
  checked_start cmd s (ok (dispatch, queue)) = accept dispatch queue cmd s

  -- Start; a dispatcher or a repository that is nil is `none`.
  unfoldable pub start :
      Context
      → Option (Dispatcher E S)
      → Option (QueueRepository E S)
      → Command
      → S
      → Outcome E StartResult × S
  start ctx dispatcher repository cmd s =
      checked_start cmd s (check_start ctx dispatcher repository cmd)
