-- ===== src/Workflow/Validation.antt =====
-- The checks of a workflow command, internal/manualmailworkflow/application/usecase.go.
use billingrse_backend.Prelude.{not, Outcome, ok, ◌>>◌, fail_if, is_empty, ◌==◌}
use billingrse_backend.GoText.{trim_space}
use billingrse_backend.GoTime.{is_zero, before}
use billingrse_backend.Workflow.Types.{FetchCondition, Command, DispatchJob}

-- The errors of the checks, by what is required: ErrInvalidCommand for the first four, and
-- ErrFetchConditionInvalid for the others.
pub data InvalidJob : Type 0 where
  history_id_required workflow_id_required user_id_required connection_id_required : InvalidJob
  label_name_required since_required until_required since_not_before_until : InvalidJob

-- FetchCondition.Normalize.
unfoldable pub normalize_condition : FetchCondition → FetchCondition
normalize_condition c = record c { label_name = trim_space c.label_name }

-- FetchCondition.Validate.
unfoldable pub validate_condition : FetchCondition → Outcome InvalidJob (Unit {0})
unfolding normalize_condition
validate_condition c = do
  let normalized = normalize_condition c
  fail_if (is_empty normalized.label_name) label_name_required
  fail_if (is_zero normalized.since) since_required
  fail_if (is_zero normalized.until) until_required
  fail_if (not (before normalized.since normalized.until)) since_not_before_until
  ok tt

unfoldable pub validate_command : Command → Outcome InvalidJob (Unit {0})
unfolding validate_condition
validate_command cmd = do
  fail_if (cmd.user_id == 0) user_id_required
  fail_if (cmd.connection_id == 0) connection_id_required
  validate_condition cmd.condition

unfoldable pub validate_dispatch_job : DispatchJob → Outcome InvalidJob (Unit {0})
unfolding validate_command
validate_dispatch_job job = do
  fail_if (job.history_id == 0) history_id_required
  fail_if (is_empty (trim_space job.workflow_id)) workflow_id_required
  validate_command (record {
    user_id = job.user_id;
    connection_id = job.connection_id;
    condition = job.condition;
  })
