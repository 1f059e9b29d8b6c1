-- ===== src/Workflow/Run.antt =====
-- useCase.Execute of internal/manualmailworkflow/application/usecase.go. Logging is left out.
use billingrse_backend.Prelude.{
  none, some, Outcome, ok, err, ◌>>◌, fail_if, is_empty, if◌then◌else◌,
}
use billingrse_backend.GoText.{Text}
use billingrse_backend.GoTime.{utc}
use billingrse_backend.GoContext.{Context, is_nil_context}
use billingrse_backend.Workflow.Types.{
  DispatchJob, Result, empty_result, StageProgress, stage_fetch, stage_analysis,
  stage_vendor_resolution, stage_billing_eligibility, stage_billing,
}
use billingrse_backend.Workflow.Validation.{normalize_condition}
use billingrse_backend.Workflow.ErrorMessages.{GoErrors, workflow_error_message}
use billingrse_backend.Workflow.Parts.{
  Call, returned, refused, panicked, answered, crashed, Parts, Wired, Answer, validate_job,
  validate_dependencies,
}
use billingrse_backend.Workflow.Progress.{
  build_fetch_progress, build_analysis_progress, build_vendor_resolution_progress,
  build_billing_eligibility_progress, build_billing_progress, workflow_status,
}

module _ {F E S : Type 0} ⦃errors : GoErrors E⦄ (uc : Wired F E S) (job : DispatchJob) where
  open uc use {repository}

  -- The call of Fail in failWorkflow.
  abbrev pub call_fail : Text → E → S → Call E (Unit {0}) × S
  call_fail stage e s =
      repository.fail job.history_id stage (utc (uc.now s)) (workflow_error_message stage e) s

  -- How that call ends in the deferred handler: an error is only logged, a panic leaves Execute.
  abbrev pub after_recovery : Result F → E → Call E (Unit {0}) × S → Answer F E S
  after_recovery result e (returned u, s) = (answered result (some e), s)
  after_recovery result e (refused x, s) = (answered result (some e), s)
  after_recovery result e (panicked value, s) = (crashed value, s)

  -- The deferred handler of a panic.
  unfoldable pub recover : Text → Result F → Text → S → Answer F E S
  recover stage result value s =
      after_recovery result (errors.panic_error value)
        (call_fail stage (errors.panic_error value) s)

  -- How the call ends outside of the handler: an error is only logged, a panic is recovered.
  abbrev pub after_fail : Text → Result F → E → Call E (Unit {0}) × S → Answer F E S
  after_fail stage result e (returned u, s) = (answered result (some e), s)
  after_fail stage result e (refused x, s) = (answered result (some e), s)
  after_fail stage result e (panicked value, s) = recover stage result value s

  -- failWorkflow outside of the handler: the error of the run is returned.
  unfoldable pub fail_workflow : Text → Result F → E → S → Answer F E S
  fail_workflow stage result e s = after_fail stage result e (call_fail stage e s)

  unfoldable pub go_on :
      {A : Type 0} → Text → Result F → (A → S → Answer F E S) → Call E A → S → Answer F E S
  go_on stage result rest (returned a) s = rest a s
  go_on stage result rest (refused e) s = fail_workflow stage result e s
  go_on stage result rest (panicked value) s = recover stage result value s

  -- A call at a stage, with the result so far: an error or a panic fails the workflow.
  unfoldable pub attempt :
      {A : Type 0}
      → Text
      → Result F
      → (S → Call E A × S)
      → (A → S → Answer F E S)
      → S
      → Answer F E S
  attempt stage result call rest s = go_on stage result rest (call s).0 (call s).1

  -- The last calls of Execute, at the current stage.
  unfoldable pub finish : Text → Result F → S → Answer F E S
  finish stage result s =
      attempt stage result
        (repository.complete job.history_id (workflow_status result) (utc (uc.now s)))
        (λ _ s'. (answered result none, s')) s

  -- What Execute does for each stage in turn: it marks the stage as running, calls it, enters its
  -- value in the result and saves its progress.
  unfoldable pub run_stage :
      {A : Type 0}
      → Text
      → Result F
      → (S → Call E A × S)
      → (A → Result F)
      → (A → StageProgress)
      → (A → S → Answer F E S)
      → S
      → Answer F E S
  run_stage stage result call enter progress rest =
      attempt stage result (repository.mark_running job.history_id stage) (λ _.
        attempt stage result call
          (λ a. attempt stage (enter a) (repository.save_progress (progress a)) (λ _. rest a)))

  unfoldable pub run_billing : Result F → S → Answer F E S
  run_billing result =
      run_stage stage_billing result
        (uc.billing_stage (record {
          user_id = job.user_id;
          eligible_items = result.billing_eligibility.eligible_items;
        }))
        (λ billing. record result { billing = billing }) (build_billing_progress job.history_id)
        (λ billing. finish stage_billing (record result { billing = billing }))

  unfoldable pub run_billing_eligibility : Result F → S → Answer F E S
  run_billing_eligibility result =
      run_stage stage_billing_eligibility result
        (uc.billing_eligibility_stage (record {
          user_id = job.user_id;
          resolved_items = result.vendor_resolution.resolved_items;
        }))
        (λ eligibility. record result { billing_eligibility = eligibility })
        (build_billing_eligibility_progress job.history_id)
        (λ eligibility.
          if is_empty eligibility.eligible_items
          then finish stage_billing_eligibility
              (record result { billing_eligibility = eligibility })
          else run_billing (record result { billing_eligibility = eligibility }))

  unfoldable pub run_vendor_resolution : Result F → S → Answer F E S
  run_vendor_resolution result =
      run_stage stage_vendor_resolution result
        (uc.vendor_resolution_stage
          (record { user_id = job.user_id; parsed_emails = result.analysis.parsed_emails }))
        (λ resolution. record result { vendor_resolution = resolution })
        (build_vendor_resolution_progress job.history_id result.analysis.parsed_emails)
        (λ resolution.
          if is_empty resolution.resolved_items
          then finish stage_vendor_resolution (record result { vendor_resolution = resolution })
          else run_billing_eligibility (record result { vendor_resolution = resolution }))

  unfoldable pub run_analysis : Result F → S → Answer F E S
  run_analysis result =
      run_stage stage_analysis result
        (uc.analyze_stage (record { user_id = job.user_id; emails = result.fetch.created_emails }))
        (λ analysis. record result { analysis = analysis }) (build_analysis_progress job.history_id)
        (λ analysis.
          if is_empty analysis.parsed_emails
          then finish stage_analysis (record result { analysis = analysis })
          else run_vendor_resolution (record result { analysis = analysis }))

  -- The body of Execute, after its checks.
  unfoldable pub run_fetch : S → Answer F E S
  run_fetch =
      run_stage stage_fetch empty_result
        (uc.fetch_stage (record {
          user_id = job.user_id;
          connection_id = job.connection_id;
          condition = normalize_condition job.condition;
        }))
        (λ fetch. record empty_result { fetch = fetch }) (build_fetch_progress job.history_id)
        (λ fetch.
          if is_empty fetch.created_emails
          then finish stage_fetch (record empty_result { fetch = fetch })
          else run_analysis (record empty_result { fetch = fetch }))

module _ {F E S : Type 0} ⦃errors : GoErrors E⦄ where
  -- The checks before the first call: of the context, the job and the parts.
  unfoldable pub check_run : Parts F E S → Context → DispatchJob → Outcome E (Wired F E S)
  check_run parts ctx job =
      fail_if (is_nil_context ctx) errors.nil_context
      >> (validate_job job >> validate_dependencies parts)

  abbrev pub start : DispatchJob → S → Outcome E (Wired F E S) → Answer F E S
  start job s (ok uc) = run_fetch uc job s
  start job s (err e) = (answered empty_result (some e), s)

  -- Execute.
  unfoldable pub execute : Parts F E S → Context → DispatchJob → S → Answer F E S
  execute parts ctx job s = start job s (check_run parts ctx job)
