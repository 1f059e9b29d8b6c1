-- ===== src/Workflow/Protocol/Execution.antt =====
-- Execute under the monitor of Workflow/Protocol.antt.
use billingrse_backend.Prelude.{some, ok, ◌≡◌, refl}
use billingrse_backend.GoContext.{live}
use billingrse_backend.Workflow.Types.{DispatchJob}
use billingrse_backend.Workflow.Validation.{validate_dispatch_job}
use billingrse_backend.Workflow.ErrorMessages.{GoErrors}
use billingrse_backend.Workflow.Parts.{Parts, Wired, validate_job, validate_dependencies}
use billingrse_backend.Workflow.Run.{run_fetch, check_run, execute}
use billingrse_backend.Workflow.Protocol.{before_run, watched, Finished}
use billingrse_backend.Workflow.Protocol.Finished.{run_fetch-Finished}

module _ {F E S : Type 0} where
  -- Parts of which none is nil.
  unfoldable pub connected : Wired F E S → Parts F E S
  connected uc = record {
    fetch_stage = some uc.fetch_stage;
    analyze_stage = some uc.analyze_stage;
    vendor_resolution_stage = some uc.vendor_resolution_stage;
    billing_eligibility_stage = some uc.billing_eligibility_stage;
    billing_stage = some uc.billing_stage;
    repository = some uc.repository;
    now = uc.now;
  }

module _ {F E S : Type 0} ⦃errors : GoErrors E⦄ (uc : Wired F E S) (job : DispatchJob) where
  -- Execute of an accepted job is the run itself, however its parts keep their state.
  execute-connected :
      {S' : Type 0} (uc' : Wired F E S') (s : S')
      → validate_dispatch_job job ≡ ok tt
      → execute (connected uc') live job s ≡ run_fetch uc' job s
  unfolding execute check_run validate_job validate_dependencies connected
  execute-connected uc' s h = rw h refl

  -- For every job that passes the checks and all parts, whatever they return, refuse or panic with:
  -- Execute under the monitor ends with the history completed with the status of its result when it
  -- returns no error; when it returns an error, Fail has been called at the stage where it arose, with
  -- the message for that stage and error, and has recorded it or refused to; and when a panic leaves
  -- Execute, Fail has panicked, once or twice. No stage or history call was out of order, for another
  -- row or for another user, and Fail was called again only after it panicked.
  pub execute-Finished :
      (s : S)
      → validate_dispatch_job job ≡ ok tt
      → Finished (execute (connected (watched job uc)) live job (before_run, s))
  execute-Finished s h =
      rw (execute-connected (watched job uc) (before_run, s) h) (run_fetch-Finished uc job s)
