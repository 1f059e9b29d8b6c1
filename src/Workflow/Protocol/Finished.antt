-- ===== src/Workflow/Protocol/Finished.antt =====
-- Where a run of Execute takes the automaton of Workflow/Protocol.antt.
use billingrse_backend.GoText.Trim.{eq_text_refl}
use billingrse_backend.Prelude.{
  ℕ, suc, ◌≤◌, ltb, inl, inr, arith, ==_refl, Bool, true, false, none, if◌then◌else◌, ◌≡◌, refl,
  is_empty,
}
use billingrse_backend.GoText.{Text, eq_text}
use billingrse_backend.GoTime.{utc}
use billingrse_backend.Workflow.Types.{
  DispatchJob, Result, empty_result, StageProgress, stage_fetch, stage_analysis,
  stage_vendor_resolution, stage_billing_eligibility, stage_billing,
}
use billingrse_backend.Workflow.Validation.{normalize_condition}
use billingrse_backend.Workflow.ErrorMessages.{GoErrors, workflow_error_message}
use billingrse_backend.Workflow.Parts.{Call, returned, refused, panicked, answered, Wired, Answer}
use billingrse_backend.Workflow.Progress.{
  workflow_status, build_fetch_progress, build_analysis_progress, build_vendor_resolution_progress,
  build_billing_eligibility_progress, build_billing_progress,
}
use billingrse_backend.Workflow.Run.{
  call_fail, after_recovery, recover, after_fail, fail_workflow, go_on, attempt, finish, run_stage,
  run_billing, run_billing_eligibility, run_vendor_resolution, run_analysis, run_fetch,
}
use billingrse_backend.Workflow.Protocol.{
  Phase, before_run, marked, ran, saved, aborting, follows, may_start, mark_step, stage_step,
  save_step, complete_step, fail_step, is_returned, watch, watched, Finished,
}

below_two : (n : ℕ) → n ≤ 1 → ltb n 2 ≡ true
below_two n h = ground arith

module _ {F E S : Type 0} ⦃errors : GoErrors E⦄ (uc : Wired F E S) (job : DispatchJob) where
  -- Fail, called by the handler after n panics of it, and how the handler ends.
  after_recovery-Finished :
      (stage : Text) (r : Result F) (e : E) (n : ℕ)
      → n ≤ 1
      → (ending : Call E (Unit {0})) (s : S)
      → Finished (
          after_recovery (watched job uc) job r e (
            ending,
            (
              fail_step job job.history_id stage
                  (workflow_error_message stage e)
                  ending
                  (aborting stage n),
              s,
            ),
          ))
  after_recovery-Finished stage r e n h (returned u) s =
      rw (==_refl job.history_id, eq_text_refl stage, below_two n h) ((stage, inl refl))
  after_recovery-Finished stage r e n h (refused x) s =
      rw (==_refl job.history_id, eq_text_refl stage, below_two n h) ((stage, inr refl))
  after_recovery-Finished stage r e n h (panicked v) s =
      rw (==_refl job.history_id, eq_text_refl stage, below_two n h)
        ((stage, (suc n, (refl, (omega arith, omega arith)))))

  recover-Finished :
      (stage : Text) (r : Result F) (v : Text) (n : ℕ) (s : S)
      → n ≤ 1
      → Finished (recover (watched job uc) job stage r v (aborting stage n, s))
  unfolding recover watched
  recover-Finished stage r v n s h =
      after_recovery-Finished stage r (errors.panic_error v) n h
        (call_fail uc job stage (errors.panic_error v) s).0
        (call_fail uc job stage (errors.panic_error v) s).1

  after_fail-Finished :
      (stage : Text) (r : Result F) (e : E) (ending : Call E (Unit {0})) (s : S)
      → Finished (
          after_fail (watched job uc) job stage r e (
            ending,
            (
              fail_step job job.history_id stage
                  (workflow_error_message stage e)
                  ending
                  (aborting stage 0),
              s,
            ),
          ))
  after_fail-Finished stage r e (returned u) s =
      rw (==_refl job.history_id, eq_text_refl stage) ((stage, inl refl))
  after_fail-Finished stage r e (refused x) s =
      rw (==_refl job.history_id, eq_text_refl stage) ((stage, inr refl))
  after_fail-Finished stage r e (panicked v) s =
      rw (==_refl job.history_id, eq_text_refl stage) (recover-Finished stage r v 1 s (omega arith))

  fail_workflow-Finished :
      (stage : Text) (r : Result F) (e : E) (s : S)
      → Finished (fail_workflow (watched job uc) job stage r e (aborting stage 0, s))
  unfolding fail_workflow watched
  fail_workflow-Finished stage r e s =
      after_fail-Finished stage r e (call_fail uc job stage e s).0 (call_fail uc job stage e s).1

  -- How a watched call ends in its place: the run goes on where the automaton does, or fails.
  go_on-Finished :
      {A : Type 0} (stage : Text) (r : Result F) (step : Bool → Phase → Phase) (φ : Phase)
      (rest : A → Phase × S → Answer F E (Phase × S))
      → step false φ ≡ aborting stage 0
      → ((a : A) (s' : S) → Finished (rest a (step true φ, s')))
      → (ending : Call E A) (s : S)
      → Finished (go_on (watched job uc) job stage r rest ending (step (is_returned ending) φ, s))
  unfolding go_on
  go_on-Finished stage r step φ rest h k (returned a) s = k a s
  go_on-Finished stage r step φ rest h k (refused e) s = rw h (fail_workflow-Finished stage r e s)
  go_on-Finished stage r step φ rest h k (panicked v) s =
      rw h (recover-Finished stage r v 0 s (omega arith))

  attempt-Finished :
      {A : Type 0} (stage : Text) (r : Result F) (step : Bool → Phase → Phase) (φ : Phase) (s : S)
      (call : S → Call E A × S) (rest : A → Phase × S → Answer F E (Phase × S))
      → step false φ ≡ aborting stage 0
      → ((a : A) (s' : S) → Finished (rest a (step true φ, s')))
      → Finished (attempt (watched job uc) job stage r (watch step call) rest (φ, s))
  unfolding attempt
  attempt-Finished stage r step φ s call rest h k =
      go_on-Finished stage r step φ rest h k (call s).0 (call s).1

  finish-Finished :
      (stage : Text) (r : Result F) (s : S)
      → Finished (finish (watched job uc) job stage r (saved stage, s))
  unfolding finish watched
  finish-Finished stage r s =
      attempt-Finished stage r (complete_step job job.history_id (workflow_status r)) (saved stage)
        s (uc.repository.complete job.history_id (workflow_status r) (utc (uc.now s)))
        (λ _ s'. (answered r none, s')) (rw (==_refl job.history_id) refl)
        (λ _ s'. rw (==_refl job.history_id) refl)

  -- A stage in its place, whose progress names it.
  run_stage-Finished :
      {A : Type 0} (stage : Text) (r : Result F) (φ : Phase) (s : S) (call : S → Call E A × S)
      (enter : A → Result F) (progress : A → StageProgress)
      (rest : A → Phase × S → Answer F E (Phase × S))
      → may_start φ stage ≡ true
      → (own : Bool) → own ≡ true
      → ((a : A) → (progress a).history_id ≡ job.history_id)
      → ((a : A) → (progress a).stage ≡ stage)
      → ((a : A) (s' : S) → Finished (rest a (saved stage, s')))
      → Finished (
          run_stage
            (watched job uc)
            job
            stage
            r
            (watch (stage_step stage own) call)
            enter
            progress
            rest
            (φ, s))
  unfolding run_stage watched
  run_stage-Finished stage r φ s call enter progress rest h own o ids names k =
      let p = eq_text_refl stage in
      let q = ==_refl job.history_id in
      attempt-Finished stage r (mark_step job job.history_id stage) φ s
        (uc.repository.mark_running job.history_id stage) _ (rw (h, q) refl)
        (λ _ s₁.
          rw (h, q)
            (attempt-Finished stage r (stage_step stage own) (marked stage) s₁ call _
              (rw (o, p) refl)
              (λ a s₂.
                rw (o, p)
                  (attempt-Finished stage (enter a) (save_step job (progress a)) (ran stage) s₂
                    (uc.repository.save_progress (progress a)) _ (rw (names a, ids a, q, p) refl)
                    (λ _ s₃. rw (names a, ids a, q, p) (k a s₃))))))

  -- After a stage the run ends there, or goes on with the next one.
  branch-Finished :
      (b : Bool) (stop more : Phase × S → Answer F E (Phase × S)) (at : Phase × S)
      → Finished (stop at)
      → Finished (more at)
      → Finished ((if b then stop else more) at)
  branch-Finished true stop more at h k = h
  branch-Finished false stop more at h k = k

  run_billing-Finished :
      (r : Result F) (s : S)
      → Finished (run_billing (watched job uc) job r (saved stage_billing_eligibility, s))
  unfolding run_billing watched build_billing_progress follows eq_text
  run_billing-Finished r s =
      run_stage-Finished stage_billing r (saved stage_billing_eligibility) s
        (uc.billing_stage
          (record { user_id = job.user_id; eligible_items = r.billing_eligibility.eligible_items }))
        (λ billing. record r { billing = billing }) (build_billing_progress job.history_id) _ refl _
        (==_refl job.user_id) (λ _. refl) (λ _. refl) (λ a s'. finish-Finished stage_billing _ s')

  run_billing_eligibility-Finished :
      (r : Result F) (s : S)
      → Finished (run_billing_eligibility (watched job uc) job r (saved stage_vendor_resolution, s))
  unfolding run_billing_eligibility watched build_billing_eligibility_progress follows eq_text
  run_billing_eligibility-Finished r s =
      run_stage-Finished stage_billing_eligibility r (saved stage_vendor_resolution) s
        (uc.billing_eligibility_stage
          (record { user_id = job.user_id; resolved_items = r.vendor_resolution.resolved_items }))
        (λ eligibility. record r { billing_eligibility = eligibility })
        (build_billing_eligibility_progress job.history_id) _ refl _ (==_refl job.user_id)
        (λ _. refl) (λ _. refl)
        (λ a s'.
          branch-Finished (is_empty a.eligible_items)
            (finish (watched job uc) job stage_billing_eligibility _)
            (run_billing (watched job uc) job _) (saved stage_billing_eligibility, s')
            (finish-Finished stage_billing_eligibility _ s') (run_billing-Finished _ s'))

  run_vendor_resolution-Finished :
      (r : Result F) (s : S)
      → Finished (run_vendor_resolution (watched job uc) job r (saved stage_analysis, s))
  unfolding run_vendor_resolution watched build_vendor_resolution_progress follows eq_text
  run_vendor_resolution-Finished r s =
      run_stage-Finished stage_vendor_resolution r (saved stage_analysis) s
        (uc.vendor_resolution_stage
          (record { user_id = job.user_id; parsed_emails = r.analysis.parsed_emails }))
        (λ resolution. record r { vendor_resolution = resolution })
        (build_vendor_resolution_progress job.history_id r.analysis.parsed_emails) _ refl _
        (==_refl job.user_id) (λ _. refl) (λ _. refl)
        (λ a s'.
          branch-Finished (is_empty a.resolved_items)
            (finish (watched job uc) job stage_vendor_resolution _)
            (run_billing_eligibility (watched job uc) job _) (saved stage_vendor_resolution, s')
            (finish-Finished stage_vendor_resolution _ s') (run_billing_eligibility-Finished _ s'))

  run_analysis-Finished :
      (r : Result F) (s : S) → Finished (run_analysis (watched job uc) job r (saved stage_fetch, s))
  unfolding run_analysis watched build_analysis_progress follows eq_text
  run_analysis-Finished r s =
      run_stage-Finished stage_analysis r (saved stage_fetch) s
        (uc.analyze_stage (record { user_id = job.user_id; emails = r.fetch.created_emails }))
        (λ analysis. record r { analysis = analysis }) (build_analysis_progress job.history_id) _
        refl _ (==_refl job.user_id) (λ _. refl) (λ _. refl)
        (λ a s'.
          branch-Finished (is_empty a.parsed_emails) (finish (watched job uc) job stage_analysis _)
            (run_vendor_resolution (watched job uc) job _) (saved stage_analysis, s')
            (finish-Finished stage_analysis _ s') (run_vendor_resolution-Finished _ s'))

  pub run_fetch-Finished : (s : S) → Finished (run_fetch (watched job uc) job (before_run, s))
  unfolding run_fetch watched build_fetch_progress eq_text
  run_fetch-Finished s =
      run_stage-Finished stage_fetch empty_result before_run s
        (uc.fetch_stage (record {
          user_id = job.user_id;
          connection_id = job.connection_id;
          condition = normalize_condition job.condition;
        }))
        (λ fetch. record empty_result { fetch = fetch }) (build_fetch_progress job.history_id) _
        refl _ (==_refl job.user_id) (λ _. refl) (λ _. refl)
        (λ a s'.
          branch-Finished (is_empty a.created_emails) (finish (watched job uc) job stage_fetch _)
            (run_analysis (watched job uc) job _) (saved stage_fetch, s')
            (finish-Finished stage_fetch _ s') (run_analysis-Finished _ s'))
