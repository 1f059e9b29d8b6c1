-- ===== src/Workflow/Protocol.antt =====
-- The order in which a run of Execute may use its stages and its history, as an automaton, and a
-- monitor that takes the automaton along with the state.
pub mod Finished
pub mod Execution
use billingrse_backend.Prelude.{
  ℕ, Bool, true, false, ◌&&◌, ◌||◌, Option, none, some, map as map_list, Outcome, is_ok, ◌==◌,
  if◌then◌else◌, ◌≡◌, ◌≤◌, suc, ltb, ◌⊎◌,
}
use billingrse_backend.GoText.{Text, eq_text}
use billingrse_backend.Workflow.Types.{
  DispatchJob, Result, StageProgress, stage_fetch, stage_analysis, stage_vendor_resolution,
  stage_billing_eligibility, stage_billing,
}
use billingrse_backend.Workflow.ErrorMessages.{GoErrors, workflow_error_message}
use billingrse_backend.Workflow.Parts.{
  Call, returned, refused, panicked, Ending, answered, crashed, Repository, Wired, Answer,
}
use billingrse_backend.Workflow.Progress.{workflow_status}

-- Where a run stands: a stage is marked as running, has run, has its progress saved, or something
-- failed at it and Fail is yet to succeed, after a number of panics of Fail; the history is completed
-- with a status, or failed with a stage and a message, or Fail has refused to record these. `broken`
-- is any use out of order.
pub data Phase : Type 0 where
  before_run : Phase
  marked ran saved : Text → Phase
  aborting : Text → ℕ → Phase
  completed : Text → Phase
  failed unrecorded : Text → Text → Phase
  broken : Phase

-- The stages come in one order.
unfoldable pub follows : Text → Text → Bool
follows stage stage' =
    (eq_text stage stage_fetch && eq_text stage' stage_analysis)
    || (eq_text stage stage_analysis && eq_text stage' stage_vendor_resolution)
    || (eq_text stage stage_vendor_resolution && eq_text stage' stage_billing_eligibility)
    || (eq_text stage stage_billing_eligibility && eq_text stage' stage_billing)

abbrev pub may_start : Phase → Text → Bool
may_start before_run stage = eq_text stage stage_fetch
may_start (saved stage) stage' = follows stage stage'
may_start _ _ = false

abbrev pub is_marked : Phase → Text → Bool
is_marked (marked stage) stage' = eq_text stage stage'
is_marked _ _ = false

abbrev pub has_run : Phase → Text → Bool
has_run (ran stage) stage' = eq_text stage stage'
has_run _ _ = false

-- A use of a part that went well or not, where it is allowed.
abbrev pub move : Bool → Bool → Phase → Phase → Phase
move allowed good φ φ' = if allowed then (if good then φ else φ') else broken

-- The steps of the automaton, by the call's arguments and whether the call went well. All calls of
-- the history are to name the run's own row.
abbrev pub mark_step : DispatchJob → ℕ → Text → Bool → Phase → Phase
mark_step job id stage good φ =
    move (id == job.history_id && may_start φ stage) good (marked stage) (aborting stage 0)

abbrev pub stage_step : Text → Bool → Bool → Phase → Phase
stage_step stage is_own good φ =
    move (is_own && is_marked φ stage) good (ran stage) (aborting stage 0)

abbrev pub save_step : DispatchJob → StageProgress → Bool → Phase → Phase
save_step job p good φ =
    move (p.history_id == job.history_id && has_run φ p.stage) good (saved p.stage)
      (aborting p.stage 0)

abbrev pub complete_step : DispatchJob → ℕ → Text → Bool → Phase → Phase
complete_step job id status good (saved stage) =
    move (id == job.history_id) good (completed status) (aborting stage 0)
complete_step job id status good _ = broken

abbrev pub fail_ended : {E : Type 0} → Text → Text → ℕ → Call E (Unit {0}) → Phase
fail_ended stage message n (returned u) = failed stage message
fail_ended stage message n (refused e) = unrecorded stage message
fail_ended stage message n (panicked value) = aborting stage (suc n)

-- Fail is to be called at the stage that failed, and again only after one panic of it.
abbrev pub fail_step :
    {E : Type 0} → DispatchJob → ℕ → Text → Text → Call E (Unit {0}) → Phase → Phase
fail_step job id stage message ending (aborting stage' n) =
    if id == job.history_id && eq_text stage' stage && ltb n 2
    then fail_ended stage message n ending
    else broken
fail_step job id stage message ending _ = broken

abbrev pub is_returned : {E A : Type 0} → Call E A → Bool
is_returned (returned a) = true
is_returned (refused e) = false
is_returned (panicked value) = false

module _ {E S : Type 0} where
  -- A call that also moves the automaton, by whether it returned a value.
  abbrev pub watch :
      {A : Type 0}
      → (Bool → Phase → Phase)
      → (S → Call E A × S)
      → Phase × S
      → Call E A × (Phase × S)
  watch step call (φ, s) = ((call s).0, (step (is_returned (call s).0) φ, (call s).1))

  abbrev pub watch_stage :
      {C A : Type 0}
      → Text
      → (C → Bool)
      → (C → S → Call E A × S)
      → C
      → Phase × S
      → Call E A × (Phase × S)
  watch_stage stage is_own call c = watch (stage_step stage (is_own c)) (call c)

  abbrev pub watch_repository : DispatchJob → Repository E S → Repository E (Phase × S)
  watch_repository job r = record {
    mark_running = λ id stage. watch (mark_step job id stage) (r.mark_running id stage);
    save_progress = λ p. watch (save_step job p) (r.save_progress p);
    complete = λ id status time. watch (complete_step job id status) (r.complete id status time);
    fail = λ id stage time message (φ, s). (
      (r.fail id stage time message s).0,
      (
        fail_step job id stage message (r.fail id stage time message s).0 φ,
        (r.fail id stage time message s).1,
      ),
    );
  }

  -- All parts under watch: the stages are also to be given the run's own user.
  unfoldable pub watched : {F : Type 0} → DispatchJob → Wired F E S → Wired F E (Phase × S)
  watched job uc = record {
    fetch_stage = watch_stage stage_fetch (λ c. c.user_id == job.user_id) uc.fetch_stage;
    analyze_stage = watch_stage stage_analysis (λ c. c.user_id == job.user_id) uc.analyze_stage;
    vendor_resolution_stage =
        watch_stage stage_vendor_resolution (λ c. c.user_id == job.user_id)
          uc.vendor_resolution_stage;
    billing_eligibility_stage =
        watch_stage stage_billing_eligibility (λ c. c.user_id == job.user_id)
          uc.billing_eligibility_stage;
    billing_stage = watch_stage stage_billing (λ c. c.user_id == job.user_id) uc.billing_stage;
    repository = watch_repository job uc.repository;
    now = λ (φ, s). uc.now s;
  }

module _ {F E : Type 0} ⦃errors : GoErrors E⦄ where
  -- What a run that ends so leaves the history at: after a panic of its own, Fail has panicked once
  -- or twice and is called no more.
  abbrev pub IsFinished : Ending F E → Phase → Type 0
  IsFinished (answered r none) φ = φ ≡ completed (workflow_status r)
  IsFinished (answered r (some e)) φ =
      (stage : Text) × ((φ ≡ failed stage (workflow_error_message stage e))
        ⊎ (φ ≡ unrecorded stage (workflow_error_message stage e)))
  IsFinished (crashed value) φ =
      (stage : Text) × ((n : ℕ) × ((φ ≡ aborting stage n) × ((1 ≤ n) × (n ≤ 2))))

  abbrev pub Finished : {S : Type 0} → Answer F E (Phase × S) → Type 0
  Finished answer = IsFinished answer.0 answer.1.0
