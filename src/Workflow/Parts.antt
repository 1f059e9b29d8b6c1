-- ===== src/Workflow/Parts.antt =====
-- The parts that useCase.Execute of internal/manualmailworkflow/application/usecase.go calls, and
-- its checks of them and of the job. `S` is the state of everything behind the stages and the
-- history repository, `E` the type of errors.
use billingrse_backend.Prelude.{ℕ, Option, none, some, List, Outcome, ok, err, ◌>>=◌}
use billingrse_backend.GoText.{Text, txt}
use billingrse_backend.GoTime.{Time}
use billingrse_backend.Workflow.Types.{
  FetchCondition, DispatchJob, CreatedEmail, FetchResult, ParsedEmail, AnalyzeResult, ResolvedItem,
  VendorResolutionResult, EligibleItem, EligibilityResult, BillingResult, Result, StageProgress,
}
use billingrse_backend.Workflow.Validation.{InvalidJob, validate_dispatch_job}
use billingrse_backend.Workflow.ErrorMessages.{GoErrors}

-- How a call ends: it returns a value or an error, or it panics; of the panic's value only the text
-- is used.
pub data Call (E A : Type 0) : Type 0 where
  returned : A → Call E A
  refused : E → Call E A
  panicked : Text → Call E A

pub record FetchCommand : Type 0 where
  pub user_id : ℕ
  pub connection_id : ℕ
  pub condition : FetchCondition

pub record AnalyzeCommand : Type 0 where
  pub user_id : ℕ
  pub emails : List CreatedEmail

pub record VendorResolutionCommand (F : Type 0) : Type 0 where
  pub user_id : ℕ
  pub parsed_emails : List (ParsedEmail F)

pub record EligibilityCommand (F : Type 0) : Type 0 where
  pub user_id : ℕ
  pub resolved_items : List (ResolvedItem F)

pub record BillingCommand (F : Type 0) : Type 0 where
  pub user_id : ℕ
  pub eligible_items : List (EligibleItem F)

-- WorkflowStatusRepository, but for CreateQueued, which Execute does not call.
pub record Repository (E S : Type 0) : Type 0 where
  pub mark_running : ℕ → Text → S → Call E (Unit {0}) × S
  pub save_progress : StageProgress → S → Call E (Unit {0}) × S
  pub complete : ℕ → Text → Time → S → Call E (Unit {0}) × S
  pub fail : ℕ → Text → Time → Text → S → Call E (Unit {0}) × S

-- The parts that Execute uses; `none` is a nil interface. The clock reads the state.
pub record Parts (F E S : Type 0) : Type 0 where
  pub fetch_stage : Option (FetchCommand → S → Call E FetchResult × S)
  pub analyze_stage : Option (AnalyzeCommand → S → Call E (AnalyzeResult F) × S)
  pub vendor_resolution_stage :
      Option (VendorResolutionCommand F → S → Call E (VendorResolutionResult F) × S)
  pub billing_eligibility_stage :
      Option (EligibilityCommand F → S → Call E (EligibilityResult F) × S)
  pub billing_stage : Option (BillingCommand F → S → Call E BillingResult × S)
  pub repository : Option (Repository E S)
  pub now : S → Time

-- The parts once validateDependencies has passed.
pub record Wired (F E S : Type 0) : Type 0 where
  pub fetch_stage : FetchCommand → S → Call E FetchResult × S
  pub analyze_stage : AnalyzeCommand → S → Call E (AnalyzeResult F) × S
  pub vendor_resolution_stage :
      VendorResolutionCommand F → S → Call E (VendorResolutionResult F) × S
  pub billing_eligibility_stage : EligibilityCommand F → S → Call E (EligibilityResult F) × S
  pub billing_stage : BillingCommand F → S → Call E BillingResult × S
  pub repository : Repository E S
  pub now : S → Time

-- How Execute ends: with the result so far and the error, `none` for nil; or with a panic that leaves
-- it.
pub data Ending (F E : Type 0) : Type 0 where
  answered : Result F → Option E → Ending F E
  crashed : Text → Ending F E

abbrev pub Answer : (F E S : Type 0) → Type 0
Answer F E S = Ending F E × S

module _ {E : Type 0} ⦃errors : GoErrors E⦄ where
  abbrev pub configured : {A : Type 0} → Option A → Text → Outcome E A
  configured none name = err (errors.not_configured name)
  configured (some a) name = ok a

  abbrev pub as_error : Outcome InvalidJob (Unit {0}) → Outcome E (Unit {0})
  as_error (ok u) = ok u
  as_error (err e) = err (errors.invalid_job e)

  unfoldable pub validate_job : DispatchJob → Outcome E (Unit {0})
  validate_job job = as_error (validate_dispatch_job job)

module _ {F E S : Type 0} ⦃errors : GoErrors E⦄ where
  -- validateDependencies.
  unfoldable pub validate_dependencies : Parts F E S → Outcome E (Wired F E S)
  validate_dependencies parts = do
    fetch_stage ← configured parts.fetch_stage (txt "fetch_stage")
    analyze_stage ← configured parts.analyze_stage (txt "analyze_stage")
    vendor_resolution_stage ←
        configured parts.vendor_resolution_stage (txt "vendor_resolution_stage")
    billing_eligibility_stage ←
        configured parts.billing_eligibility_stage (txt "billing_eligibility_stage")
    billing_stage ← configured parts.billing_stage (txt "billing_stage")
    repository ← configured parts.repository (txt "workflow_status_repository")
    ok (record {
      fetch_stage = fetch_stage;
      analyze_stage = analyze_stage;
      vendor_resolution_stage = vendor_resolution_stage;
      billing_eligibility_stage = billing_eligibility_stage;
      billing_stage = billing_stage;
      repository = repository;
      now = parts.now;
    })
