-- ===== src/Workflow/Start/Dispatch.antt =====
-- The jobs that startUseCase.Start of internal/manualmailworkflow/application/start_usecase.go hands
-- to the dispatcher.
use billingrse_backend.Prelude.{
  ℕ, ◌≡◌, ◌≢◌, refl, false, some, Outcome, ok, err, is_empty, ◌==◌, ◌∙◌, Bool-cases, Outcome-cases,
  inl, inr, arith,
}
use billingrse_backend.GoText.{Text, trim_space}
use billingrse_backend.GoText.Trim.{trim_space_idem}
use billingrse_backend.GoContext.{Context, is_nil_context}
use billingrse_backend.Workflow.Types.{Command, DispatchJob}
use billingrse_backend.Workflow.Validation.{
  InvalidJob, normalize_condition, validate_condition, validate_command, validate_dispatch_job,
}
use billingrse_backend.Workflow.ErrorMessages.{GoErrors}
use billingrse_backend.Workflow.Start.{
  WorkflowHistoryRef, Dispatcher, QueueRepository, StartSources, dispatch_job, with_history,
  with_id, accept, check_start, start, queued_history, new_workflow_id, QueuedWorkflowHistory,
}

-- The command that Start goes on with.
abbrev pub normalized : Command → Command
normalized cmd = record cmd { condition = normalize_condition cmd.condition }

validate_command-normalized :
    (cmd : Command) → validate_command (normalized cmd) ≡ validate_command cmd
unfolding validate_command validate_condition normalize_condition
validate_command-normalized cmd = rw (trim_space_idem cmd.condition.label_name) refl

-- What the history repository answers identifies a row.
abbrev pub IsRef : WorkflowHistoryRef → Type 0
IsRef ref = (ref.history_id ≢ 0) × (is_empty (trim_space ref.workflow_id) ≡ false)

==-false : (n : ℕ) → n ≢ 0 → (n == 0) ≡ false
==-false n h = ground arith

dispatch_job-valid :
    (cmd : Command) (ref : WorkflowHistoryRef)
    → IsRef ref
    → validate_command cmd ≡ ok tt
    → validate_dispatch_job (dispatch_job cmd ref) ≡ ok tt
unfolding validate_dispatch_job
dispatch_job-valid cmd ref (h, w) valid = rw (==-false ref.history_id h, w, valid) refl

module _ {E S : Type 0} ⦃errors : GoErrors E⦄ where
  abbrev guarded_by :
      Dispatcher E S → DispatchJob → S → Outcome InvalidJob (Unit {0}) → Outcome E (Unit {0}) × S
  guarded_by dispatch job s (ok u) = dispatch job s
  guarded_by dispatch job s (err e) = (err (errors.invalid_job e), s)

  -- A dispatcher that first checks the job as Execute does.
  abbrev pub guarded : Dispatcher E S → Dispatcher E S
  guarded dispatch job s = guarded_by dispatch job s (validate_dispatch_job job)

module _ {E S : Type 0} ⦃errors : GoErrors E⦄ (sources : StartSources E S)
    (dispatch : Dispatcher E S) (repository : QueueRepository E S) where
  abbrev pub HasRef : Outcome E WorkflowHistoryRef → Type 0
  HasRef (ok ref) = IsRef ref
  HasRef (err e) = Unit

  with_history-guarded :
      (cmd : Command) (m : Outcome E WorkflowHistoryRef × S)
      → HasRef m.0
      → validate_command cmd ≡ ok tt
      → with_history sources (guarded dispatch) repository cmd m
        ≡ with_history sources dispatch repository cmd m
  with_history-guarded cmd (err e, s) h valid = refl
  with_history-guarded cmd (ok ref, s) h valid = rw (dispatch_job-valid cmd ref h valid) refl

  with_id-guarded :
      (cmd : Command) (m : Outcome E Text × S)
      → ((q : QueuedWorkflowHistory) (s : S) → HasRef (repository.create_queued q s).0)
      → validate_command cmd ≡ ok tt
      → with_id sources (guarded dispatch) repository cmd m
        ≡ with_id sources dispatch repository cmd m
  with_id-guarded cmd (err e, s) h valid = refl
  with_id-guarded cmd (ok id, s) h valid =
      with_history-guarded cmd (repository.create_queued (queued_history cmd id (sources.now s)) s)
        (h (queued_history cmd id (sources.now s)) s) valid

  -- Start hands only jobs to the dispatcher that Execute accepts: with a dispatcher that first checks
  -- the job as Execute does it is the same function, when the history repository answers an id that
  -- is not 0 and a workflow id that is not blank.
  pub start-guarded :
      (ctx : Context) (cmd : Command) (s : S)
      → ((q : QueuedWorkflowHistory) (s : S) → HasRef (repository.create_queued q s).0)
      → start sources ctx (some (guarded dispatch)) (some repository) cmd s
        ≡ start sources ctx (some dispatch) (some repository) cmd s
  unfolding start check_start accept
  start-guarded ctx cmd s h = elim (Bool-cases (is_nil_context ctx)) [
    | inl e ↦ rw e refl
    | inr e ↦ elim (Outcome-cases (validate_command cmd)) [
      | inl (u, valid) ↦
          rw (e, valid)
            (with_id-guarded (normalized cmd) (new_workflow_id sources s) h
              (validate_command-normalized cmd ∙ valid))
      | inr (x, refused) ↦ rw (e, refused) refl
    ]
  ]
