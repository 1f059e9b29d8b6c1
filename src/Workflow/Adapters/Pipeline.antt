-- ===== src/Workflow/Adapters/Pipeline.antt =====
-- The billingeligibility stage followed by the billing stage, through their adapters.
use mathlib.Core.Path.{subst}
use billingrse_backend.Prelude.{
  ℕ, ◌≡◌, ◌≢◌, refl, sym, ap, some, List, [], ◌∷◌, map, Outcome, ok, err, is_empty, Bool-cases, inl,
  inr, arith, All, All-append, eq_of_ok, ◌==◌,
}
use billingrse_backend.GoText.{CaseTable}
use billingrse_backend.GoContext.{Context, is_nil_context}
use billingrse_backend.Numbers.{Floats, Decimals}
use billingrse_backend.Domain.Billing.{Billing}
use billingrse_backend.Domain.Billing.Construction.{built}
use billingrse_backend.EligibilityStage.Types.{EligibleItem as StageItem}
use billingrse_backend.EligibilityStage.Verdicts.{execute-judge_all}
use billingrse_backend.EligibilityStage.Billable.{IsBillable, execute-IsBillable}
use billingrse_backend.BillingStage.Types.{
  SaveResult, CreationTarget, Failure as BillingFault, Result as BillingStageResult, save_billing,
}
use billingrse_backend.BillingStage.{
  Save, Verdict, created, duplicate, failed, normalize, validate, build, by_save, create,
  create_all, append_verdict, clone_string, clone_time, to_line_item_input,
}
use billingrse_backend.BillingStage
use billingrse_backend.Workflow.Types.{EligibilityResult, BillingResult, StageFailure}
use billingrse_backend.Workflow.Parts.{EligibilityCommand}
use billingrse_backend.Workflow.Adapters.{
  to_eligible, to_eligibility_result, to_creation, to_billing_result, to_billing_failure, adapted,
  judge_eligibility, create_billings,
}
use billingrse_backend.Workflow.Adapters.Creation.{IsUnchecked, creation-valid, creation-builds}

abbrev IsSaveFault : BillingFault → Type 0
IsSaveFault f = f.stage ≡ save_billing

appended :
    (r : BillingStageResult) (v : Verdict)
    → All IsSaveFault r.failures
    → ((f : BillingFault) → v ≡ failed f → IsSaveFault f)
    → All IsSaveFault (append_verdict r v).failures
appended r (created item) h at_save = h
appended r (duplicate item) h at_save = h
appended r (failed f) h at_save = All-append _ r.failures (f ∷ []) h (at_save f refl, tt)

adapted-eq-ok :
    {E A B : Type 0} (f : A → B) (answer : Outcome E A) (b : B)
    → adapted f answer ≡ ok b
    → (a : A) × (answer ≡ ok a) × (f a ≡ b)
adapted-eq-ok f (ok a) b h = (a, refl, eq_of_ok h)
adapted-eq-ok f (err e) b h = cc

to_billing_failure-stage :
    (fs : List BillingFault)
    → All IsSaveFault fs
    → All (λ (f : StageFailure). f.stage ≡ save_billing) (map to_billing_failure fs)
to_billing_failure-stage [] h = tt
to_billing_failure-stage (f ∷ fs) (e, h) = (e, to_billing_failure-stage fs h)

abbrev AllSaveFaults : BillingStageResult → Type 0
AllSaveFaults r = All IsSaveFault r.failures

module _ {F D : Type 0} ⦃fl : Floats F⦄ ⦃dec : Decimals D⦄ ⦃table : CaseTable⦄ where
  by_save-stage :
      {X : Type 0} (t : CreationTarget F) (b : Billing F D) (saved : Outcome X SaveResult)
      (f : BillingFault)
      → by_save t b saved ≡ failed f
      → f.stage ≡ save_billing
  by_save-stage t b (err e) f h = ground arith
  by_save-stage t b (ok saved) f h = elim (Bool-cases saved.duplicate) [
    | inl e ↦ cc (rw e at h)
    | inr e ↦ cc (rw e at h)
  ]

  -- Creating a billing from an eligible item whose invoice number and date are in order fails at
  -- most when it is saved.
  create-stage :
      {S X : Type 0} (save : Save F D S X) (user_id : ℕ) (i : StageItem F) (s : S)
      → user_id ≢ 0
      → IsBillable D i
      → IsUnchecked (to_eligible i)
      → (f : BillingFault) → (create save user_id (to_creation (to_eligible i)) s).0 ≡ failed f
      → f.stage ≡ save_billing
  unfolding create
  create-stage save user_id i s known c form f h =
      let (b, built) = creation-builds user_id i known c form in
      by_save-stage (normalize (to_creation (to_eligible i))) b (save b s).0 f
        (rw (creation-valid i c, built) at h)

  create_all-stage :
      {S X : Type 0} (save : Save F D S X) (user_id : ℕ) (r : BillingStageResult)
      (items : List (StageItem F)) (s : S)
      → user_id ≢ 0
      → All (IsBillable D) items
      → All IsUnchecked (map to_eligible items)
      → All IsSaveFault r.failures
      → All IsSaveFault
          (create_all save user_id r (map to_creation (map to_eligible items)) s).0.failures
  unfolding create_all
  create_all-stage save user_id r [] s known c form h = h
  create_all-stage save user_id r (i ∷ items) s known (c, cs) (form, forms) h =
      let (v, s') = create save user_id (to_creation (to_eligible i)) s in
      create_all-stage save user_id (append_verdict r v) items s' known cs forms
        (appended r v h (create-stage save user_id i s known c form))

  execute-stage :
      {S X : Type 0} (save : Save F D S X) (ctx : Context) (user_id : ℕ)
      (items : List (StageItem F)) (s : S) (r : BillingStageResult)
      → user_id ≢ 0
      → All (IsBillable D) items
      → All IsUnchecked (map to_eligible items)
      → (BillingStage.execute ctx
          (some save)
          (record { user_id = user_id; eligible_items = map to_creation (map to_eligible items) })
          s).0
        ≡ ok r
      → All IsSaveFault r.failures
  unfolding BillingStage.execute
  execute-stage save ctx user_id items s r known c form h = elim (Bool-cases (is_nil_context ctx)) [
    | inl e ↦ cc (rw e at h)
    | inr live ↦ elim (Bool-cases (user_id == 0)) [
      | inl e ↦ cc (rw (live, e) at h)
      | inr given ↦ elim (Bool-cases (is_empty (map to_creation (map to_eligible items)))) [
        | inl e ↦ subst AllSaveFaults (eq_of_ok (rw (live, given, e) at h)) tt
        | inr e ↦
            subst AllSaveFaults (eq_of_ok (rw (live, given, e) at h))
              (create_all-stage save user_id BillingStage.empty_result items s known c form tt)
      ]
    ]
  ]

  create_billings-eligible :
      {S X : Type 0} (save : Save F D S X) (ctx : Context) (user_id : ℕ)
      (items : List (StageItem F)) (s : S) (r : BillingResult)
      → user_id ≢ 0
      → All (IsBillable D) items
      → All IsUnchecked (map to_eligible items)
      → (create_billings ctx
          (some save)
          (record { user_id = user_id; eligible_items = map to_eligible items })
          s).0
        ≡ ok r
      → All (λ (f : StageFailure). f.stage ≡ save_billing) r.failures
  unfolding create_billings to_billing_result
  create_billings-eligible save ctx user_id items s r known c form h =
      let (x, ran, same) = adapted-eq-ok to_billing_result _ r h in
      subst (λ (q : BillingResult). All (λ (f : StageFailure). f.stage ≡ save_billing) q.failures)
        same
        (to_billing_failure-stage x.failures
          (execute-stage save ctx user_id items s x known c form ran))

  -- When the eligibility stage succeeds and its eligible items have invoice numbers that are absent
  -- or well formed and no zero dates, the billing stage, run on these items for the same user with
  -- any repository, reports no failure but of saving.
  pub create_billings-stage :
      {S X : Type 0} (save : Save F D S X) (ctx ctx' : Context) (cmd : EligibilityCommand F) (s : S)
      (r : EligibilityResult F) (r' : BillingResult)
      → judge_eligibility D ctx cmd ≡ ok r
      → All IsUnchecked r.eligible_items
      → (create_billings ctx'
          (some save)
          (record { user_id = cmd.user_id; eligible_items = r.eligible_items })
          s).0
        ≡ ok r'
      → All (λ (f : StageFailure). f.stage ≡ save_billing) r'.failures
  unfolding judge_eligibility to_eligibility_result
  create_billings-stage save ctx ctx' cmd s r r' h form h' =
      let (x, ran, same) = adapted-eq-ok to_eligibility_result _ r h in
      let items = ap (λ (q : EligibilityResult F). q.eligible_items) (sym same) in
      create_billings-eligible save ctx' cmd.user_id x.eligible_items s r'
        (execute-judge_all D ctx _ x ran).0 (execute-IsBillable D ctx _ x ran)
        (subst (All IsUnchecked) items form)
        (subst
          (λ is.
            (create_billings ctx' (some save)
              (record { user_id = cmd.user_id; eligible_items = is }) s).0
            ≡ ok r')
          items h')
