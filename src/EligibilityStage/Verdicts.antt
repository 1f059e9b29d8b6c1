-- ===== src/EligibilityStage/Verdicts.antt =====
-- The counts and failures of the stage (internal/billingeligibility/application/usecase.go).
use mathlib.Core.Path.{subst}
use billingrse_backend.Prelude.{
  ℕ, suc, ◌+◌, ◌≡◌, ◌≢◌, refl, sym, false, none, List, [], ◌∷◌, length, length-append, All,
  All-append, ok, err, is_empty, Option-cases, Outcome-cases, inl, inr, arith, eq-nil_of_is_empty,
}
use billingrse_backend.GoText.{trim_space, CaseTable}
use billingrse_backend.GoText.Trim.{trim_space_idem}
use billingrse_backend.GoContext.{Context}
use billingrse_backend.Numbers.{Floats, Decimals}
use billingrse_backend.Domain.Errors.{Error}
use billingrse_backend.Domain.Vendor
use billingrse_backend.Domain.VendorResolution
use billingrse_backend.Domain.Eligibility.{evaluate}
use billingrse_backend.EligibilityStage.Types.{
  Target, Command, Failure, Result, invalid_eligibility_target,
}
use billingrse_backend.EligibilityStage.{
  Verdict, eligible, ineligible, failed, validate, normalize, reason_code_for_error, append_verdict,
  empty_result, count_items, target_resolution, judge, judge_all, execute,
}

module _ {F : Type 0} where
  -- How many items a result holds.
  abbrev sorted_count : Result F → ℕ
  sorted_count r = length r.eligible_items + (length r.ineligible_items + length r.failures)

  append_verdict-count :
      (r : Result F) (v : Verdict F) → sorted_count (append_verdict r v) ≡ suc (sorted_count r)
  append_verdict-count r (eligible item) = omega (arith, length-append r.eligible_items (item ∷ []))
  append_verdict-count r (ineligible item) =
      omega (arith, length-append r.ineligible_items (item ∷ []))
  append_verdict-count r (failed f) = omega (arith, length-append r.failures (f ∷ []))

module _ {F : Type 0} ⦃table : CaseTable⦄ where
  -- What a valid item has.
  pub target_facts :
      (t : Target F) {u : Unit {0}}
      → validate (normalize t) ≡ ok u
      → (t.parsed_email_id ≢ 0)
        × (t.email_id ≢ 0)
        × (t.vendor_id ≢ 0)
        × (is_empty (trim_space (normalize t).vendor_name) ≡ false)
  unfolding validate normalize
  target_facts t h = ground (arith, trim_space_idem t.vendor_name)

module _ {F : Type 0} (D : Type 0) ⦃fl : Floats F⦄ ⦃dec : Decimals D⦄ ⦃table : CaseTable⦄ where
  judge_all-count :
      (user_id : ℕ) (r : Result F) (ts : List (Target F))
      → sorted_count (judge_all D user_id r ts) ≡ sorted_count r + length ts
  unfolding judge_all
  judge_all-count user_id r [] = omega arith
  judge_all-count user_id r (t ∷ ts) = omega (
    arith,
    judge_all-count user_id (append_verdict r (judge D user_id t)) ts,
    append_verdict-count r (judge D user_id t),
  )

  -- When Execute succeeds, each item is counted once: the counts are those of the lists, and the
  -- eligible, ineligible and failed items are together as many as the input.
  pub execute-count :
      (ctx : Context) (cmd : Command F) (r : Result F)
      → execute D ctx cmd ≡ ok r
      → (r.eligible_count ≡ length r.eligible_items)
        × (r.ineligible_count ≡ length r.ineligible_items)
        × (r.eligible_count + (r.ineligible_count + length r.failures) ≡ length cmd.resolved_items)
  unfolding execute
  execute-count ctx cmd r h = ground (
    arith,
    judge_all-count cmd.user_id empty_result cmd.resolved_items,
    eq-nil_of_is_empty cmd.resolved_items,
  )

  -- The policy refuses a resolved, named vendor's item only with a reason code.
  evaluate-reason :
      (t : Target F) (user_id : ℕ) (e : Error)
      → user_id ≢ 0
      → is_empty (trim_space t.vendor_name) ≡ false
      → evaluate D t.parsed (target_resolution user_id t) ≡ err e
      → reason_code_for_error e ≢ none
  unfolding evaluate reason_code_for_error VendorResolution.validate Vendor.validate
  evaluate-reason t user_id e known named h none_found = ground arith

  -- A failed item was an invalid input: the policy's own failure code is never used.
  judge-failed :
      (user_id : ℕ) (t : Target F)
      → user_id ≢ 0
      → (f : Failure) → judge D user_id t ≡ failed f
      → f.code ≡ invalid_eligibility_target
  unfolding judge validate
  judge-failed user_id t known f h =
      let n = normalize t in
      elim (Outcome-cases (validate n)) [
        | inr (e, refused) ↦ ground arith
        | inl (_, valid) ↦
            elim (Outcome-cases (evaluate D n.parsed (target_resolution user_id n))) [
              | inl (_, passed) ↦ ground arith
              | inr (e, refused) ↦ elim (Option-cases (reason_code_for_error e)) [
                | inl unknown ↦
                    absurd
                      (evaluate-reason n user_id e known (target_facts t valid).3 refused unknown)
                | inr (c, reason) ↦ ground arith
              ]
            ]
      ]

  judge_all-failures :
      (user_id : ℕ) (r : Result F) (ts : List (Target F))
      → user_id ≢ 0
      → All (λ f. f.code ≡ invalid_eligibility_target) r.failures
      → All (λ f. f.code ≡ invalid_eligibility_target) (judge_all D user_id r ts).failures
  unfolding judge_all
  judge_all-failures user_id r [] known h = h
  judge_all-failures user_id r (t ∷ ts) known h =
      judge_all-failures user_id (append_verdict r (judge D user_id t)) ts known
        (added (judge D user_id t) (judge-failed user_id t known))
    where
      added :
          (v : Verdict F)
          → ((f : Failure) → v ≡ failed f → f.code ≡ invalid_eligibility_target)
          → All (λ f. f.code ≡ invalid_eligibility_target) (append_verdict r v).failures
      added (eligible item) code = h
      added (ineligible item) code = h
      added (failed f) code = All-append _ r.failures (f ∷ []) h (code f refl, tt)

  -- A successful Execute is the loop over all items, for a user that is not 0.
  pub execute-judge_all :
      (ctx : Context) (cmd : Command F) (r : Result F)
      → execute D ctx cmd ≡ ok r
      → (cmd.user_id ≢ 0)
        × (r ≡ count_items (judge_all D cmd.user_id empty_result cmd.resolved_items))
  unfolding execute judge_all
  execute-judge_all ctx cmd r h =
      (ground arith, ground (arith, eq-nil_of_is_empty cmd.resolved_items))

  -- Whenever Execute succeeds, each failure it reports is one of an invalid input.
  pub execute-failures :
      (ctx : Context) (cmd : Command F) (r : Result F)
      → execute D ctx cmd ≡ ok r
      → All (λ f. f.code ≡ invalid_eligibility_target) r.failures
  execute-failures ctx cmd r h =
      let (known, same) = execute-judge_all ctx cmd r h in
      subst (λ (x : Result F). All (λ f. f.code ≡ invalid_eligibility_target) x.failures) (sym same)
        (judge_all-failures cmd.user_id empty_result cmd.resolved_items known tt)
