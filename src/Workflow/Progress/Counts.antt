-- ===== src/Workflow/Progress/Counts.antt =====
-- The progress that the workflow reports against the checks of the history repository
-- (workflow_history.go against workflow_status_repository.go).
use billingrse_backend.Prelude.{
  ℕ, suc, ◌+◌, ◌≡◌, refl, ap, ◌∙◌, true, false, not, ◌&&◌, ◌||◌, List, [], ◌∷◌, ◌++◌, map, length,
  length-append, length-map, is_empty, All, All-append, All-imp, Bool-cases, inl, inr, arith,
}
use billingrse_backend.GoText.{Text, eq_text, trim_space, trim_left, trim_right, is_space}
use billingrse_backend.Domain.VendorResolution.{contains}
use billingrse_backend.Workflow.Types.{
  FetchFailure, AnalysisFailure, FetchResult, ParsedEmail, AnalyzeResult, StageFailure,
  UnresolvedItem, VendorResolutionResult, IneligibleItem, EligibilityFailure, EligibilityResult,
  BillingDuplicateItem, BillingResult, Result, StageFailureRecord, StageProgress,
  existing_emails_skipped,
}
use billingrse_backend.Workflow.Progress.{
  stage_failure_record, fetch_failure_record, build_fetch_progress, analysis_failure_record,
  build_analysis_progress, vendor_failure_record, unresolved_record, inferred_records,
  unresolved_records, build_vendor_resolution_progress, ineligible_record,
  eligibility_failure_record, build_billing_eligibility_progress, duplicate_reason,
  duplicate_record, billing_failure_record, build_billing_progress,
}
use billingrse_backend.Workflow.StatusRepository.{
  counted_failure_record_count, is_supported_stage, accepts,
}

-- A reason code other than the one that the repository does not count.
abbrev pub IsCounted : Text → Type 0
IsCounted code = eq_text code existing_emails_skipped ≡ false

abbrev AllCounted : List StageFailureRecord → Type 0
AllCounted = All (λ r. IsCounted r.reason_code)

counted-length :
    (rs : List StageFailureRecord) → AllCounted rs → counted_failure_record_count rs ≡ length rs
unfolding counted_failure_record_count
counted-length [] h = refl
counted-length (r ∷ rs) (c, h) = rw c (ap suc (counted-length rs h))

All-map :
    {A : Type 0} (f : A → StageFailureRecord) (code : A → Text)
    → ((a : A) → (f a).reason_code ≡ code a)
    → (xs : List A) → All (λ a. IsCounted (code a)) xs
    → AllCounted (map f xs)
All-map f code same [] h = tt
All-map f code same (x ∷ xs) (c, h) = (rw (same x) c, All-map f code same xs h)

-- The records of two parts are as many as the parts.
two_parts :
    {A B : Type 0} (f : A → StageFailureRecord) (g : B → StageFailureRecord) (xs : List A)
    (ys : List B)
    → AllCounted (map f xs)
    → AllCounted (map g ys)
    → counted_failure_record_count (map f xs ++ map g ys) ≡ length xs + length ys
two_parts f g xs ys h k =
    counted-length _ (All-append _ (map f xs) (map g ys) h k)
    ∙ length-append (map f xs) (map g ys)
    ∙ omega (arith, length-map f xs, length-map g ys)

module _ {F : Type 0} where
  -- The counts of a result are those of its lists, and no code is the one that is not counted.
  pub record IsCoherent (r : Result F) : Type 0 where
    pub fetch_codes : All (λ (f : FetchFailure). IsCounted f.code) r.fetch.failures
    pub analysis_codes : All (λ (f : AnalysisFailure). IsCounted f.code) r.analysis.failures
    pub unresolved_codes :
        All (λ (i : UnresolvedItem). IsCounted i.reason_code) r.vendor_resolution.unresolved_items
    pub vendor_codes : All (λ (f : StageFailure). IsCounted f.code) r.vendor_resolution.failures
    pub ineligible_codes :
        All (λ (i : IneligibleItem). IsCounted i.reason_code) r.billing_eligibility.ineligible_items
    pub ineligible_count :
        r.billing_eligibility.ineligible_count ≡ length r.billing_eligibility.ineligible_items
    pub eligibility_codes :
        All (λ (f : EligibilityFailure). IsCounted f.code) r.billing_eligibility.failures
    pub duplicate_codes :
        All (λ (i : BillingDuplicateItem). IsCounted i.reason_code) r.billing.duplicate_items
    pub billing_codes : All (λ (f : StageFailure). IsCounted f.code) r.billing.failures

accepts_lem :
    (p : StageProgress)
    → is_supported_stage p.stage ≡ true
    → counted_failure_record_count p.failure_records
      ≡ p.business_failure_count + p.technical_failure_count
    → accepts p ≡ true
unfolding accepts
accepts_lem p supported count = ground arith

-- An item's own code is counted, and so is the code that stands for an empty one.
duplicate_reason-IsCounted :
    (i : BillingDuplicateItem) → IsCounted i.reason_code → IsCounted (duplicate_reason i)
duplicate_reason-IsCounted i h = elim (Bool-cases (is_empty i.reason_code)) [
  | inl e ↦ rw e (unfold eq_text in refl)
  | inr e ↦ rw e h
]

supported_stages : Unit {0}
unfolding is_supported_stage trim_space trim_left trim_right is_space eq_text
supported_stages = tt

fetch_accepted :
    (history_id : ℕ) (r : FetchResult)
    → All (λ (f : FetchFailure). IsCounted f.code) r.failures
    → accepts (build_fetch_progress history_id r) ≡ true
unfolding build_fetch_progress counted_failure_record_count stage_failure_record supported_stages
fetch_accepted history_id r h =
    let counted = counted-length _ (All-map fetch_failure_record _ (λ f. refl) r.failures h) in
    accepts_lem _ refl
      (elim (Bool-cases (is_empty r.created_emails && not (is_empty r.existing_email_ids))) [
        | inl e ↦ rw e (counted ∙ omega (arith, length-map fetch_failure_record r.failures))
        | inr e ↦ rw e (counted ∙ omega (arith, length-map fetch_failure_record r.failures))
      ])

billing_accepted :
    (history_id : ℕ) (r : BillingResult)
    → All (λ (i : BillingDuplicateItem). IsCounted i.reason_code) r.duplicate_items
    → All (λ (f : StageFailure). IsCounted f.code) r.failures
    → accepts (build_billing_progress history_id r) ≡ true
unfolding build_billing_progress stage_failure_record supported_stages
billing_accepted history_id r h k = accepts_lem _ refl (
    two_parts duplicate_record billing_failure_record r.duplicate_items r.failures
      (All-map duplicate_record duplicate_reason (λ i. refl) r.duplicate_items
        (All-imp _ _ duplicate_reason-IsCounted r.duplicate_items h))
      (All-map billing_failure_record _ (λ f. refl) r.failures k))

module _ {F : Type 0} where
  analysis_accepted :
      (history_id : ℕ) (r : AnalyzeResult F)
      → All (λ (f : AnalysisFailure). IsCounted f.code) r.failures
      → accepts (build_analysis_progress history_id r) ≡ true
  unfolding build_analysis_progress stage_failure_record supported_stages
  analysis_accepted history_id r h =
      let counted = counted-length _ (All-map analysis_failure_record _ (λ f. refl) r.failures h) in
      accepts_lem _ refl (counted ∙ omega arith)

  eligibility_accepted :
      (history_id : ℕ) (r : EligibilityResult F)
      → r.ineligible_count ≡ length r.ineligible_items
      → All (λ (i : IneligibleItem). IsCounted i.reason_code) r.ineligible_items
      → All (λ (f : EligibilityFailure). IsCounted f.code) r.failures
      → accepts (build_billing_eligibility_progress history_id r) ≡ true
  unfolding build_billing_eligibility_progress stage_failure_record supported_stages
  eligibility_accepted history_id r count h k = accepts_lem _ refl (
      two_parts ineligible_record eligibility_failure_record r.ineligible_items r.failures
        (All-map ineligible_record _ (λ i. refl) r.ineligible_items h)
        (All-map eligibility_failure_record _ (λ f. refl) r.failures k)
      ∙ rw count refl)

  inferred_records-AllCounted :
      (resolved failures : List ℕ) (inputs : List (ParsedEmail F))
      → AllCounted (inferred_records resolved failures inputs)
  unfolding inferred_records stage_failure_record eq_text
  inferred_records-AllCounted resolved failures [] = tt
  inferred_records-AllCounted resolved failures (input ∷ inputs) =
      elim (Bool-cases
        (contains input.parsed_email_id resolved || contains input.parsed_email_id failures)) [
          | inl e ↦ rw e (inferred_records-AllCounted resolved failures inputs)
          | inr e ↦ rw e (refl, inferred_records-AllCounted resolved failures inputs)
        ]

  unresolved_records-AllCounted :
      (inputs : List (ParsedEmail F)) (r : VendorResolutionResult F)
      → All (λ (i : UnresolvedItem). IsCounted i.reason_code) r.unresolved_items
      → AllCounted (unresolved_records inputs r)
  unfolding unresolved_records stage_failure_record
  unresolved_records-AllCounted inputs r h = elim (Bool-cases (is_empty r.unresolved_items)) [
    | inl e ↦ rw e (inferred_records-AllCounted _ _ inputs)
    | inr e ↦ rw e (All-map unresolved_record _ (λ i. refl) r.unresolved_items h)
  ]

  vendor_accepted :
      (history_id : ℕ) (inputs : List (ParsedEmail F)) (r : VendorResolutionResult F)
      → All (λ (i : UnresolvedItem). IsCounted i.reason_code) r.unresolved_items
      → All (λ (f : StageFailure). IsCounted f.code) r.failures
      → accepts (build_vendor_resolution_progress history_id inputs r) ≡ true
  unfolding build_vendor_resolution_progress stage_failure_record supported_stages
  vendor_accepted history_id inputs r h k =
      let failures = All-map vendor_failure_record _ (λ f. refl) r.failures k in
      let counted = counted-length _ (
        All-append _ (unresolved_records inputs r) (map vendor_failure_record r.failures)
          (unresolved_records-AllCounted inputs r h) failures) in
      accepts_lem _ refl (
        counted
        ∙ omega (
          arith,
          length-append (unresolved_records inputs r) (map vendor_failure_record r.failures),
          length-map vendor_failure_record r.failures,
        ))

  -- For a coherent result, the history repository accepts the progress of each of the five stages.
  pub progress-accepted :
      (history_id : ℕ) (r : Result F)
      → IsCoherent r
      → (accepts (build_fetch_progress history_id r.fetch) ≡ true)
        × (accepts (build_analysis_progress history_id r.analysis) ≡ true)
        × (accepts (
              build_vendor_resolution_progress history_id r.analysis.parsed_emails
                r.vendor_resolution)
            ≡ true)
        × (accepts (build_billing_eligibility_progress history_id r.billing_eligibility) ≡ true)
        × (accepts (build_billing_progress history_id r.billing) ≡ true)
  progress-accepted history_id r c = (
    fetch_accepted history_id r.fetch c.fetch_codes,
    analysis_accepted history_id r.analysis c.analysis_codes,
    vendor_accepted history_id r.analysis.parsed_emails r.vendor_resolution c.unresolved_codes
        c.vendor_codes,
    eligibility_accepted history_id r.billing_eligibility c.ineligible_count c.ineligible_codes
        c.eligibility_codes,
    billing_accepted history_id r.billing c.duplicate_codes c.billing_codes,
  )
