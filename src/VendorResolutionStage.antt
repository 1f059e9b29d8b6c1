-- ===== src/VendorResolutionStage.antt =====
-- The vendor resolution stage, internal/vendorresolution: it resolves the vendor of each parsed
-- e-mail by the policy, and registers a candidate vendor that is not known yet. `S` is the state
-- behind the two repositories and `X` the type of their errors; `parse_address` stands for
-- net/mail.ParseAddress. Logging is left out.
pub mod Types
pub mod Messages
pub mod Verdicts
use billingrse_backend.Prelude.{
  ℕ, suc, Bool, true, false, Option, none, some, List, [], ◌∷◌, ◌++◌, Outcome, ok, err, ◌>>=◌, ◌>>◌,
  fail_if, length, is_nil, is_empty, ◌==◌, if◌then◌else◌, ◌+◌,
}
use billingrse_backend.GoText.{Text, trim_space, CaseTable}
use billingrse_backend.GoContext.{Context, is_nil_context}
use billingrse_backend.Domain.Errors.{Error}
use billingrse_backend.Domain.Optional.{string_value}
use billingrse_backend.Domain.ParsedEmail
use billingrse_backend.Domain.Vendor.{Vendor}
use billingrse_backend.Domain.VendorResolution.{
  Input, FetchPlan, Facts, Decision, RegistrationPlan, normalize_strings, resolve,
  resolve_registered_vendor, build_registration_plan,
}
use billingrse_backend.Domain.VendorResolution
use billingrse_backend.Domain.VendorResolution.Search.{build_fetch_plan}
use Types.{
  ResolutionTarget, Command, ResolvedItem, UnresolvedItem, Failure, Result, TargetError,
  parsed_email_id_required, email_id_required, CommandError, nil_context_given, user_id_required,
  resolution_repository_not_configured, registration_repository_not_configured, normalize_input,
  resolve_vendor, register_vendor, invalid_resolution_target, vendor_resolution_failed,
  vendor_registration_failed, vendor_unresolved,
}
use Messages.{message_for_unresolved_item, message_for_resolution_failure}

-- The two repositories.
pub record Repositories (S X : Type 0) : Type 0 where
  pub fetch_facts : FetchPlan → S → Outcome X Facts × S
  pub ensure_by_plan : RegistrationPlan → S → Outcome X (Option Vendor) × S

-- What becomes of one parsed e-mail.
pub data Verdict : Type 0 where
  resolved : ResolvedItem → Verdict
  unresolved : UnresolvedItem → Verdict
  failed : Failure → Verdict

abbrev pub empty_result : Result
empty_result = record {
  resolved_items = [];
  resolved_count = 0;
  unresolved_items = [];
  unresolved_count = 0;
  failures = [];
}

abbrev pub append_verdict : Result → Verdict → Result
append_verdict r (resolved item) = record r {
  resolved_items = r.resolved_items ++ item ∷ [];
  resolved_count = r.resolved_count + 1;
}
append_verdict r (unresolved item) = record r {
  unresolved_items = r.unresolved_items ++ item ∷ [];
  unresolved_count = length (r.unresolved_items ++ item ∷ []);
}
append_verdict r (failed f) = record r { failures = r.failures ++ f ∷ [] }

-- How resolveTarget ends: with a decision, or with a failure stage and code and an error.
pub data Attempt : Type 0 where
  decided : Decision → Attempt
  refused : Text → Text → Attempt

module _ {F : Type 0} where
  -- ResolutionTarget.Validate.
  unfoldable pub validate : ResolutionTarget F → Outcome TargetError (Unit {0})
  validate t = do
    fail_if (t.parsed_email_id == 0) parsed_email_id_required
    fail_if (t.email_id == 0) email_id_required

  -- newFailure, and the failures of Execute.
  abbrev pub failure : Text → Text → ResolutionTarget F → Failure
  failure stage code target = record {
    parsed_email_id = target.parsed_email_id;
    email_id = target.email_id;
    external_message_id = target.external_message_id;
    stage = stage;
    code = code;
    message = message_for_resolution_failure target code;
  }

  abbrev pub unresolved_item : ResolutionTarget F → UnresolvedItem
  unresolved_item target = record {
    parsed_email_id = target.parsed_email_id;
    email_id = target.email_id;
    external_message_id = target.external_message_id;
    reason_code = vendor_unresolved;
    message = message_for_unresolved_item target;
    candidate_vendor_name = string_value target.parsed_email.vendor_name;
  }

  abbrev pub resolved_item : ResolutionTarget F → Vendor → Text → ResolvedItem
  resolved_item target vendor matched_by = record {
    parsed_email_id = target.parsed_email_id;
    email_id = target.email_id;
    external_message_id = target.external_message_id;
    vendor_id = vendor.id;
    vendor_name = vendor.name;
    matched_by = matched_by;
  }

  -- The end of the loop's body, for a vendor and the check of the resolution.
  abbrev pub by_check : ResolutionTarget F → Vendor → Text → Outcome Error (Unit {0}) → Verdict
  by_check target vendor matched_by (err e) =
      failed (failure resolve_vendor vendor_resolution_failed target)
  by_check target vendor matched_by (ok u) = resolved (resolved_item target vendor matched_by)

  abbrev pub by_resolution : ResolutionTarget F → Option Vendor → Text → Verdict
  by_resolution target none matched_by = unresolved (unresolved_item target)
  by_resolution target (some vendor) matched_by =
      by_check target vendor matched_by (VendorResolution.validate (some vendor))

  abbrev pub by_attempt : ResolutionTarget F → Attempt → Verdict
  by_attempt target (refused stage code) = failed (failure stage code target)
  by_attempt target (decided decision) =
      by_resolution target decision.resolution decision.matched_by

  -- buildVendorResolutionInput.
  abbrev pub build_vendor_resolution_input : ResolutionTarget F → Input
  build_vendor_resolution_input target = VendorResolution.normalize (record {
    candidate_vendor_name = target.parsed_email.vendor_name;
    subject = target.subject;
    from = target.from;
    to = target.to;
  })

module _ {F : Type 0} ⦃table : CaseTable⦄ where
  -- ResolutionTarget.Normalize.
  unfoldable pub normalize : ResolutionTarget F → ResolutionTarget F
  normalize t = record t {
    external_message_id = trim_space t.external_message_id;
    subject = trim_space t.subject;
    from = trim_space t.from;
    to = normalize_strings t.to;
    body_digest = trim_space t.body_digest;
    parsed_email = ParsedEmail.normalize t.parsed_email;
  }

module _ {S X : Type 0} where
  abbrev pub by_vendor : Decision → Outcome X (Option Vendor) × S → Outcome X Decision × S
  by_vendor decision (err e, s) = (err e, s)
  by_vendor decision (ok none, s) = (ok decision, s)
  by_vendor decision (ok (some vendor), s) = (ok (resolve_registered_vendor vendor), s)

  abbrev pub by_plan :
      Repositories S X → ℕ → Decision → Option RegistrationPlan → S → Outcome X Decision × S
  by_plan repositories user_id decision none s = (ok decision, s)
  by_plan repositories user_id decision (some plan) s =
      by_vendor decision (repositories.ensure_by_plan (record plan { user_id = user_id }) s)

  abbrev pub registered : Outcome X Decision × S → Attempt × S
  registered (err e, s) = (refused register_vendor vendor_registration_failed, s)
  registered (ok decision, s) = (decided decision, s)

module _ {S X : Type 0} ⦃table : CaseTable⦄ (repositories : Repositories S X) where
  -- ensureVendorByCandidateName.
  unfoldable pub ensure_vendor_by_candidate_name : ℕ → Input → Decision → S → Outcome X Decision × S
  ensure_vendor_by_candidate_name user_id input decision s =
      by_plan repositories user_id decision (build_registration_plan input decision) s

  abbrev pub by_decision : ℕ → Input → Decision → S → Attempt × S
  by_decision user_id input decision s =
      if is_nil decision.resolution
      then registered (ensure_vendor_by_candidate_name user_id input decision s)
      else (decided decision, s)

  abbrev pub by_facts : ℕ → Input → Outcome X Facts × S → Attempt × S
  by_facts user_id input (err e, s) = (refused resolve_vendor vendor_resolution_failed, s)
  by_facts user_id input (ok facts, s) = by_decision user_id input (resolve facts) s

module _ {F S X : Type 0} ⦃table : CaseTable⦄ (parse_address : Text → Option (Text × Text))
    (repositories : Repositories S X) where
  -- resolveTarget.
  unfoldable pub resolve_target : ℕ → ResolutionTarget F → S → Attempt × S
  resolve_target user_id target s =
      let input = build_vendor_resolution_input target in
      by_facts repositories user_id input (
        repositories.fetch_facts
          (record (build_fetch_plan parse_address input) { user_id = user_id }) s)

  abbrev pub by_validity : ℕ → ResolutionTarget F → Outcome TargetError (Unit {0}) → S → Verdict × S
  by_validity user_id target (err e) s =
      (failed (failure normalize_input invalid_resolution_target target), s)
  by_validity user_id target (ok u) s =
      let (attempt, s') = resolve_target user_id target s in (by_attempt target attempt, s')

  -- The body of the loop of Execute.
  unfoldable pub settle : ℕ → ResolutionTarget F → S → Verdict × S
  settle user_id target s = by_validity user_id (normalize target) (validate (normalize target)) s

  unfoldable pub settle_all : ℕ → Result → List (ResolutionTarget F) → S → Result × S
  settle_all user_id r [] s = (r, s)
  settle_all user_id r (target ∷ targets) s =
      let (verdict, s') = settle user_id target s in
      settle_all user_id (append_verdict r verdict) targets s'

module _ {F S X : Type 0} ⦃table : CaseTable⦄ (parse_address : Text → Option (Text × Text)) where
  -- validateDependencies and the loop; a repository that is nil is `none`.
  abbrev pub with_repositories :
      Option (FetchPlan → S → Outcome X Facts × S)
      → Option (RegistrationPlan → S → Outcome X (Option Vendor) × S)
      → Command F
      → S
      → Outcome CommandError Result × S
  with_repositories none ensure_by_plan cmd s = (err resolution_repository_not_configured, s)
  with_repositories (some fetch_facts) none cmd s = (err registration_repository_not_configured, s)
  with_repositories (some fetch_facts) (some ensure_by_plan) cmd s =
      let (r, s') =
        settle_all parse_address
          (record { fetch_facts = fetch_facts; ensure_by_plan = ensure_by_plan }) cmd.user_id
          empty_result cmd.parsed_emails s in
      (ok r, s')

  -- useCase.Execute.
  unfoldable pub execute :
      Context
      → Option (FetchPlan → S → Outcome X Facts × S)
      → Option (RegistrationPlan → S → Outcome X (Option Vendor) × S)
      → Command F
      → S
      → Outcome CommandError Result × S
  execute ctx fetch_facts ensure_by_plan cmd s =
      if is_nil_context ctx
      then (err nil_context_given, s)
      else if cmd.user_id == 0
      then (err user_id_required, s)
      else if is_empty cmd.parsed_emails
      then (ok empty_result, s)
      else with_repositories fetch_facts ensure_by_plan cmd s
