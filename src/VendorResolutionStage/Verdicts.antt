-- ===== src/VendorResolutionStage/Verdicts.antt =====
-- The counts and the resolved items of the stage (internal/vendorresolution/application/usecase.go).
use mathlib.Core.Path.{subst}
use billingrse_backend.Prelude.{
  ℕ, suc, ◌+◌, ◌≡◌, ◌≢◌, refl, ap, false, Option, none, some, List, [], ◌∷◌, All, All-append,
  length, length-append, is_empty, Outcome, ok, err, ◌==◌, Bool-cases, Option-cases, Outcome-cases,
  inl, inr, eq-nil_of_is_empty, arith,
}
use billingrse_backend.GoText.{Text, trim_space, CaseTable}
use billingrse_backend.GoContext.{Context, is_nil_context}
use billingrse_backend.Domain.Vendor
use billingrse_backend.Domain.Vendor.{Vendor}
use billingrse_backend.Domain.VendorResolution
use billingrse_backend.Domain.VendorResolution.{
  FetchPlan, Facts, Decision, RegistrationPlan, resolve, build_registration_plan,
}
use billingrse_backend.VendorResolutionStage.Types.{
  ResolutionTarget, Command, ResolvedItem, Result, CommandError,
}
use billingrse_backend.VendorResolutionStage.{
  Repositories, Verdict, resolved, unresolved, failed, Attempt, decided, refused, empty_result,
  append_verdict, validate, normalize, by_attempt, settle, settle_all, with_repositories, execute,
}

-- The counters are those of the lists.
abbrev IsCounted : Result → Type 0
IsCounted r =
    (r.resolved_count ≡ length r.resolved_items) × (r.unresolved_count ≡ length r.unresolved_items)

abbrev sorted_count : Result → ℕ
sorted_count r = length r.resolved_items + (length r.unresolved_items + length r.failures)

append_verdict-IsCounted : (r : Result) (v : Verdict) → IsCounted r → IsCounted (append_verdict r v)
append_verdict-IsCounted r (resolved item) (h, k) =
    (omega (arith, h, length-append r.resolved_items (item ∷ [])), k)
append_verdict-IsCounted r (unresolved item) (h, k) = (h, refl)
append_verdict-IsCounted r (failed f) h = h

append_verdict-count :
    (r : Result) (v : Verdict) → sorted_count (append_verdict r v) ≡ suc (sorted_count r)
append_verdict-count r (resolved item) = omega (arith, length-append r.resolved_items (item ∷ []))
append_verdict-count r (unresolved item) =
    omega (arith, length-append r.unresolved_items (item ∷ []))
append_verdict-count r (failed f) = omega (arith, length-append r.failures (f ∷ []))

-- An item of a parsed e-mail and an e-mail whose ids are not 0, with a vendor name that is not blank.
abbrev pub IsNamed : ResolvedItem → Type 0
IsNamed i =
    (i.parsed_email_id ≢ 0) × (i.email_id ≢ 0) × (is_empty (trim_space i.vendor_name) ≡ false)

abbrev Names : Verdict → Type 0
Names (resolved item) = IsNamed item
Names (unresolved item) = Unit
Names (failed f) = Unit

validate-named :
    (v : Vendor) (u : Unit {0})
    → VendorResolution.validate (some v) ≡ ok u
    → is_empty (trim_space v.name) ≡ false
unfolding VendorResolution.validate Vendor.validate
validate-named v u good = ground arith

module _ {F : Type 0} where
  by_attempt-Names :
      (t : ResolutionTarget F) (attempt : Attempt)
      → t.parsed_email_id ≢ 0
      → t.email_id ≢ 0
      → Names (by_attempt t attempt)
  by_attempt-Names t (refused stage code) p e = tt
  by_attempt-Names t (decided d) p e = elim (Option-cases d.resolution) [
    | inl none_found ↦ rw none_found tt
    | inr (vendor, found) ↦
        rw found (elim (Outcome-cases (VendorResolution.validate (some vendor))) [
          | inr (x, bad) ↦ rw bad tt
          | inl (u, good) ↦ rw good (p, e, validate-named vendor u good)
        ])
  ]

module _ {F S X : Type 0} ⦃table : CaseTable⦄ (parse_address : Text → Option (Text × Text))
    (repositories : Repositories S X) where
  settle-Names :
      (user_id : ℕ) (t : ResolutionTarget F) (s : S)
      → Names (settle parse_address repositories user_id t s).0
  unfolding settle validate
  settle-Names user_id t s = elim (Outcome-cases (validate (normalize t))) [
    | inr (e, bad) ↦ rw bad tt
    | inl (u, good) ↦
        rw good (by_attempt-Names (normalize t) _ (λ z. ground arith) (λ z. ground arith))
  ]

  settle_all-keeps :
      (user_id n : ℕ) (r : Result) (ts : List (ResolutionTarget F)) (s : S)
      → IsCounted r × (sorted_count r ≡ n) × All IsNamed r.resolved_items
      → (let after = (settle_all parse_address repositories user_id r ts s).0 in
          IsCounted after × (sorted_count after ≡ n + length ts) × All IsNamed after.resolved_items)
  unfolding settle_all
  settle_all-keeps user_id n r [] s (c, k, h) = (c, omega (arith, k), h)
  settle_all-keeps user_id n r (t ∷ ts) s (c, k, h) =
      let (v, s') = settle parse_address repositories user_id t s in
      let (c', k', h') = settle_all-keeps user_id (suc n) (append_verdict r v) ts s' (
        append_verdict-IsCounted r v c,
        omega (arith, k, append_verdict-count r v),
        added v (settle-Names user_id t s),
      ) in
      (c', omega (arith, k'), h')
    where
      added : (v : Verdict) → Names v → All IsNamed (append_verdict r v).resolved_items
      added (resolved item) i = All-append IsNamed r.resolved_items (item ∷ []) h (i, tt)
      added (unresolved item) i = h
      added (failed f) i = h

abbrev After : ℕ → Outcome CommandError Result → Type 0
After n (err e) = Unit
After n (ok r) = IsCounted r × (sorted_count r ≡ n) × All IsNamed r.resolved_items

module _ {F S X : Type 0} ⦃table : CaseTable⦄ (parse_address : Text → Option (Text × Text)) where
  with_repositories-After :
      (fetch_facts : Option (FetchPlan → S → Outcome X Facts × S))
      (ensure_by_plan : Option (RegistrationPlan → S → Outcome X (Option Vendor) × S))
      (cmd : Command F) (s : S)
      → After
          (length cmd.parsed_emails)
          (with_repositories parse_address fetch_facts ensure_by_plan cmd s).0
  with_repositories-After none ensure_by_plan cmd s = tt
  with_repositories-After (some fetch_facts) none cmd s = tt
  with_repositories-After (some fetch_facts) (some ensure_by_plan) cmd s =
      let (c, k, h) =
        settle_all-keeps parse_address
          (record { fetch_facts = fetch_facts; ensure_by_plan = ensure_by_plan }) cmd.user_id 0
          empty_result cmd.parsed_emails s ((refl, refl), omega arith, tt) in
      (c, omega (arith, k), h)

  execute-After :
      (ctx : Context) (fetch_facts : Option (FetchPlan → S → Outcome X Facts × S))
      (ensure_by_plan : Option (RegistrationPlan → S → Outcome X (Option Vendor) × S))
      (cmd : Command F) (s : S)
      → After
          (length cmd.parsed_emails)
          (execute parse_address ctx fetch_facts ensure_by_plan cmd s).0
  unfolding execute
  execute-After ctx fetch_facts ensure_by_plan cmd s = elim (Bool-cases (is_nil_context ctx)) [
    | inl a ↦ rw a tt
    | inr a ↦ elim (Bool-cases (cmd.user_id == 0)) [
      | inl b ↦ rw (a, b) tt
      | inr b ↦ elim (Bool-cases (is_empty cmd.parsed_emails)) [
        | inl c ↦
            rw (a, b, c)
              ((refl, refl), omega (arith, ap length (eq-nil_of_is_empty cmd.parsed_emails c)), tt)
        | inr c ↦ rw (a, b, c) (with_repositories-After fetch_facts ensure_by_plan cmd s)
      ]
    ]
  ]

  -- When Execute succeeds, each parsed e-mail is counted once: the counters are those of the lists,
  -- and the resolved and unresolved items and the failures are together as many as the input; and
  -- each resolved item is of a parsed e-mail and an e-mail whose ids are not 0, and has a vendor name that
  -- is not blank.
  pub execute-IsNamed :
      (ctx : Context) (fetch_facts : Option (FetchPlan → S → Outcome X Facts × S))
      (ensure_by_plan : Option (RegistrationPlan → S → Outcome X (Option Vendor) × S))
      (cmd : Command F) (s s' : S) (r : Result)
      → execute parse_address ctx fetch_facts ensure_by_plan cmd s ≡ (ok r, s')
      → ((r.resolved_count ≡ length r.resolved_items)
          × (r.unresolved_count ≡ length r.unresolved_items))
        × (length r.resolved_items + (length r.unresolved_items + length r.failures)
            ≡ length cmd.parsed_emails)
        × All IsNamed r.resolved_items
  execute-IsNamed ctx fetch_facts ensure_by_plan cmd s s' r h =
      subst (λ (m : Outcome CommandError Result × S). After (length cmd.parsed_emails) m.0) h
        (execute-After ctx fetch_facts ensure_by_plan cmd s)
