-- ===== src/EligibilityStage/Billable.antt =====
-- What is known of an eligible item (internal/billingeligibility/application/usecase.go).
use mathlib.Core.Path.{subst}
use billingrse_backend.Prelude.{
  ℕ, ◌≡◌, ◌≢◌, refl, sym, false, some, List, [], ◌∷◌, All, All-append, ok, is_empty, Option-cases,
  Outcome-cases, inl, inr, arith,
}
use billingrse_backend.GoText.{Text, trim_space, to_upper, CaseTable}
use billingrse_backend.GoContext.{Context}
use billingrse_backend.Numbers.{Floats, Decimals}
use billingrse_backend.Domain.Money.{normalize_amount, normalize_currency}
use billingrse_backend.Domain.Money.Currency.{IsCurrency, normalize_currency_iff}
use billingrse_backend.Domain.PaymentCycle.{normalize_payment_cycle, new_payment_cycle}
use billingrse_backend.Domain.PaymentCycle.Values.{IsCycle, new_payment_cycle_iff}
use billingrse_backend.Domain.ParsedEmail.{ParsedEmail}
use billingrse_backend.Domain.VendorResolution.{Resolution}
use billingrse_backend.Domain.Eligibility.{evaluate}
use billingrse_backend.EligibilityStage.Types.{Target, Command, EligibleItem, Result}
use billingrse_backend.EligibilityStage.{
  Verdict, eligible, ineligible, failed, validate, normalize, append_verdict, empty_result,
  reason_code_for_error, target_resolution, eligible_item, judge, judge_all, execute,
}
use billingrse_backend.EligibilityStage.Verdicts.{target_facts, execute-judge_all}

module _ {F : Type 0} (D : Type 0) ⦃fl : Floats F⦄ ⦃dec : Decimals D⦄ ⦃table : CaseTable⦄ where
  -- What a parsed e-mail that passes the policy holds.
  pub record IsComplete (p : ParsedEmail F) : Type 0 where
    pub amount : F
    pub decimal : D
    pub currency : Text
    pub cycle : Text
    pub number : Text
    pub has_amount : p.amount ≡ some amount
    pub amount_valid : normalize_amount amount ≡ ok decimal
    pub has_currency : p.currency ≡ some currency
    pub currency_known : IsCurrency (to_upper (trim_space currency))
    pub has_cycle : p.payment_cycle ≡ some cycle
    pub cycle_known : IsCycle (normalize_payment_cycle cycle)
    pub has_number : p.billing_number ≡ some number
    pub number_filled : is_empty (trim_space number) ≡ false

  module _ (p : ParsedEmail F) (resolution : Resolution) {u : Unit {0}}
      (passed : evaluate D p resolution ≡ ok u) where
    amount_facts : (a : F) × (d : D) × (p.amount ≡ some a) × (normalize_amount a ≡ ok d)
    unfolding evaluate
    amount_facts = elim (Option-cases p.amount) [
      | inl missing ↦ absurd (ground arith)
      | inr (a, given) ↦ elim (Outcome-cases (normalize_amount {D = D} a)) [
        | inl (d, valid) ↦ (a, d, given, valid)
        | inr (e, refused) ↦ absurd (ground arith)
      ]
    ]

    currency_facts : (c : Text) × (n : Text) × (p.currency ≡ some c) × (normalize_currency c ≡ ok n)
    unfolding evaluate
    currency_facts = elim (Option-cases p.currency) [
      | inl missing ↦ absurd (ground arith)
      | inr (c, given) ↦ elim (Outcome-cases (normalize_currency c)) [
        | inl (n, known) ↦ (c, n, given, known)
        | inr (e, refused) ↦ absurd (ground arith)
      ]
    ]

    cycle_facts :
        (c : Text) × (n : Text) × (p.payment_cycle ≡ some c) × (new_payment_cycle c ≡ ok n)
    unfolding evaluate
    cycle_facts = elim (Option-cases p.payment_cycle) [
      | inl missing ↦ absurd (ground arith)
      | inr (c, given) ↦ elim (Outcome-cases (new_payment_cycle c)) [
        | inl (n, known) ↦ (c, n, given, known)
        | inr (e, refused) ↦ absurd (ground arith)
      ]
    ]

    number_facts : (n : Text) × (p.billing_number ≡ some n) × (is_empty (trim_space n) ≡ false)
    unfolding evaluate
    number_facts = elim (Option-cases p.billing_number) [
      | inl missing ↦ absurd (ground arith)
      | inr (n, given) ↦ (n, given, ground arith)
    ]

    evaluate-IsComplete : IsComplete p
    evaluate-IsComplete =
        let (a, d, has_amount, amount_valid) = amount_facts in
        let (c, n, has_currency, currency_ok) = currency_facts in
        let (k, m, has_cycle, cycle_ok) = cycle_facts in
        let (number, has_number, filled) = number_facts in
        let known = (normalize_currency_iff c n).0 currency_ok in
        let cycles = (new_payment_cycle_iff k m).0 cycle_ok in
        record {
          amount = a;
          decimal = d;
          currency = c;
          cycle = k;
          number = number;
          has_amount = has_amount;
          amount_valid = amount_valid;
          has_currency = has_currency;
          currency_known = rw known.0 at known.1;
          has_cycle = has_cycle;
          cycle_known = rw cycles.0 at cycles.1;
          has_number = has_number;
          number_filled = filled;
        }

  -- What NewBilling needs of an item, but for its invoice number and its date.
  pub record IsBillable (i : EligibleItem F) : Type 0 where
    pub decimal : D
    pub parsed_email : i.parsed_email_id ≢ 0
    pub email : i.email_id ≢ 0
    pub vendor : i.vendor_id ≢ 0
    pub number_filled : is_empty (trim_space i.billing_number) ≡ false
    pub amount_valid : normalize_amount i.amount ≡ ok decimal
    pub currency_known : IsCurrency (to_upper (trim_space i.currency))
    pub cycle_known : IsCycle (normalize_payment_cycle i.payment_cycle)

  eligible_item-IsBillable :
      (t : Target F)
      → t.parsed_email_id ≢ 0
      → t.email_id ≢ 0
      → t.vendor_id ≢ 0
      → IsComplete t.parsed
      → IsBillable (eligible_item t)
  unfolding eligible_item
  eligible_item-IsBillable t parsed_email email vendor c = record {
    decimal = c.decimal;
    parsed_email = parsed_email;
    email = email;
    vendor = vendor;
    number_filled = rw c.has_number c.number_filled;
    amount_valid = rw c.has_amount c.amount_valid;
    currency_known = rw c.has_currency c.currency_known;
    cycle_known = rw c.has_cycle c.cycle_known;
  }

  normalize_ids :
      (t : Target F)
      → ((normalize t).parsed_email_id ≡ t.parsed_email_id)
        × ((normalize t).email_id ≡ t.email_id)
        × ((normalize t).vendor_id ≡ t.vendor_id)
  unfolding normalize
  normalize_ids t = (refl, refl, refl)

  judge-eligible :
      (user_id : ℕ) (t : Target F) (i : EligibleItem F)
      → judge D user_id t ≡ eligible i
      → IsBillable i
  unfolding judge
  judge-eligible user_id t i h =
      let n = normalize t in
      elim (Outcome-cases (validate n)) [
        | inr (e, refused) ↦ absurd (ground arith)
        | inl (_, valid) ↦
            elim (Outcome-cases (evaluate D n.parsed (target_resolution user_id n))) [
              | inr (e, refused) ↦ elim (Option-cases (reason_code_for_error e)) [
                | inl unknown ↦ absurd (ground arith)
                | inr (c, reason) ↦ absurd (ground arith)
              ]
              | inl (_, passed) ↦
                  let (p, e, v, _) = target_facts t valid in
                  let same : eligible_item n ≡ i = ground arith in
                  subst IsBillable same (
                    eligible_item-IsBillable n (rw (normalize_ids t).0 p) (rw (normalize_ids t).1 e)
                      (rw (normalize_ids t).2 v)
                      (evaluate-IsComplete n.parsed (target_resolution user_id n) passed))
            ]
      ]

  judge_all-eligible :
      (user_id : ℕ) (r : Result F) (ts : List (Target F))
      → All IsBillable r.eligible_items
      → All IsBillable (judge_all D user_id r ts).eligible_items
  unfolding judge_all
  judge_all-eligible user_id r [] h = h
  judge_all-eligible user_id r (t ∷ ts) h =
      judge_all-eligible user_id (append_verdict r (judge D user_id t)) ts
        (added (judge D user_id t) (judge-eligible user_id t))
    where
      added :
          (v : Verdict F)
          → ((i : EligibleItem F) → v ≡ eligible i → IsBillable i)
          → All IsBillable (append_verdict r v).eligible_items
      added (eligible item) billable =
          All-append _ r.eligible_items (item ∷ []) h (billable item refl, tt)
      added (ineligible item) billable = h
      added (failed f) billable = h

  -- Each item that Execute reports as eligible has non-zero ids, a billing number that is not
  -- blank, a valid amount, a known currency and a known payment cycle.
  pub execute-IsBillable :
      (ctx : Context) (cmd : Command F) (r : Result F)
      → execute D ctx cmd ≡ ok r
      → All IsBillable r.eligible_items
  execute-IsBillable ctx cmd r h =
      let (_, same) = execute-judge_all D ctx cmd r h in
      subst (λ (x : Result F). All IsBillable x.eligible_items) (sym same)
        (judge_all-eligible cmd.user_id empty_result cmd.resolved_items tt)
