-- ===== src/Domain/PaymentCycle/Values.antt =====
-- Which payment cycles pass (internal/common/domain/payment_cycle.go).
use billingrse_backend.Prelude.{◌≡◌, ◌↔◌, ◌⊎◌, inl, inr, refl, ok, arith, check-cases, eq_of_ok}
use billingrse_backend.GoText.{Text, trim_space, eq_text, CaseTable}
use billingrse_backend.GoText.Trim.{
  eq_text_iff, trim_space-to_lower, trim_space_idem, to_lower_idem,
}
use billingrse_backend.Domain.PaymentCycle.{
  normalize_payment_cycle, validate, new_payment_cycle, one_time, recurring,
}

abbrev pub IsCycle : Text → Type 0
IsCycle c = (c ≡ one_time) ⊎ (c ≡ recurring)

module _ ⦃table : CaseTable⦄ where
  pub validate_iff : (c : Text) → (validate c ≡ ok tt) ↔ IsCycle (normalize_payment_cycle c)
  unfolding validate eq_text
  validate_iff c =
      let n = normalize_payment_cycle c in
      (
        λ h. ground (arith, eq_text_iff n one_time, eq_text_iff n recurring),
        elim [ inl e ↦ rw e refl | inr e ↦ rw e refl ],
      )

  pub normalize_payment_cycle_idem :
      (c : Text) → normalize_payment_cycle (normalize_payment_cycle c) ≡ normalize_payment_cycle c
  unfolding normalize_payment_cycle
  normalize_payment_cycle_idem c =
      rw (trim_space-to_lower, trim_space_idem) (to_lower_idem (trim_space c))

  -- A cycle passes exactly if its trimmed lower case is "one_time" or "recurring", the result.
  pub new_payment_cycle_iff :
      (c n : Text) → (new_payment_cycle c ≡ ok n) ↔ ((n ≡ normalize_payment_cycle c) × IsCycle n)
  unfolding new_payment_cycle
  new_payment_cycle_iff c n =
      let m = normalize_payment_cycle c in
      let same = normalize_payment_cycle_idem c in
      elim (check-cases (validate m)) [
        | inl passed ↦
            let cycle = rw same at ((validate_iff m).0 passed) in
            (λ h. rw (← eq_of_ok (rw passed at h)) (refl, cycle), λ h. rw (passed, h.0) refl)
        | inr (e, failed) ↦
            (λ h. cc (rw failed at h), λ h. cc (failed, (validate_iff m).1 (rw (same, ← h.0) h.1)))
      ]
