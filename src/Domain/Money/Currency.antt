-- ===== src/Domain/Money/Currency.antt =====
-- Which currencies pass (internal/common/domain/money.go).
use billingrse_backend.Prelude.{◌≡◌, ◌↔◌, ◌⊎◌, inl, inr, refl, ok, is_empty, arith, [], ◌∷◌}
use billingrse_backend.GoText.{Text, trim_space, to_upper, eq_text, byte_length, CaseTable}
use billingrse_backend.GoText.Trim.{
  eq_text_iff, trim_space-to_upper, trim_space_idem, to_upper_idem,
}
use billingrse_backend.Domain.Money.{normalize_currency, jpy, usd}

abbrev pub IsCurrency : Text → Type 0
IsCurrency c = (c ≡ jpy) ⊎ (c ≡ usd)

module _ ⦃table : CaseTable⦄ where
  pub is_empty-to_upper : (s : Text) → is_empty (to_upper s) ≡ is_empty s
  unfolding to_upper
  is_empty-to_upper [] = refl
  is_empty-to_upper (c ∷ s) = refl

  normalize_currency_sound :
      (c n : Text) → normalize_currency c ≡ ok n → (n ≡ to_upper (trim_space c)) × IsCurrency n
  unfolding normalize_currency
  normalize_currency_sound c n h =
      let u = to_upper (trim_space c) in ground (arith, eq_text_iff u jpy, eq_text_iff u usd)

  normalize_currency_complete :
      (c : Text)
      → IsCurrency (to_upper (trim_space c))
      → normalize_currency c ≡ ok (to_upper (trim_space c))
  unfolding normalize_currency byte_length eq_text
  normalize_currency_complete c (inl e) = rw (← is_empty-to_upper (trim_space c)) (rw e refl)
  normalize_currency_complete c (inr e) = rw (← is_empty-to_upper (trim_space c)) (rw e refl)

  -- A currency passes exactly if its trimmed upper case is "JPY" or "USD", and that is the result.
  pub normalize_currency_iff :
      (c n : Text) → (normalize_currency c ≡ ok n) ↔ ((n ≡ to_upper (trim_space c)) × IsCurrency n)
  normalize_currency_iff c n =
      (normalize_currency_sound c n, λ h. rw h.0 (normalize_currency_complete c (rw h.0 at h.1)))

  -- A normalized currency is accepted again, unchanged.
  pub normalize_currency_idem :
      (c n : Text) → normalize_currency c ≡ ok n → normalize_currency n ≡ ok n
  normalize_currency_idem c n h =
      let (e, code) = normalize_currency_sound c n h in
      let same : n ≡ to_upper (trim_space n) =
        rw (e, ← trim_space-to_upper, trim_space_idem)
          (rw (trim_space-to_upper, to_upper_idem) refl) in
      (normalize_currency_iff n n).1 (same, code)
