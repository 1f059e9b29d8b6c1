-- ===== src/Domain/Optional/Idempotence.antt =====
-- The normalization of optional strings, applied again.
use mathlib.Core.Path.{subst}
use billingrse_backend.Prelude.{
  ℕ, ◌≡◌, refl, sym, ap, ◌∙◌, Option, none, some, is_empty, Bool-cases, inl, inr, true, false, ◌⊎◌,
  List, [], All, ◌∷◌, eq-nil_of_is_empty, arith,
}
use billingrse_backend.GoText.{
  Text, txt, trim_space, to_upper, to_lower, is_space, fields_func, join, CaseTable,
}
use billingrse_backend.GoText.Trim.{
  trim_space_idem, trim_space-to_upper, trim_space-to_lower, to_upper_idem,
}
use billingrse_backend.GoText.Words.{
  fields_func-trim_space, fields_func-join, fields_func-IsWord, IsWord,
}
use billingrse_backend.GoText.Lower.{to_lower-join}
use billingrse_backend.Domain.Optional.{
  normalize_optional_string, normalize_optional_upper_string, normalize_optional_payment_cycle,
  is_cycle_separator, join_parts,
}
use billingrse_backend.Domain.Money.Currency.{is_empty-to_upper}

-- A normalized string is absent, or trimmed and not empty.
pub normalize_optional_string-cases :
    (value : Option Text)
    → (normalize_optional_string value ≡ none)
      ⊎ ((t : Text) × (normalize_optional_string value ≡ some t)
          × (is_empty t ≡ false)
          × (trim_space t ≡ t))
unfolding normalize_optional_string
normalize_optional_string-cases none = inl refl
normalize_optional_string-cases (some value) = elim (Bool-cases (is_empty (trim_space value))) [
  | inl e ↦ inl (rw e refl)
  | inr e ↦ inr (trim_space value, rw e refl, e, trim_space_idem value)
]

pub normalize_optional_string_id :
    (t : Text) → is_empty t ≡ false → trim_space t ≡ t → normalize_optional_string (some t) ≡ some t
unfolding normalize_optional_string
normalize_optional_string_id t e s = rw (s, e) refl

pub normalize_optional_string_idem :
    (value : Option Text)
    → normalize_optional_string (normalize_optional_string value) ≡ normalize_optional_string value
normalize_optional_string_idem value = elim (normalize_optional_string-cases value) [
  | inl e ↦ rw e (unfold normalize_optional_string in refl)
  | inr (t, e, full, trimmed) ↦ rw e (normalize_optional_string_id t full trimmed)
]

module _ ⦃table : CaseTable⦄ where
  pub normalize_optional_upper_string_idem :
      (value : Option Text)
      → normalize_optional_upper_string (normalize_optional_upper_string value)
        ≡ normalize_optional_upper_string value
  unfolding normalize_optional_upper_string
  normalize_optional_upper_string_idem value = elim (normalize_optional_string-cases value) [
    | inl e ↦ rw e (unfold normalize_optional_string in refl)
    | inr (t, e, full, trimmed) ↦ rw e (
        rw
          (
            normalize_optional_string_id (to_upper t) (rw is_empty-to_upper full)
                (rw (trim_space-to_upper, trimmed) refl),
            to_upper_idem,
          )
          refl)
  ]

is_cycle_separator-space : (c : ℕ) → is_space c ≡ true → is_cycle_separator c ≡ true
is_cycle_separator-space c h = ground arith

module _ ⦃table : CaseTable⦄ where
  no_parts : ◌≡◌ {A = Option Text} none (join_parts (fields_func is_cycle_separator (to_lower [])))
  unfolding fields_func to_lower
  no_parts = refl

  -- A payment cycle is its lower-case parts, joined by underscores.
  normalize_optional_payment_cycle_lem :
      (value : Text)
      → normalize_optional_payment_cycle (some value)
        ≡ join_parts (fields_func is_cycle_separator (to_lower value))
  unfolding normalize_optional_payment_cycle normalize_optional_string
  normalize_optional_payment_cycle_lem value =
      let parts : fields_func is_cycle_separator (to_lower (trim_space value))
          ≡ fields_func is_cycle_separator (to_lower value) =
        rw (← trim_space-to_lower)
          (fields_func-trim_space is_cycle_separator is_cycle_separator-space (to_lower value)) in
      elim (Bool-cases (is_empty (trim_space value))) [
        | inr e ↦ rw e (ap join_parts parts)
        | inl e ↦ rw e (
            no_parts
            ∙ ap join_parts (
                ap (λ t. fields_func is_cycle_separator (to_lower t))
                  (sym (eq-nil_of_is_empty (trim_space value) e))
                ∙ parts))
      ]

  join_parts-again :
      (value : Text) (parts : List Text)
      → parts ≡ fields_func is_cycle_separator (to_lower value)
      → normalize_optional_payment_cycle (join_parts parts) ≡ join_parts parts
  join_parts-again value [] h =
      unfold normalize_optional_payment_cycle normalize_optional_string in refl
  join_parts-again value (part ∷ parts) h =
      normalize_optional_payment_cycle_lem (join (txt "_") (part ∷ parts))
      ∙ ap join_parts (
          ap (fields_func is_cycle_separator) (
            rw h
              (to_lower-join is_cycle_separator b'_' value (table.lower_ascii b'_' (omega arith))))
          ∙ fields_func-join is_cycle_separator b'_' (part ∷ parts) refl (
              subst (All (IsWord is_cycle_separator)) (sym h)
                (fields_func-IsWord is_cycle_separator (to_lower value))))

  pub normalize_optional_payment_cycle_idem :
      (value : Option Text)
      → normalize_optional_payment_cycle (normalize_optional_payment_cycle value)
        ≡ normalize_optional_payment_cycle value
  normalize_optional_payment_cycle_idem none =
      unfold normalize_optional_payment_cycle normalize_optional_string in refl
  normalize_optional_payment_cycle_idem (some value) =
      rw normalize_optional_payment_cycle_lem (join_parts-again value _ refl)
