-- ===== src/Domain/VendorResolution/LooseText.antt =====
-- NormalizeLooseText (internal/common/domain/vendor_resolution.go).
use billingrse_backend.Prelude.{
  ◌≡◌, ◌↔◌, refl, ap, sym, ◌∙◌, arith, is_empty, Bool-cases, inl, inr, eq-nil_of_is_empty,
}
use billingrse_backend.GoText.{Text, txt, is_space, to_lower, fields, fields_func, join, CaseTable}
use billingrse_backend.GoText.Trim.{trim_space-to_lower}
use billingrse_backend.GoText.Words.{fields_func-IsWord, fields_func-join, fields-trim_space}
use billingrse_backend.GoText.Lower.{to_lower-join}
use billingrse_backend.Domain.VendorResolution.{normalize_loose_text}

module _ ⦃table : CaseTable⦄ where
  -- Loose text is the lower-case words, joined by single spaces.
  normalize_loose_text_lem :
      (s : Text) → normalize_loose_text s ≡ join (txt " ") (fields (to_lower s))
  unfolding normalize_loose_text
  normalize_loose_text_lem s = elim (Bool-cases (is_empty s)) [
    | inl e ↦ rw (eq-nil_of_is_empty s e) (unfold to_lower fields fields_func join in refl)
    | inr e ↦ rw (e, ← trim_space-to_lower, fields-trim_space) refl
  ]

  fields-normalize_loose_text : (s : Text) → fields (normalize_loose_text s) ≡ fields (to_lower s)
  fields-normalize_loose_text s =
      ap fields (normalize_loose_text_lem s)
      ∙ unfold fields is_space in
        fields_func-join is_space b' ' (fields (to_lower s)) refl
          (fields_func-IsWord is_space (to_lower s))

  -- Two texts have the same loose text exactly if they have the same lower-case words.
  pub normalize_loose_text-eq_iff :
      (s t : Text)
      → (normalize_loose_text s ≡ normalize_loose_text t)
        ↔ (fields (to_lower s) ≡ fields (to_lower t))
  normalize_loose_text-eq_iff s t = (
    λ h. sym (fields-normalize_loose_text s) ∙ ap fields h ∙ fields-normalize_loose_text t,
    λ h. normalize_loose_text_lem s ∙ ap (join (txt " ")) h ∙ sym (normalize_loose_text_lem t),
  )

  to_lower-normalize_loose_text :
      (s : Text) → to_lower (normalize_loose_text s) ≡ normalize_loose_text s
  unfolding fields
  to_lower-normalize_loose_text s =
      rw normalize_loose_text_lem
        (to_lower-join is_space b' ' s (table.lower_ascii b' ' (omega arith)))

  -- Normalizing loose text twice is normalizing it once.
  pub normalize_loose_text_idem :
      (s : Text) → normalize_loose_text (normalize_loose_text s) ≡ normalize_loose_text s
  normalize_loose_text_idem s =
      (normalize_loose_text-eq_iff (normalize_loose_text s) s).1
        (ap fields (to_lower-normalize_loose_text s) ∙ fields-normalize_loose_text s)
