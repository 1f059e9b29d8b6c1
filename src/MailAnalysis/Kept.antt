-- ===== src/MailAnalysis/Kept.antt =====
-- The drafts that the stage hands to the repository (internal/mailanalysis/application/usecase.go).
use billingrse_backend.Prelude.{
  ◌≡◌, refl, ap, ◌∙◌, true, false, ◌||◌, some, List, [], ◌∷◌, ◌++◌, map, All, Bool-cases, inl, inr,
  is_empty, arith,
}
use billingrse_backend.GoText.{Text, trim_space, trim_left, trim_right, is_space, CaseTable}
use billingrse_backend.Domain.Optional.{normalize_optional_string}
use billingrse_backend.Domain.ParsedEmail.{ParsedEmail, is_empty_email}
use billingrse_backend.Domain.ParsedEmail
use billingrse_backend.Domain.ParsedEmail.Idempotence.{normalize-ParsedEmail_idem}
use billingrse_backend.MailAnalysis.Drafts.{normalize_drafts}
use billingrse_backend.MailAnalysis.{
  fallback_billing_number_prefix, has_number, fill_numbers, apply_fallback_billing_numbers,
}

-- A text with the prefix `digest_` is not blank.
prefix-filled : (s : Text) → is_empty (trim_space (fallback_billing_number_prefix ++ s)) ≡ false
unfolding trim_space trim_left trim_right is_space
prefix-filled s = refl

module _ {F : Type 0} ⦃table : CaseTable⦄ where
  -- A draft that is not empty once it is normalized: the repository keeps it.
  abbrev pub IsKept : ParsedEmail F → Type 0
  IsKept p = is_empty_email (ParsedEmail.normalize p) ≡ false

  pub normalize_drafts-IsKept : (ps : List (ParsedEmail F)) → All IsKept (normalize_drafts ps)
  unfolding normalize_drafts
  normalize_drafts-IsKept [] = tt
  normalize_drafts-IsKept (p ∷ ps) = elim (Bool-cases (is_empty_email (ParsedEmail.normalize p))) [
    | inl e ↦ rw e (normalize_drafts-IsKept ps)
    | inr e ↦
        rw e (ap is_empty_email (normalize-ParsedEmail_idem p) ∙ e, normalize_drafts-IsKept ps)
  ]

  pub normalize_drafts_id :
      (ps : List (ParsedEmail F))
      → All IsKept ps
      → normalize_drafts ps ≡ map ParsedEmail.normalize ps
  unfolding normalize_drafts
  normalize_drafts_id [] h = refl
  normalize_drafts_id (p ∷ ps) (e, h) =
      rw e (ap (λ rest. ParsedEmail.normalize p ∷ rest) (normalize_drafts_id ps h))

  numbered-IsKept :
      (p : ParsedEmail F) (number : Text)
      → is_empty (trim_space number) ≡ false
      → IsKept (record p { billing_number = some number })
  unfolding ParsedEmail.normalize is_empty_email normalize_optional_string
  numbered-IsKept p number h = ground arith

  fill_numbers-IsKept :
      (s : Text) (ps : List (ParsedEmail F))
      → All IsKept ps
      → All IsKept (fill_numbers (fallback_billing_number_prefix ++ s) ps)
  unfolding fill_numbers
  fill_numbers-IsKept s [] h = tt
  fill_numbers-IsKept s (p ∷ ps) (k, h) = elim (Bool-cases (has_number p.billing_number)) [
    | inl e ↦ rw e (k, fill_numbers-IsKept s ps h)
    | inr e ↦ rw e (
      numbered-IsKept p (fallback_billing_number_prefix ++ s) (prefix-filled s),
      fill_numbers-IsKept s ps h,
    )
  ]

  pub apply_fallback_billing_numbers-IsKept :
      (ps : List (ParsedEmail F)) (digest : Text)
      → All IsKept ps
      → All IsKept (apply_fallback_billing_numbers ps digest)
  unfolding apply_fallback_billing_numbers
  apply_fallback_billing_numbers-IsKept ps digest h =
      elim (Bool-cases (is_empty (trim_space digest))) [
        | inl e ↦ rw e h
        | inr e ↦ rw e (fill_numbers-IsKept (trim_space digest) ps h)
      ]

module _ {F : Type 0} where
  -- The draft has a billing number, or the e-mail's body has no digest.
  abbrev pub IsNumbered : Text → ParsedEmail F → Type 0
  IsNumbered digest p = (is_empty (trim_space digest) || has_number p.billing_number) ≡ true

  fill_numbers-IsNumbered :
      (s digest : Text) (ps : List (ParsedEmail F))
      → All (IsNumbered digest) (fill_numbers (fallback_billing_number_prefix ++ s) ps)
  unfolding fill_numbers
  fill_numbers-IsNumbered s digest [] = tt
  fill_numbers-IsNumbered s digest (p ∷ ps) = elim (Bool-cases (has_number p.billing_number)) [
    | inl e ↦ rw e (ground arith, fill_numbers-IsNumbered s digest ps)
    | inr e ↦ rw e (rw (prefix-filled s) (ground arith), fill_numbers-IsNumbered s digest ps)
  ]

  pub apply_fallback_billing_numbers-IsNumbered :
      (ps : List (ParsedEmail F)) (digest : Text)
      → All (IsNumbered digest) (apply_fallback_billing_numbers ps digest)
  unfolding apply_fallback_billing_numbers
  apply_fallback_billing_numbers-IsNumbered ps digest =
      elim (Bool-cases (is_empty (trim_space digest))) [
        | inl e ↦ rw e (blank ps e)
        | inr e ↦ rw e (fill_numbers-IsNumbered (trim_space digest) digest ps)
      ]
    where
      blank :
          (qs : List (ParsedEmail F))
          → is_empty (trim_space digest) ≡ true
          → All (IsNumbered digest) qs
      blank [] e = tt
      blank (q ∷ qs) e = (rw e refl, blank qs e)
