-- ===== src/GoText/Trim.antt =====
-- Laws of text equality and of trimming.
use billingrse_backend.Prelude.{
  ℕ, ◌≡◌, ◌↔◌, inl, inr, refl, Bool, true, false, ◌&&◌, [], ◌∷◌, map, if◌then◌else◌, is_empty,
  Bool-cases, arith,
}
use billingrse_backend.GoText.{
  Text, eq_text, is_space, trim_left, trim_right, trim_space, CaseTable, to_upper, to_lower,
}

pub eq_text_sound : (s t : Text) → eq_text s t ≡ true → s ≡ t
unfolding eq_text
eq_text_sound [] [] h = refl
eq_text_sound (c ∷ s) (d ∷ t) h = ground (arith, eq_text_sound s t)
eq_text_sound _ _ h = cc

pub eq_text_refl : (s : Text) → eq_text s s ≡ true
unfolding eq_text
eq_text_refl [] = refl
eq_text_refl (c ∷ s) = ground (arith, eq_text_refl s)

pub eq_text_iff : (s t : Text) → (eq_text s t ≡ true) ↔ (s ≡ t)
eq_text_iff s t = (eq_text_sound s t, λ e. rw e (eq_text_refl t))

-- No white space at either end.
abbrev pub no_head_space : Text → Bool
no_head_space [] = true
no_head_space (c ∷ s) = if is_space c then false else true

pub trim_left-no_head_space : (s : Text) → no_head_space (trim_left s) ≡ true
unfolding trim_left
trim_left-no_head_space [] = refl
trim_left-no_head_space (c ∷ s) = ground (arith, trim_left-no_head_space s)

pub trim_left_id : (s : Text) → no_head_space s ≡ true → trim_left s ≡ s
unfolding trim_left
trim_left_id [] h = refl
trim_left_id (c ∷ s) h = ground arith

pub trim_right_idem : (s : Text) → trim_right (trim_right s) ≡ trim_right s
unfolding trim_right
trim_right_idem [] = refl
trim_right_idem (c ∷ s) = elim (Bool-cases (is_space c && is_empty (trim_right s))) [
  | inl e ↦ rw e refl
  | inr e ↦ rw e (rw (trim_right_idem s, e) refl)
]

trim_right-no_head_space : (s : Text) → no_head_space s ≡ true → no_head_space (trim_right s) ≡ true
unfolding trim_right
trim_right-no_head_space [] h = refl
trim_right-no_head_space (c ∷ s) h = ground arith

-- Trimming twice is trimming once.
pub trim_space_idem : (s : Text) → trim_space (trim_space s) ≡ trim_space s
unfolding trim_space
trim_space_idem s =
    let trimmed : trim_left (trim_right (trim_left s)) ≡ trim_right (trim_left s) =
      trim_left_id (trim_right (trim_left s))
        (trim_right-no_head_space (trim_left s) (trim_left-no_head_space s)) in
    rw trimmed (trim_right_idem (trim_left s))

module _ ⦃table : CaseTable⦄ where
  is_empty-map : (f : ℕ → ℕ) (s : Text) → is_empty (map f s) ≡ is_empty s
  is_empty-map f [] = refl
  is_empty-map f (c ∷ s) = refl

  module _ (f : ℕ → ℕ) (keep : (c : ℕ) → is_space (f c) ≡ is_space c) where
    trim_left-map : (s : Text) → trim_left (map f s) ≡ map f (trim_left s)
    unfolding trim_left
    trim_left-map [] = refl
    trim_left-map (c ∷ s) = ground (arith, keep c, trim_left-map s)

    trim_right-map : (s : Text) → trim_right (map f s) ≡ map f (trim_right s)
    unfolding trim_right
    trim_right-map [] = refl
    trim_right-map (c ∷ s) = ground (arith, keep c, trim_right-map s, is_empty-map f (trim_right s))

    trim_space-map : (s : Text) → trim_space (map f s) ≡ map f (trim_space s)
    unfolding trim_space
    trim_space-map s = rw trim_left-map (trim_right-map (trim_left s))

  pub trim_space-to_upper : (s : Text) → trim_space (to_upper s) ≡ to_upper (trim_space s)
  unfolding to_upper
  trim_space-to_upper s = trim_space-map table.upper table.is_space-upper s

  pub trim_space-to_lower : (s : Text) → trim_space (to_lower s) ≡ to_lower (trim_space s)
  unfolding to_lower
  trim_space-to_lower s = trim_space-map table.lower table.is_space-lower s

  pub to_upper_idem : (s : Text) → to_upper (to_upper s) ≡ to_upper s
  unfolding to_upper
  to_upper_idem [] = refl
  to_upper_idem (c ∷ s) = cc (table.upper_idem c, to_upper_idem s)

  pub to_lower_idem : (s : Text) → to_lower (to_lower s) ≡ to_lower s
  unfolding to_lower
  to_lower_idem [] = refl
  to_lower_idem (c ∷ s) = cc (table.lower_idem c, to_lower_idem s)
