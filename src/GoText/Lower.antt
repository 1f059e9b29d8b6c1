-- ===== src/GoText/Lower.antt =====
-- Lower-case texts and words.
use billingrse_backend.Prelude.{ℕ, ◌≡◌, refl, Bool, [], ◌∷◌, All}
use billingrse_backend.GoText.{Text, to_lower, fields_func, join, CaseTable}
use billingrse_backend.GoText.Words.{fields_func-All, join-All}

module _ ⦃table : CaseTable⦄ where
  abbrev IsLower : ℕ → Type 0
  IsLower c = table.lower c ≡ c

  to_lower-IsLower : (s : Text) → All IsLower (to_lower s)
  unfolding to_lower
  to_lower-IsLower [] = tt
  to_lower-IsLower (c ∷ s) = (table.lower_idem c, to_lower-IsLower s)

  to_lower_id : (s : Text) → All IsLower s → to_lower s ≡ s
  unfolding to_lower
  to_lower_id [] h = refl
  to_lower_id (c ∷ s) (e, h) = cc (e, to_lower_id s h)

  -- The words of a lower-case text, joined, are lower-case.
  pub to_lower-join :
      (p : ℕ → Bool) (sep : ℕ) (s : Text)
      → table.lower sep ≡ sep
      → to_lower (join (sep ∷ []) (fields_func p (to_lower s)))
        ≡ join (sep ∷ []) (fields_func p (to_lower s))
  to_lower-join p sep s h = to_lower_id _ (
      join-All IsLower (sep ∷ []) (fields_func p (to_lower s)) (h, tt)
        (fields_func-All p IsLower (to_lower s) (to_lower-IsLower s)))
