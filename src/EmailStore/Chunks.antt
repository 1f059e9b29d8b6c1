-- ===== src/EmailStore/Chunks.antt =====
-- The slices of the loop `for start := 0; start < len(prepared); start += saveBatchSize` in
-- internal/mailfetch/infrastructure/email_repository.go. The loop is recursion on fuel; the number
-- of elements is enough.
use billingrse_backend.Prelude.{
  ℕ, zero, suc, ◌≤◌, ◌≡◌, refl, ap, ◌∙◌, List, [], ◌∷◌, ◌++◌, All, length, arith,
}

abbrev pub save_batch_size : ℕ
save_batch_size = 20

module _ {A : Type 0} where
  unfoldable pub take : ℕ → List A → List A
  take zero xs = []
  take (suc n) [] = []
  take (suc n) (x ∷ xs) = x ∷ take n xs

  unfoldable pub drop : ℕ → List A → List A
  drop zero xs = xs
  drop (suc n) [] = []
  drop (suc n) (x ∷ xs) = drop n xs

  -- The slices that the loop takes, on fuel.
  unfoldable pub chunks_within : ℕ → List A → List (List A)
  chunks_within zero xs = []
  chunks_within (suc fuel) [] = []
  chunks_within (suc fuel) (x ∷ xs) =
      take save_batch_size (x ∷ xs) ∷ chunks_within fuel (drop save_batch_size (x ∷ xs))

  unfoldable pub chunks : List A → List (List A)
  chunks xs = chunks_within (length xs) xs

  unfoldable pub concat : List (List A) → List A
  concat [] = []
  concat (xs ∷ xss) = xs ++ concat xss

  take-drop : (n : ℕ) (xs : List A) → take n xs ++ drop n xs ≡ xs
  unfolding take drop
  take-drop zero xs = refl
  take-drop (suc n) [] = refl
  take-drop (suc n) (x ∷ xs) = ap (λ rest. x ∷ rest) (take-drop n xs)

  length-drop : (n : ℕ) (xs : List A) → length (drop n xs) ≤ length xs
  unfolding drop
  length-drop zero xs = omega arith
  length-drop (suc n) [] = omega arith
  length-drop (suc n) (x ∷ xs) = omega (arith, length-drop n xs)

  length-take : (n : ℕ) (xs : List A) → length (take n xs) ≤ n
  unfolding take
  length-take zero xs = omega arith
  length-take (suc n) [] = omega arith
  length-take (suc n) (x ∷ xs) = omega (arith, length-take n xs)

  concat-chunks_within :
      (fuel : ℕ) (xs : List A) → length xs ≤ fuel → concat (chunks_within fuel xs) ≡ xs
  unfolding chunks_within concat
  concat-chunks_within zero [] h = refl
  concat-chunks_within zero (x ∷ xs) h = absurd (omega (arith, h))
  concat-chunks_within (suc fuel) [] h = refl
  concat-chunks_within (suc fuel) (x ∷ xs) h =
      ap (λ rest. take save_batch_size (x ∷ xs) ++ rest)
        (concat-chunks_within fuel (drop save_batch_size (x ∷ xs))
          (unfold drop in omega (arith, h, length-drop 19 xs)))
      ∙ take-drop save_batch_size (x ∷ xs)

  -- A slice holds at least one element and at most twenty.
  abbrev pub IsBatch : List A → Type 0
  IsBatch xs = (1 ≤ length xs) × (length xs ≤ 20)

  chunks_within-IsBatch : (fuel : ℕ) (xs : List A) → All IsBatch (chunks_within fuel xs)
  unfolding chunks_within
  chunks_within-IsBatch zero xs = tt
  chunks_within-IsBatch (suc fuel) [] = tt
  chunks_within-IsBatch (suc fuel) (x ∷ xs) = (
    (unfold take in omega arith, length-take save_batch_size (x ∷ xs)),
    chunks_within-IsBatch fuel (drop save_batch_size (x ∷ xs)),
  )

  -- The loop ends having taken every element once, in order, in slices of one to twenty elements.
  pub concat-chunks : (xs : List A) → (concat (chunks xs) ≡ xs) × All IsBatch (chunks xs)
  unfolding chunks
  concat-chunks xs =
      (concat-chunks_within (length xs) xs (omega arith), chunks_within-IsBatch (length xs) xs)
