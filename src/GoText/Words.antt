-- ===== src/GoText/Words.antt =====
-- Laws of splitting into words and of joining them.
use mathlib.Core.List.{append-nil}
use billingrse_backend.Prelude.{
  ℕ, ◌≡◌, refl, ap, sym, ◌∙◌, Bool, true, false, List, [], ◌∷◌, ◌++◌, is_empty, eq-nil_of_is_empty,
  Bool-cases, inl, inr, arith, All, All-append,
}
use billingrse_backend.GoText.{
  Text, is_space, trim_left, trim_right, trim_space, grow, starts_word, fields_func, fields, join,
}

module _ (p : ℕ → Bool) where
  -- A word is not empty and holds no separator.
  abbrev pub IsWord : Text → Type 0
  IsWord w = (is_empty w ≡ false) × All (λ c. p c ≡ false) w

  grow-IsWord :
      (c : ℕ) (b : Bool) (ws : List Text) → p c ≡ false → All IsWord ws → All IsWord (grow c b ws)
  grow-IsWord c true [] h k = ((refl, (h, tt)), tt)
  grow-IsWord c true (w ∷ ws) h ((full, q), k) = ((refl, (h, q)), k)
  grow-IsWord c false ws h k = ((refl, (h, tt)), k)

  pub fields_func-IsWord : (s : Text) → All IsWord (fields_func p s)
  unfolding fields_func
  fields_func-IsWord [] = tt
  fields_func-IsWord (c ∷ s) = elim (Bool-cases (p c)) [
    | inl e ↦ rw e (fields_func-IsWord s)
    | inr e ↦ rw e (grow-IsWord c (starts_word p s) (fields_func p s) e (fields_func-IsWord s))
  ]

  -- A word in front of a separator, or of the end, is the first field.
  fields_func-append :
      (w rest : Text)
      → IsWord w
      → starts_word p rest ≡ false
      → fields_func p (w ++ rest) ≡ w ∷ fields_func p rest
  unfolding fields_func
  fields_func-append [] rest (full, q) h = cc
  fields_func-append (c ∷ []) rest (full, (q, _)) h = rw (q, h) refl
  fields_func-append (c ∷ d ∷ w) rest (full, (q, (r, k))) h =
      rw (q, fields_func-append (d ∷ w) rest (refl, (r, k)) h, r) refl

  fields_func-separator : (c : ℕ) (s : Text) → p c ≡ true → fields_func p (c ∷ s) ≡ fields_func p s
  unfolding fields_func
  fields_func-separator c s h = rw h refl

  -- Splitting a joined list of words returns the words.
  pub fields_func-join :
      (sep : ℕ) (ws : List Text)
      → p sep ≡ true
      → All IsWord ws
      → fields_func p (join (sep ∷ []) ws) ≡ ws
  unfolding join
  fields_func-join sep [] h k = unfold fields_func in refl
  fields_func-join sep (w ∷ []) h (q, k) =
      ap (fields_func p) (sym (append-nil w))
      ∙ fields_func-append w [] q refl
      ∙ unfold fields_func in refl
  fields_func-join sep (w ∷ v ∷ ws) h (q, k) =
      fields_func-append w (sep ∷ join (sep ∷ []) (v ∷ ws)) q (rw h refl)
      ∙ ap (λ t. w ∷ t) (fields_func-separator sep _ h ∙ fields_func-join sep (v ∷ ws) h k)

  module _ (Q : ℕ → Type 0) where
    grow-All :
        (c : ℕ) (b : Bool) (ws : List Text) → Q c → All (All Q) ws → All (All Q) (grow c b ws)
    grow-All c true [] h k = ((h, tt), tt)
    grow-All c true (w ∷ ws) h (q, k) = ((h, q), k)
    grow-All c false ws h k = ((h, tt), k)

    pub fields_func-All : (s : Text) → All Q s → All (All Q) (fields_func p s)
    unfolding fields_func
    fields_func-All [] h = tt
    fields_func-All (c ∷ s) (q, h) = elim (Bool-cases (p c)) [
      | inl e ↦ rw e (fields_func-All s h)
      | inr e ↦ rw e (grow-All c (starts_word p s) (fields_func p s) q (fields_func-All s h))
    ]

pub join-All :
    (Q : ℕ → Type 0) (sep : Text) (ws : List Text)
    → All Q sep
    → All (All Q) ws
    → All Q (join sep ws)
unfolding join
join-All Q sep [] h k = tt
join-All Q sep (w ∷ []) h (q, k) = q
join-All Q sep (w ∷ v ∷ ws) h (q, k) =
    All-append Q w _ q (All-append Q sep _ h (join-All Q sep (v ∷ ws) h k))

-- Trimming leaves the words alone, when white space separates them.
module _ (p : ℕ → Bool) (separates : (c : ℕ) → is_space c ≡ true → p c ≡ true) where
  starts_word-trim_right : (s : Text) → starts_word p (trim_right s) ≡ starts_word p s
  unfolding trim_right
  starts_word-trim_right [] = refl
  starts_word-trim_right (c ∷ s) = ground (arith, separates c)

  fields_func-trim_left : (s : Text) → fields_func p (trim_left s) ≡ fields_func p s
  unfolding fields_func trim_left
  fields_func-trim_left [] = refl
  fields_func-trim_left (c ∷ s) = elim (Bool-cases (is_space c)) [
    | inl e ↦ rw (e, separates c e) (fields_func-trim_left s)
    | inr e ↦ rw e (unfold fields_func in refl)
  ]

  fields_func-trim_right : (s : Text) → fields_func p (trim_right s) ≡ fields_func p s
  unfolding fields_func trim_right
  fields_func-trim_right [] = refl
  fields_func-trim_right (c ∷ s) =
      let ih = fields_func-trim_right s in
      elim (Bool-cases (is_space c)) [
        | inr e ↦ rw e (rw (starts_word-trim_right, ih) refl)
        | inl e ↦ elim (Bool-cases (is_empty (trim_right s))) [
          | inl z ↦
              rw (e, z, separates c e)
                (ap (fields_func p) (sym (eq-nil_of_is_empty (trim_right s) z)) ∙ ih)
          | inr z ↦ rw (e, z, separates c e) ih
        ]
      ]

  pub fields_func-trim_space : (s : Text) → fields_func p (trim_space s) ≡ fields_func p s
  unfolding trim_space
  fields_func-trim_space s = fields_func-trim_right (trim_left s) ∙ fields_func-trim_left s

pub fields-trim_space : (s : Text) → fields (trim_space s) ≡ fields s
unfolding fields
fields-trim_space s = fields_func-trim_space is_space (λ c h. h) s
