-- ===== src/Domain/VendorResolution/Sorting.antt =====
-- The sort of the keyword candidates in resolveSubjectKeyword.
use billingrse_backend.Prelude.{
  ℕ, ◌≡◌, ◌≤◌, true, false, List, [], ◌∷◌, Bool-cases, inl, inr, arith, All,
}
use billingrse_backend.Domain.VendorResolution.{
  Candidate, keyword_length, goes_before, insert_sorted, sort_candidates,
}

module _ {ℓ} (P : Candidate → Type ℓ) where
  insert_sorted-All :
      (c : Candidate) (cs : List Candidate) → P c → All P cs → All P (insert_sorted c cs)
  unfolding insert_sorted
  insert_sorted-All c [] p h = (p, tt)
  insert_sorted-All c (d ∷ ds) p (q, h) = elim (Bool-cases (goes_before d c)) [
    | inl e ↦ rw e (q, insert_sorted-All c ds p h)
    | inr e ↦ rw e (p, (q, h))
  ]

  insert_sorted-All_rev :
      (c : Candidate) (cs : List Candidate) → All P (insert_sorted c cs) → P c × All P cs
  unfolding insert_sorted
  insert_sorted-All_rev c [] h = h
  insert_sorted-All_rev c (d ∷ ds) h = elim (Bool-cases (goes_before d c)) [
    | inl e ↦
        let (q, rest) = rw e at h in let (p, k) = insert_sorted-All_rev c ds rest in (p, (q, k))
    | inr e ↦ rw e at h
  ]

  pub sort_candidates-All : (cs : List Candidate) → All P cs → All P (sort_candidates cs)
  unfolding sort_candidates
  sort_candidates-All [] h = tt
  sort_candidates-All (c ∷ cs) (p, h) = insert_sorted-All c _ p (sort_candidates-All cs h)

  pub sort_candidates-All_rev : (cs : List Candidate) → All P (sort_candidates cs) → All P cs
  unfolding sort_candidates
  sort_candidates-All_rev [] h = tt
  sort_candidates-All_rev (c ∷ cs) h =
      let (p, k) = insert_sorted-All_rev c _ h in (p, sort_candidates-All_rev cs k)

-- No keyword is followed by a longer one.
abbrev pub IsDescending : List Candidate → Type 0
IsDescending [] = Unit
IsDescending (c ∷ cs) = All (λ d. keyword_length d ≤ keyword_length c) cs × IsDescending cs

goes_before-le : (d c : Candidate) → goes_before d c ≡ true → keyword_length c ≤ keyword_length d
unfolding goes_before
goes_before-le d c h = ground arith

goes_before-ge : (d c : Candidate) → goes_before d c ≡ false → keyword_length d ≤ keyword_length c
unfolding goes_before
goes_before-ge d c h = ground arith

All-le_trans :
    {m n : ℕ} (cs : List Candidate)
    → m ≤ n
    → All (λ d. keyword_length d ≤ m) cs
    → All (λ d. keyword_length d ≤ n) cs
All-le_trans [] le h = tt
All-le_trans (c ∷ cs) le (p, h) = (omega arith, All-le_trans cs le h)

insert_sorted-IsDescending :
    (c : Candidate) (cs : List Candidate) → IsDescending cs → IsDescending (insert_sorted c cs)
unfolding insert_sorted
insert_sorted-IsDescending c [] h = (tt, tt)
insert_sorted-IsDescending c (d ∷ ds) (top, h) = elim (Bool-cases (goes_before d c)) [
  | inl e ↦ rw e (
    insert_sorted-All (λ x. keyword_length x ≤ keyword_length d) c ds (goes_before-le d c e) top,
    insert_sorted-IsDescending c ds h,
  )
  | inr e ↦
      let shorter = goes_before-ge d c e in rw e ((shorter, All-le_trans ds shorter top), (top, h))
]

pub sort_candidates-IsDescending : (cs : List Candidate) → IsDescending (sort_candidates cs)
unfolding sort_candidates
sort_candidates-IsDescending [] = tt
sort_candidates-IsDescending (c ∷ cs) =
    insert_sorted-IsDescending c _ (sort_candidates-IsDescending cs)
