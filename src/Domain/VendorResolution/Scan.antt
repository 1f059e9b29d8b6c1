-- ===== src/Domain/VendorResolution/Scan.antt =====
-- The loop of resolveSubjectKeyword over the sorted candidates.
use mathlib.Core.Path.{subst}
use billingrse_backend.Prelude.{
  ℕ, ◌≡◌, ◌≤◌, ◌<◌, refl, sym, ap, ◌∙◌, true, false, List, [], ◌∷◌, Bool-cases, inl, inr, arith,
  All, ◌==◌, ==_iff, if◌then◌else◌,
}
use billingrse_backend.Domain.VendorResolution.{
  Candidate, newer, keyword_length, contains, add_id, scan_longest,
}
use billingrse_backend.Domain.VendorResolution.Latest.{
  newer_irrefl, newer_trans_false, newest_of_two,
}
use billingrse_backend.Domain.VendorResolution.Sorting.{IsDescending}

-- No id stands twice.
abbrev pub IsDistinct : List ℕ → Type 0
IsDistinct [] = Unit
IsDistinct (i ∷ is) = (contains i is ≡ false) × IsDistinct is

add_id-IsDistinct : (i : ℕ) (ids : List ℕ) → IsDistinct ids → IsDistinct (add_id i ids)
add_id-IsDistinct i ids h = elim (Bool-cases (contains i ids)) [
  | inl e ↦ rw e h
  | inr e ↦ rw e (e, h)
]

contains-add_id_self : (i : ℕ) (ids : List ℕ) → contains i (add_id i ids) ≡ true
unfolding contains
contains-add_id_self i ids = elim (Bool-cases (contains i ids)) [
  | inl e ↦ rw e e
  | inr e ↦ rw e (ground arith)
]

contains-add_id_of :
    (i j : ℕ) (ids : List ℕ) → contains j ids ≡ true → contains j (add_id i ids) ≡ true
unfolding contains
contains-add_id_of i j ids h = ground arith

module _ (longest : ℕ) where
  abbrev pub Longest : Candidate → Type 0
  Longest c = keyword_length c ≡ longest

  -- The scanned vendors hold those seen before.
  scan-keeps :
      (j : ℕ) (ids : List ℕ) (s : Candidate) (cs : List Candidate)
      → contains j ids ≡ true
      → contains j (scan_longest longest ids s cs).0 ≡ true
  unfolding scan_longest
  scan-keeps j ids s [] h = h
  scan-keeps j ids s (c ∷ cs) h =
      let s' = if newer c s then c else s in
      let ids' = add_id c.vendor.id ids in
      elim (Bool-cases (keyword_length c == longest)) [
        | inr e ↦ rw e h
        | inl e ↦ rw e (scan-keeps j ids' s' cs (contains-add_id_of c.vendor.id j ids h))
      ]

  pub scan-IsDistinct :
      (ids : List ℕ) (s : Candidate) (cs : List Candidate)
      → IsDistinct ids
      → IsDistinct (scan_longest longest ids s cs).0
  unfolding scan_longest
  scan-IsDistinct ids s [] h = h
  scan-IsDistinct ids s (c ∷ cs) h =
      let s' = if newer c s then c else s in
      elim (Bool-cases (keyword_length c == longest)) [
        | inr e ↦ rw e h
        | inl e ↦
            rw e
              (scan-IsDistinct (add_id c.vendor.id ids) s' cs (add_id-IsDistinct c.vendor.id ids h))
      ]

  -- What holds of the kept ids and of the longest candidates holds of every collected id.
  pub scan-ids :
      (Q : ℕ → Type 0) (ids : List ℕ) (s : Candidate) (cs : List Candidate)
      → All Q ids
      → All (λ d. Longest d → Q d.vendor.id) cs
      → All Q (scan_longest longest ids s cs).0
  unfolding scan_longest
  scan-ids Q ids s [] h k = h
  scan-ids Q ids s (c ∷ cs) h (q, k) =
      let s' = if newer c s then c else s in
      elim (Bool-cases (keyword_length c == longest)) [
        | inr e ↦ rw e h
        | inl e ↦ rw e (scan-ids Q (add_id c.vendor.id ids) s' cs (add (q ((==_iff _ _).0 e))) k)
      ]
    where
      add : Q c.vendor.id → All Q (add_id c.vendor.id ids)
      add p = elim (Bool-cases (contains c.vendor.id ids)) [ inl e ↦ rw e h | inr e ↦ rw e (p, h) ]

  pub scan-selected :
      (P : Candidate → Type 0) (ids : List ℕ) (s : Candidate) (cs : List Candidate)
      → P s
      → All (λ d. Longest d → P d) cs
      → P (scan_longest longest ids s cs).1
  unfolding scan_longest
  scan-selected P ids s [] p k = p
  scan-selected P ids s (c ∷ cs) p (q, k) =
      let s' = if newer c s then c else s in
      elim (Bool-cases (keyword_length c == longest)) [
        | inr e ↦ rw e p
        | inl e ↦
            rw e (scan-selected P (add_id c.vendor.id ids) s' cs (pick (q ((==_iff _ _).0 e))) k)
      ]
    where
      pick : P c → P (if newer c s then c else s)
      pick r = elim (Bool-cases (newer c s)) [ inl e ↦ rw e r | inr e ↦ rw e p ]

  -- Behind a shorter keyword there is no longest one.
  none_longest :
      (R : Candidate → Type 0) (m : ℕ) (cs : List Candidate)
      → m < longest
      → All (λ d. keyword_length d ≤ m) cs
      → All (λ d. Longest d → R d) cs
  none_longest R m [] lt h = tt
  none_longest R m (c ∷ cs) lt (le, h) = (λ e. absurd (omega arith), none_longest R m cs lt h)

  module _ (R : Candidate → Type 0) where
    skip_rest :
        (c : Candidate) (cs : List Candidate)
        → (keyword_length c == longest) ≡ false
        → keyword_length c ≤ longest
        → All (λ d. keyword_length d ≤ keyword_length c) cs
        → All (λ d. Longest d → R d) (c ∷ cs)
    skip_rest c cs e le h = (
      λ same. cc (sym e, (==_iff _ _).1 same),
      none_longest R (keyword_length c) cs (ground arith) h,
    )

  abbrev pub IsBounded : List Candidate → Type 0
  IsBounded cs = All (λ d. keyword_length d ≤ longest) cs

  scan_step :
      (ids : List ℕ) (s c : Candidate) (cs : List Candidate)
      → (keyword_length c == longest) ≡ true
      → scan_longest longest ids s (c ∷ cs)
        ≡ scan_longest longest (add_id c.vendor.id ids) (if newer c s then c else s) cs
  unfolding scan_longest
  scan_step ids s c cs e = rw e refl

  pub scan_complete :
      (r : List ℕ × Candidate) (ids : List ℕ) (s : Candidate) (cs : List Candidate)
      → scan_longest longest ids s cs ≡ r
      → IsDescending cs
      → IsBounded cs
      → All (λ d. Longest d → contains d.vendor.id r.0 ≡ true) cs
  scan_complete r ids s [] run h k = tt
  scan_complete r ids s (c ∷ cs) run (top, h) (le, k) =
      let s' = if newer c s then c else s in
      let ids' = add_id c.vendor.id ids in
      elim (Bool-cases (keyword_length c == longest)) [
        | inr e ↦ skip_rest (λ d. contains d.vendor.id r.0 ≡ true) c cs e le top
        | inl e ↦
            let rest = sym (scan_step ids s c cs e) ∙ run in
            (
              λ _.
                  rw (ap (λ (x : List ℕ × Candidate). x.0) rest) at
                    (scan-keeps c.vendor.id ids' s' cs (contains-add_id_self c.vendor.id ids)),
              scan_complete r ids' s' cs rest h k,
            )
      ]

  pub scan-newest :
      (r : List ℕ × Candidate) (ids : List ℕ) (s : Candidate) (cs : List Candidate)
      → scan_longest longest ids s cs ≡ r
      → IsDescending cs
      → IsBounded cs
      → (newer s r.1 ≡ false) × All (λ d. Longest d → newer d r.1 ≡ false) cs
  unfolding scan_longest
  scan-newest r ids s [] run h k =
      (subst (λ (x : List ℕ × Candidate). newer s x.1 ≡ false) run (newer_irrefl s), tt)
  scan-newest r ids s (c ∷ cs) run (top, h) (le, k) =
      let s' = if newer c s then c else s in
      elim (Bool-cases (keyword_length c == longest)) [
        | inr e ↦
            (ground (arith, newer_irrefl s), skip_rest (λ d. newer d r.1 ≡ false) c cs e le top)
        | inl e ↦
            let (kept, rest) =
              scan-newest r (add_id c.vendor.id ids) s' cs (sym (scan_step ids s c cs e) ∙ run) h
                k in
            let (old, new) = newest_of_two s c in
            (newer_trans_false s s' r.1 old kept, (λ _. newer_trans_false c s' r.1 new kept, rest))
      ]
