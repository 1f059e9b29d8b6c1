-- ===== src/Domain/VendorResolution/Keyword.antt =====
-- The answer of resolveSubjectKeyword (internal/common/domain/vendor_resolution.go).
use mathlib.Core.List.{Memᴰ}
use mathlib.Core.Path.{subst}
use billingrse_backend.Prelude.{
  ℕ, ◌≡◌, ◌≢◌, ◌≤◌, ◌⊎◌, ◌↔◌, Option-cases, refl, sym, ◌∙◌, true, false, none, some, List, [], ◌∷◌,
  Bool-cases, inl, inr, arith, All, length, ltb,
}
use billingrse_backend.Domain.Vendor.{Vendor}
use billingrse_backend.Domain.VendorResolution.{
  Candidate, newer, keyword_length, contains, scan_longest, sort_candidates, resolve_sorted,
  resolve_subject_keyword,
}
use billingrse_backend.Domain.VendorResolution.Sorting.{
  IsDescending, sort_candidates-All, sort_candidates-All_rev, sort_candidates-IsDescending,
}
use billingrse_backend.Domain.VendorResolution.Scan.{
  Longest, IsDistinct, IsBounded, scan-IsDistinct, scan-ids, scan-selected, scan_complete,
  scan-newest,
}

-- A candidate with a keyword of the greatest length, whose rivals of that length are of the same
-- vendor and not newer.
pub record IsWinner (cs : List Candidate) (w : Candidate) : Type 0 where
  pub listed : Memᴰ w cs
  pub longest : All (λ d. keyword_length d ≤ keyword_length w) cs
  pub rivals :
      All
        (λ d.
          keyword_length d ≡ keyword_length w → (d.vendor.id ≡ w.vendor.id) × (newer d w ≡ false))
        cs

module _ (P : Candidate → Type 0) where
  All-at : (cs : List Candidate) (c : Candidate) → All P cs → Memᴰ c cs → P c
  All-at [] c h m = elim m [ ]
  All-at (d ∷ ds) c (p, h) (Memᴰ.head e) = subst P (sym e) p
  All-at (d ∷ ds) c (p, h) (Memᴰ.tail m) = All-at ds c h m

  All-of : (cs : List Candidate) → ((c : Candidate) → Memᴰ c cs → P c) → All P cs
  All-of [] f = tt
  All-of (c ∷ cs) f = (f c (Memᴰ.head refl), All-of cs (λ d m. f d (Memᴰ.tail m)))

contains_unique :
    (ids : List ℕ) (i j : ℕ)
    → ltb 1 (length ids) ≡ false
    → contains i ids ≡ true
    → contains j ids ≡ true
    → i ≡ j
unfolding contains
contains_unique [] i j h p q = cc
contains_unique (k ∷ []) i j h p q = ground arith
contains_unique (k ∷ l ∷ ids) i j h p q = ground arith

module _ (c : Candidate) (cs : List Candidate) (sorted : IsDescending (c ∷ cs)) where
  abbrev top : ℕ
  top = keyword_length c

  abbrev scanned : List ℕ × Candidate
  scanned = scan_longest top [] c (c ∷ cs)

  bounded : IsBounded top (c ∷ cs)
  bounded = (omega arith, sorted.0)

  -- The selected candidate is listed and has a longest keyword.
  selected_facts : Memᴰ scanned.1 (c ∷ cs) × (keyword_length scanned.1 ≡ top)
  selected_facts =
      scan-selected top (λ d. Memᴰ d (c ∷ cs) × (keyword_length d ≡ top)) [] c (c ∷ cs)
        (Memᴰ.head refl, refl)
        (All-of (λ d. Longest top d → Memᴰ d (c ∷ cs) × (keyword_length d ≡ top)) (c ∷ cs)
          (λ d m e. (m, e)))

  scanned-IsWinner : ltb 1 (length scanned.0) ≡ false → IsWinner (c ∷ cs) scanned.1
  scanned-IsWinner one =
      let (listed, long) = selected_facts in
      let complete = scan_complete top scanned [] c (c ∷ cs) refl sorted bounded in
      let newest = (scan-newest top scanned [] c (c ∷ cs) refl sorted bounded).1 in
      let known = λ (d : Candidate) (m : Memᴰ d (c ∷ cs)).
        All-at (λ d. Longest top d → contains d.vendor.id scanned.0 ≡ true) (c ∷ cs) d complete m in
      record {
        listed = listed;
        longest = subst (λ n. All (λ d. keyword_length d ≤ n) (c ∷ cs)) (sym long) bounded;
        rivals = All-of _ (c ∷ cs) (λ d m e. (
          contains_unique scanned.0 d.vendor.id scanned.1.vendor.id one (known d m (e ∙ long))
              (known scanned.1 listed long),
          All-at (λ x. Longest top x → newer x scanned.1 ≡ false) (c ∷ cs) d newest m (e ∙ long),
        ));
      }

  -- Two listed candidates with longest keywords and different vendors.
  abbrev Rivals : Type 0
  Rivals =
      (d : Candidate) × (e : Candidate) × Memᴰ d (c ∷ cs)
      × Memᴰ e (c ∷ cs)
      × (keyword_length d ≡ top)
      × (keyword_length e ≡ top)
      × (d.vendor.id ≢ e.vendor.id)

  -- An id that some listed candidate with a longest keyword has.
  abbrev IsSource : ℕ → Type 0
  IsSource i = (d : Candidate) × Memᴰ d (c ∷ cs) × (keyword_length d ≡ top) × (d.vendor.id ≡ i)

  two_sources :
      (ids : List ℕ) → ltb 1 (length ids) ≡ true → IsDistinct ids → All IsSource ids → Rivals
  unfolding contains
  two_sources [] h k s = cc
  two_sources (i ∷ []) h k s = absurd (ground arith)
  two_sources (i ∷ j ∷ ids) h k ((d, md, ld, ed), ((e, me, le, ee), s)) =
      (d, e, md, me, ld, le, λ same. ground arith)

  scanned-Rivals : ltb 1 (length scanned.0) ≡ true → Rivals
  scanned-Rivals many = two_sources scanned.0 many (scan-IsDistinct top [] c (c ∷ cs) tt) (
      scan-ids top IsSource [] c (c ∷ cs) tt
        (All-of (λ d. Longest top d → IsSource d.vendor.id) (c ∷ cs) (λ d m e. (d, m, e, refl))))

-- Two listed candidates with keywords of the greatest length and different vendors.
pub record IsAmbiguous (cs : List Candidate) : Type 0 where
  pub one : Candidate
  pub other : Candidate
  pub one_listed : Memᴰ one cs
  pub other_listed : Memᴰ other cs
  pub longest : All (λ d. keyword_length d ≤ keyword_length one) cs
  pub same_length : keyword_length other ≡ keyword_length one
  pub vendors_differ : one.vendor.id ≢ other.vendor.id

sorted-IsWinner :
    (cs : List Candidate) (v : Vendor)
    → IsDescending cs
    → resolve_sorted cs ≡ some v
    → (w : Candidate) × IsWinner cs w × (w.vendor ≡ v)
sorted-IsWinner [] v d h = cc
sorted-IsWinner (c ∷ cs) v d h = elim (Bool-cases (ltb 1 (length (scanned c cs d).0))) [
  | inl many ↦ cc (rw many at h)
  | inr one ↦ ((scanned c cs d).1, scanned-IsWinner c cs d one, ground arith)
]

sorted-IsAmbiguous :
    (cs : List Candidate) → IsDescending cs → resolve_sorted cs ≡ none → (cs ≡ []) ⊎ IsAmbiguous cs
sorted-IsAmbiguous [] d h = inl refl
sorted-IsAmbiguous (c ∷ cs) d h = elim (Bool-cases (ltb 1 (length (scanned c cs d).0))) [
  | inr one ↦ cc (rw one at h)
  | inl many ↦
      let (x, y, mx, my, lx, ly, differ) = scanned-Rivals c cs d many in
      inr (record {
        one = x;
        other = y;
        one_listed = mx;
        other_listed = my;
        longest = subst (λ n. All (λ e. keyword_length e ≤ n) (c ∷ cs)) (sym lx) (bounded c cs d);
        same_length = ly ∙ sym lx;
        vendors_differ = differ;
      })
]

-- The sort keeps the members.
mem-sort_candidates :
    (cs : List Candidate) (c : Candidate) → Memᴰ c (sort_candidates cs) → Memᴰ c cs
mem-sort_candidates cs c m =
    All-at (λ d. Memᴰ d cs) (sort_candidates cs) c
      (sort_candidates-All (λ d. Memᴰ d cs) cs (All-of (λ d. Memᴰ d cs) cs (λ d n. n))) m

sort_candidates-nil : (cs : List Candidate) → sort_candidates cs ≡ [] → cs ≡ []
sort_candidates-nil [] h = refl
sort_candidates-nil (c ∷ cs) h =
    let none_listed = subst (All (λ d. ⊥)) (sym h) tt in
    absurd (sort_candidates-All_rev (λ d. ⊥) (c ∷ cs) none_listed).0

-- The vendor that the keywords resolve to belongs to a winner: a listed candidate with a keyword
-- of the greatest length, none of whose rivals of that length is of another vendor or newer.
pub resolve_subject_keyword-IsWinner :
    (cs : List Candidate) (v : Vendor)
    → resolve_subject_keyword cs ≡ some v
    → (w : Candidate) × IsWinner cs w × (w.vendor ≡ v)
unfolding resolve_subject_keyword
resolve_subject_keyword-IsWinner cs v h =
    let (w, winner, same) =
      sorted-IsWinner (sort_candidates cs) v (sort_candidates-IsDescending cs) h in
    let kept : IsWinner cs w = record {
      listed = mem-sort_candidates cs w winner.listed;
      longest =
          sort_candidates-All_rev (λ d. keyword_length d ≤ keyword_length w) cs winner.longest;
      rivals = sort_candidates-All_rev _ cs winner.rivals;
    } in
    (w, kept, same)

IsAmbiguous-none : (cs : List Candidate) → IsAmbiguous cs → resolve_subject_keyword cs ≡ none
IsAmbiguous-none cs a = elim (Option-cases (resolve_subject_keyword cs)) [
  | inl none_found ↦ none_found
  | inr (v, found) ↦
      let (w, winner, _) = resolve_subject_keyword-IsWinner cs v found in
      let longer =
        All-at (λ d. keyword_length d ≤ keyword_length w) cs a.one winner.longest a.one_listed in
      let shorter =
        All-at (λ d. keyword_length d ≤ keyword_length a.one) cs w a.longest winner.listed in
      let rival = λ (d : Candidate) (m : Memᴰ d cs).
        All-at
          (λ x.
            keyword_length x ≡ keyword_length w → (x.vendor.id ≡ w.vendor.id) × (newer x w ≡ false))
          cs d winner.rivals m in
      let same_length : keyword_length a.one ≡ keyword_length w = omega arith in
      let one = (rival a.one a.one_listed same_length).0 in
      let other = (rival a.other a.other_listed (a.same_length ∙ same_length)).0 in
      absurd (a.vendors_differ (one ∙ sym other))
]

-- The keywords resolve to no vendor exactly if there is no candidate, or if the keywords of the
-- greatest length name different vendors.
pub resolve_subject_keyword-none_iff :
    (cs : List Candidate) → (resolve_subject_keyword cs ≡ none) ↔ ((cs ≡ []) ⊎ IsAmbiguous cs)
unfolding resolve_subject_keyword
resolve_subject_keyword-none_iff cs = (
  λ h. elim (sorted-IsAmbiguous (sort_candidates cs) (sort_candidates-IsDescending cs) h) [
    | inl empty ↦ inl (sort_candidates-nil cs empty)
    | inr a ↦ inr (record {
      one = a.one;
      other = a.other;
      one_listed = mem-sort_candidates cs a.one a.one_listed;
      other_listed = mem-sort_candidates cs a.other a.other_listed;
      longest = sort_candidates-All_rev (λ d. keyword_length d ≤ keyword_length a.one) cs a.longest;
      same_length = a.same_length;
      vendors_differ = a.vendors_differ;
    })
  ],
  elim [ inl empty ↦ rw empty (unfold sort_candidates in refl) | inr a ↦ IsAmbiguous-none cs a ],
)
