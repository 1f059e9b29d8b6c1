-- ===== src/Domain/VendorResolution/Latest.antt =====
-- selectLatestAliasCandidate and newerAliasCandidate.
use mathlib.Core.List.{Memᴰ}
use mathlib.Core.Path.{subst}
use billingrse_backend.Prelude.{
  ◌≤◌, ◌≡◌, refl, true, false, some, List, [], ◌∷◌, Bool-cases, inl, inr, arith, All, if◌then◌else◌,
}
use billingrse_backend.Domain.VendorResolution.{Candidate, newer, latest_from, select_latest}

-- `newer` is a strict weak order.
pub newer_irrefl : (c : Candidate) → newer c c ≡ false
unfolding newer
newer_irrefl c = ground arith

pub newer_step : (d b c : Candidate) → newer d b ≡ false → newer c b ≡ true → newer d c ≡ false
unfolding newer
newer_step d b c h k = ground arith

pub newer_trans_false :
    (d b c : Candidate) → newer d b ≡ false → newer b c ≡ false → newer d c ≡ false
unfolding newer
newer_trans_false d b c h k = ground arith

-- The newer of two candidates, as the loops keep it.
pub newest_of_two :
    (b c : Candidate)
    → (newer b (if newer c b then c else b) ≡ false)
      × (newer c (if newer c b then c else b) ≡ false)
newest_of_two b c = elim (Bool-cases (newer c b)) [
  | inl e ↦ rw e (newer_step b b c (newer_irrefl b) e, newer_irrefl c)
  | inr e ↦ rw e (newer_irrefl b, e)
]

abbrev HasNoNewer : Candidate → List Candidate → Type 0
HasNoNewer c cs = All (λ d. newer d c ≡ false) cs

latest_from-HasNoNewer :
    (b : Candidate) (cs : List Candidate)
    → (newer b (latest_from b cs) ≡ false) × HasNoNewer (latest_from b cs) cs
unfolding latest_from
latest_from-HasNoNewer b [] = (newer_irrefl b, tt)
latest_from-HasNoNewer b (c ∷ cs) =
    let best = if newer c b then c else b in
    let (kept, rest) = latest_from-HasNoNewer best cs in
    let (old, new) = newest_of_two b c in
    (newer_trans_false b best _ old kept, (newer_trans_false c best _ new kept, rest))

latest_from-mem : (b : Candidate) (cs : List Candidate) → Memᴰ (latest_from b cs) (b ∷ cs)
unfolding latest_from
latest_from-mem b [] = Memᴰ.head refl
latest_from-mem b (c ∷ cs) = elim (Bool-cases (newer c b)) [
  | inl e ↦ rw e (Memᴰ.tail (latest_from-mem c cs))
  | inr e ↦ rw e (skip_second (latest_from-mem b cs))
]
  where
    skip_second : {a : Candidate} → Memᴰ a (b ∷ cs) → Memᴰ a (b ∷ c ∷ cs)
    skip_second (Memᴰ.head p) = Memᴰ.head p
    skip_second (Memᴰ.tail m) = Memᴰ.tail (Memᴰ.tail m)

-- The candidate is an alias created no later than the other one, and with no greater id when both were
-- created at the same time.
abbrev pub IsNoNewer : Candidate → Candidate → Type 0
IsNoNewer d c =
    (d.alias_created_at.instant ≤ c.alias_created_at.instant)
    × ((d.alias_created_at.instant ≡ c.alias_created_at.instant) → d.alias_id ≤ c.alias_id)

newer-IsNoNewer : (d c : Candidate) → newer d c ≡ false → IsNoNewer d c
unfolding newer
newer-IsNoNewer d c h = (ground arith, λ same. ground arith)

-- No candidate of the list is newer.
abbrev pub IsNewest : Candidate → List Candidate → Type 0
IsNewest c cs = All (λ d. IsNoNewer d c) cs

HasNoNewer-IsNewest : (c : Candidate) (cs : List Candidate) → HasNoNewer c cs → IsNewest c cs
HasNoNewer-IsNewest c [] h = tt
HasNoNewer-IsNewest c (d ∷ ds) (k, h) = (newer-IsNoNewer d c k, HasNoNewer-IsNewest c ds h)

-- The selected candidate is one of the list, and no candidate's alias was created later, or at the
-- same time with a greater id.
pub select_latest-IsNewest :
    (cs : List Candidate) (c : Candidate) → select_latest cs ≡ some c → Memᴰ c cs × IsNewest c cs
unfolding select_latest
select_latest-IsNewest [] c h = cc
select_latest-IsNewest (b ∷ cs) c h =
    let same : latest_from b cs ≡ c = cc in
    subst (λ x. Memᴰ x (b ∷ cs) × IsNewest x (b ∷ cs)) same
      (
        latest_from-mem b cs,
        HasNoNewer-IsNewest (latest_from b cs) (b ∷ cs) (latest_from-HasNoNewer b cs),
      )
