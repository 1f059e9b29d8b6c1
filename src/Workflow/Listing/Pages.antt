-- ===== src/Workflow/Listing/Pages.antt =====
-- The queries that reach the repository of internal/manualmailworkflow/application/list_usecase.go.
use billingrse_backend.Prelude.{
  ℤ, pos, negsuc, is_negative, ◌≡◌, ◌≢◌, ◌≤◌, false, some, Outcome, ok, err, fail_if-eq-ok,
  >>-eq-ok, Bool-cases, Outcome-cases, inl, inr, arith,
}
use billingrse_backend.GoContext.{Context, is_nil_context}
use billingrse_backend.Workflow.Listing.{
  ListQuery, ListResult, normalize_query, validate_query, is_out_of_range, list_histories, listed,
}

-- A limit from 1 to 100.
abbrev pub IsLimit : ℤ → Type 0
IsLimit (pos n) = (1 ≤ n) × (n ≤ 100)
IsLimit (negsuc n) = ⊥

-- A query of a user, with a limit from 1 to 100 and an offset that is not negative.
abbrev pub IsPage : ListQuery → Type 0
IsPage q = (q.user_id ≢ 0) × (IsLimit q.limit × (is_negative q.offset ≡ false))

is_out_of_range-IsLimit : (z : ℤ) → is_out_of_range z ≡ false → IsLimit z
is_out_of_range-IsLimit (pos n) h = (ground arith, ground arith)
is_out_of_range-IsLimit (negsuc n) h = cc

validate_query-IsPage : (q : ListQuery) → validate_query q ≡ ok tt → IsPage q
unfolding validate_query
validate_query-IsPage q h =
    let (user, h') = >>-eq-ok _ _ h in
    let (limit, h'') = >>-eq-ok _ _ h' in
    let (offset, status) = >>-eq-ok _ _ h'' in
    (
      (λ z. let e = fail_if-eq-ok _ _ user in ground arith),
      (is_out_of_range-IsLimit q.limit (fail_if-eq-ok _ _ limit), fail_if-eq-ok _ _ offset),
    )

module _ {E S : Type 0} (load : ListQuery → S → Outcome E ListResult × S) (P : S → Type 0) where
  listed-keeps : (m : Outcome E ListResult × S) → P m.1 → P (listed m).1
  listed-keeps (ok r, s) h = h
  listed-keeps (err e, s) h = h

  -- The repository is called with the queries of a user only, with a limit from 1 to 100 and an
  -- offset that is not negative: List keeps every property of the state that these queries keep.
  pub list_histories-keeps :
      (ctx : Context) (query : ListQuery) (s : S)
      → ((q : ListQuery) (s : S) → IsPage q → P s → P (load q s).1)
      → P s
      → P (list_histories ctx (some load) query s).1
  unfolding list_histories
  list_histories-keeps ctx query s kept h = elim (Bool-cases (is_nil_context ctx)) [
    | inl e ↦ rw e h
    | inr e ↦ elim (Outcome-cases (validate_query (normalize_query query))) [
      | inl (u, valid) ↦
          rw (e, valid)
            (listed-keeps (load (normalize_query query) s) (
              kept (normalize_query query) s (validate_query-IsPage (normalize_query query) valid)
                h))
      | inr (x, refused) ↦ rw (e, refused) h
    ]
  ]
