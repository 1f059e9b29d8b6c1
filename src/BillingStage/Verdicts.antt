-- ===== src/BillingStage/Verdicts.antt =====
-- The counts of the stage (internal/billing/application/usecase.go).
use billingrse_backend.Prelude.{
  ℕ, suc, ◌+◌, ◌≡◌, ◌≢◌, refl, false, some, List, [], ◌∷◌, length, length-append, ok, is_empty,
  eq-nil_of_is_empty, Bool-cases, inl, inr, arith,
}
use billingrse_backend.GoText.{CaseTable}
use billingrse_backend.GoContext.{Context, is_nil_context}
use billingrse_backend.Numbers.{Floats, Decimals}
use billingrse_backend.BillingStage.Types.{CreationTarget, Command, Result}
use billingrse_backend.BillingStage.{
  Save, Verdict, created, duplicate, failed, append_verdict, empty_result, count_items, create,
  create_all, execute,
}

abbrev handled_count : Result → ℕ
handled_count r = length r.created_items + (length r.duplicate_items + length r.failures)

append_verdict-count :
    (r : Result) (v : Verdict) → handled_count (append_verdict r v) ≡ suc (handled_count r)
append_verdict-count r (created item) = omega (arith, length-append r.created_items (item ∷ []))
append_verdict-count r (duplicate item) = omega (arith, length-append r.duplicate_items (item ∷ []))
append_verdict-count r (failed f) = omega (arith, length-append r.failures (f ∷ []))

module _ {F D S X : Type 0} ⦃fl : Floats F⦄ ⦃dec : Decimals D⦄ ⦃table : CaseTable⦄ where
  create_all-count :
      (save : Save F D S X) (user_id : ℕ) (r : Result) (ts : List (CreationTarget F)) (s : S)
      → handled_count (create_all save user_id r ts s).0 ≡ handled_count r + length ts
  unfolding create_all
  create_all-count save user_id r [] s = omega arith
  create_all-count save user_id r (t ∷ ts) s =
      let (v, s') = create save user_id t s in
      omega
        (arith, create_all-count save user_id (append_verdict r v) ts s', append_verdict-count r v)

  -- Without a nil context, with a user and a repository, Execute succeeds whatever the store
  -- answers, and each item is counted once as created, duplicate or failed.
  pub execute_total :
      (save : Save F D S X) (ctx : Context) (cmd : Command F) (s : S)
      → is_nil_context ctx ≡ false
      → cmd.user_id ≢ 0
      → (r : Result) × ((execute ctx (some save) cmd s).0 ≡ ok r)
        × (r.created_count ≡ length r.created_items)
        × (r.duplicate_count ≡ length r.duplicate_items)
        × (r.created_count + (r.duplicate_count + length r.failures) ≡ length cmd.eligible_items)
  unfolding execute create_all
  execute_total save ctx cmd s given known =
      let total = create_all-count save cmd.user_id empty_result cmd.eligible_items s in
      elim (Bool-cases (is_empty cmd.eligible_items)) [
        | inl e ↦ (
          empty_result,
          ground arith,
          refl,
          refl,
          ground (arith, eq-nil_of_is_empty cmd.eligible_items),
        )
        | inr e ↦ (
          count_items (create_all save cmd.user_id empty_result cmd.eligible_items s).0,
          ground arith,
          refl,
          refl,
          omega arith,
        )
      ]
