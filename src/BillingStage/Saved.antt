-- ===== src/BillingStage/Saved.antt =====
-- What the billing stage hands to its repository (internal/billing/application/usecase.go).
use billingrse_backend.Prelude.{
  ℕ, ◌≡◌, some, List, [], ◌∷◌, ok, is_empty, Bool-cases, Outcome-cases, inl, inr, ◌==◌,
}
use billingrse_backend.GoText.{CaseTable}
use billingrse_backend.GoContext.{Context, is_nil_context}
use billingrse_backend.Numbers.{Floats, Decimals}
use billingrse_backend.Domain.Billing.{Billing}
use billingrse_backend.Domain.Billing
use billingrse_backend.Domain.Billing.Construction.{new_billing-validated}
use billingrse_backend.BillingStage.Types.{CreationTarget, Command, Result}
use billingrse_backend.BillingStage.{
  Save, empty_result, append_verdict, normalize, validate, build, create, create_all, execute,
}

module _ {F D S X : Type 0} ⦃fl : Floats F⦄ ⦃dec : Decimals D⦄ ⦃table : CaseTable⦄
    (save : Save F D S X) (user_id : ℕ) (I : S → Type 0)
    (saved : (b : Billing F D) (s : S)
      → Billing.validate b ≡ ok tt
      → b.user_id ≡ user_id
      → I s
      → I (save b s).1) where
  create-keeps : (t : CreationTarget F) (s : S) → I s → I (create save user_id t s).1
  unfolding create build
  create-keeps t s h = elim (Outcome-cases (validate (normalize t))) [
    | inr (e, refused) ↦ rw refused h
    | inl (_, valid) ↦ elim (Outcome-cases (build {D = D} user_id (normalize t))) [
      | inr (e, refused) ↦ rw (valid, refused) h
      | inl (b, built) ↦
          let (passes, owner) = new_billing-validated _ _ _ _ _ _ _ _ _ _ _ b built in
          rw (valid, built) (saved b s passes owner h)
    ]
  ]

  create_all-keeps :
      (r : Result) (ts : List (CreationTarget F)) (s : S)
      → I s
      → I (create_all save user_id r ts s).1
  unfolding create_all
  create_all-keeps r [] s h = h
  create_all-keeps r (t ∷ ts) s h =
      create_all-keeps (append_verdict r (create save user_id t s).0) ts (create save user_id t s).1
        (create-keeps t s h)

-- Only billings that validate and belong to the command's user reach the store: what holds of it
-- and is kept by saving such a billing holds after Execute, whatever Execute returns.
pub execute-keeps :
    {F D S X : Type 0} ⦃fl : Floats F⦄ ⦃dec : Decimals D⦄ ⦃table : CaseTable⦄ (save : Save F D S X)
    (ctx : Context) (cmd : Command F) (I : S → Type 0)
    (saved : (b : Billing F D) (s : S)
      → Billing.validate b ≡ ok tt
      → b.user_id ≡ cmd.user_id
      → I s
      → I (save b s).1)
    (s : S)
    → I s
    → I (execute ctx (some save) cmd s).1
unfolding execute
execute-keeps save ctx cmd I saved s h = elim (Bool-cases (is_nil_context ctx)) [
  | inl e ↦ rw e h
  | inr live ↦ elim (Bool-cases (cmd.user_id == 0)) [
    | inl e ↦ rw (live, e) h
    | inr known ↦ elim (Bool-cases (is_empty cmd.eligible_items)) [
      | inl e ↦ rw (live, known, e) h
      | inr some_items ↦
          rw (live, known, some_items)
            (create_all-keeps save cmd.user_id I saved empty_result cmd.eligible_items s h)
    ]
  ]
]
