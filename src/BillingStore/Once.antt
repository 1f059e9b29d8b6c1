-- ===== src/BillingStore/Once.antt =====
-- Two calls of SaveIfAbsent, internal/billing/infrastructure/repository.go.
use billingrse_backend.Prelude.{
  ℕ, ◌≡◌, sym, ◌∙◌, true, none, some, Outcome, ok, err, Bool-cases, inl, inr, if◌then◌else◌,
}
use billingrse_backend.GoText.{CaseTable}
use billingrse_backend.GoContext.{Context, live, nil_context}
use billingrse_backend.Numbers.{Floats, Decimals}
use billingrse_backend.Domain.Errors.{Error}
use billingrse_backend.Domain.Billing.{Billing}
use billingrse_backend.Domain.Billing
use billingrse_backend.BillingStage.Types.{SaveResult}
use billingrse_backend.BillingStore.Types.{Database}
use billingrse_backend.BillingStore.{checked, save_if_absent}
use billingrse_backend.BillingStore.Index.{IsIndexed, Saved, save_validated-Saved}

duplicate_of_stored :
    (r : SaveResult) (id : ℕ)
    → some id ≡ (if r.duplicate then some r.billing_id else none)
    → r ≡ record { billing_id = id; duplicate = true }
duplicate_of_stored r id h = elim (Bool-cases r.duplicate) [
  | inl e ↦ cc (e, rw e at h)
  | inr e ↦ cc (rw e at h)
]

module _ {F D S X : Type 0} ⦃fl : Floats F⦄ ⦃dec : Decimals D⦄ ⦃table : CaseTable⦄
    (db : Database D S X) (indexed : IsIndexed db) where
  checked-Saved :
      (b : Billing F D) (valid : Outcome Error (Unit {0})) (s : S)
      → Saved db indexed b s (checked (some db) b valid s)
  checked-Saved b (err e) s = λ r h. cc
  checked-Saved b (ok _) s = save_validated-Saved db indexed b s

  -- When SaveIfAbsent succeeds, the database has the billing's user, vendor and number under the id
  -- that it answers; before, it had them under that id if the answer says duplicate, and had them
  -- not at all if not.
  pub save_if_absent-stored :
      (ctx : Context) (b : Billing F D) (s : S) (r : SaveResult)
      → (save_if_absent ctx (some db) b s).0 ≡ ok r
      → (indexed.lookup b.user_id b.vendor_id b.billing_number s
          ≡ (if r.duplicate then some r.billing_id else none))
        × (indexed.lookup b.user_id b.vendor_id b.billing_number
              (save_if_absent ctx (some db) b s).1
            ≡ some r.billing_id)
  unfolding save_if_absent
  save_if_absent-stored nil_context b s r h = cc
  save_if_absent-stored live b s r h = checked-Saved b (Billing.validate b) s r h

  -- Once a billing has been saved, saving one of the same user, vendor and number, if it succeeds,
  -- answers that it is a duplicate of the first one's id.
  pub save_if_absent_twice :
      (ctx ctx' : Context) (b c : Billing F D) (s : S) (r r' : SaveResult)
      → (save_if_absent ctx (some db) b s).0 ≡ ok r
      → (c.user_id ≡ b.user_id)
        × (c.vendor_id ≡ b.vendor_id)
        × (c.billing_number ≡ b.billing_number)
      → (save_if_absent ctx' (some db) c (save_if_absent ctx (some db) b s).1).0 ≡ ok r'
      → r' ≡ record { billing_id = r.billing_id; duplicate = true }
  save_if_absent_twice ctx ctx' b c s r r' h same h' =
      let s' = (save_if_absent ctx (some db) b s).1 in
      let present = (save_if_absent-stored ctx b s r h).1 in
      let before = (save_if_absent-stored ctx' c s' r' h').0 in
      duplicate_of_stored r' r.billing_id (sym (rw (same.0, same.1, same.2) present) ∙ before)
