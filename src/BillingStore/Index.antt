-- ===== src/BillingStore/Index.antt =====
-- What SaveIfAbsent does to the unique index of the billings.
use billingrse_backend.Prelude.{
  ℕ, ◌≡◌, refl, sym, ap, ◌∙◌, true, false, Option, none, some, List, [], ◌∷◌, Outcome, ok, err,
  ◌>>=◌, Bool-cases, inl, inr, eq_of_ok, if◌then◌else◌, >>=-eq-ok,
}
use billingrse_backend.GoText.{Text, CaseTable}
use billingrse_backend.GoTime.{Time, utc}
use billingrse_backend.Numbers.{Floats, Decimals}
use billingrse_backend.Domain.Billing.{Billing}
use billingrse_backend.BillingStage.Types.{SaveResult}
use billingrse_backend.BillingStore.Types.{
  BillingRecord, LineItemRecord, Database, SaveError, wrapped,
}
use billingrse_backend.BillingStore.{
  save_line_items, create_records, billing_record, resolve_billing_summary_date, with_line_items,
  create_with, create_absent, committed, transaction, or_existing, is_duplicate, line_item_records,
  save_validated,
}

-- Lookups by the unique index on user, vendor and billing number, which the database keeps: a row is
-- inserted only where the index has none, inserting and committing lose no row, and the query by
-- these columns answers with the row that the index has.
pub record IsIndexed {D S X : Type 0} (db : Database D S X) : Type 0 where
  pub lookup : ℕ → ℕ → Text → S → Option ℕ
  pub unique :
      (r : BillingRecord) (s : S) (id : ℕ)
      → (db.create_billing r s).0 ≡ ok id
      → lookup r.user_id r.vendor_id r.billing_number s ≡ none
  pub inserted :
      (r : BillingRecord) (s : S) (id : ℕ)
      → (db.create_billing r s).0 ≡ ok id
      → lookup r.user_id r.vendor_id r.billing_number (db.create_billing r s).1 ≡ some id
  pub rows_keep :
      (rs : List (LineItemRecord D)) (s : S) (user vendor : ℕ) (number : Text)
      → lookup user vendor number (db.create_line_items rs s).1 ≡ lookup user vendor number s
  pub commit_keeps :
      (s : S) (user vendor : ℕ) (number : Text)
      → lookup user vendor number (db.commit s).1 ≡ lookup user vendor number s
  pub found :
      (user vendor : ℕ) (number : Text) (s : S) (id : ℕ)
      → db.find_by_identity user vendor number s ≡ ok id
      → lookup user vendor number s ≡ some id

module _ {D S X : Type 0} (db : Database D S X) where
  -- A failed transaction has changed nothing.
  abbrev Unchanged : S → Outcome (SaveError X) SaveResult × S → Type 0
  Unchanged s (answer, s') = (e : SaveError X) → answer ≡ err e → s' ≡ s

  committed-Unchanged :
      (s s' : S) (r : SaveResult) (ending : Outcome X (Unit {0}))
      → Unchanged s (committed db s r (ending, s'))
  committed-Unchanged s s' r (ok _) = λ e h. cc
  committed-Unchanged s s' r (err x) = λ e h. refl

  transaction-Unchanged :
      (s s' : S) (answer : Outcome (SaveError X) SaveResult)
      → Unchanged s (transaction db s (answer, s'))
  unfolding transaction
  transaction-Unchanged s s' (err x) = λ e h. refl
  transaction-Unchanged s s' (ok r) = committed-Unchanged s (db.commit s').1 r (db.commit s').0

module _ {F D S X : Type 0} ⦃fl : Floats F⦄ ⦃dec : Decimals D⦄ ⦃table : CaseTable⦄
    (db : Database D S X) (indexed : IsIndexed db) where
  -- The id under which the index has a billing.
  abbrev pub stored : Billing F D → S → Option ℕ
  stored b s = indexed.lookup b.user_id b.vendor_id b.billing_number s

  create_records-stored :
      (b : Billing F D) (records : Outcome (SaveError X) (List (LineItemRecord D))) (s : S)
      → stored b (create_records db records s).1 ≡ stored b s
  create_records-stored b (err e) s = refl
  create_records-stored b (ok []) s = refl
  create_records-stored b (ok (r ∷ rs)) s = indexed.rows_keep (r ∷ rs) s _ _ _

  -- What the body of the transaction has created.
  abbrev Fresh : Billing F D → S → Outcome (SaveError X) SaveResult × S → Type 0
  Fresh b s (answer, s') =
      (r : SaveResult)
      → answer ≡ ok r
      → (r.duplicate ≡ false) × (stored b s ≡ none) × (stored b s' ≡ some r.billing_id)

  with_line_items-Fresh :
      (b : Billing F D) (now : Time) (made : Outcome X ℕ) (s s' : S)
      → ((id : ℕ) → made ≡ ok id → (stored b s ≡ none) × (stored b s' ≡ some id))
      → Fresh b s (with_line_items db b now (made, s'))
  unfolding save_line_items
  with_line_items-Fresh b now (err e) s s' k r h = cc
  with_line_items-Fresh b now (ok id) s s' k r h =
      let records = line_item_records id b.user_id now 0 b.line_items in
      let (_, _, same) = >>=-eq-ok (create_records db records s').0 _ h in
      let answer = eq_of_ok same in
      (
        ap (λ (x : SaveResult). x.duplicate) (sym answer),
        (k id refl).0,
        create_records-stored b records s'
            ∙ (k id refl).1
            ∙ ap (λ (x : SaveResult). some x.billing_id) answer,
      )

  create_with-Fresh :
      (b : Billing F D) (now : Time) (date : Outcome (SaveError X) Time) (s : S)
      → Fresh b s (create_with db b now date s)
  create_with-Fresh b now (err e) s = λ r h. cc
  create_with-Fresh b now (ok date) s =
      let record_made = billing_record db b date now in
      with_line_items-Fresh b now (db.create_billing record_made s).0 s
        (db.create_billing record_made s).1
        (λ id made. (indexed.unique record_made s id made, indexed.inserted record_made s id made))

  committed-Fresh :
      (b : Billing F D) (s s' s'' : S) (r : SaveResult) (ending : Outcome X (Unit {0}))
      → stored b s'' ≡ stored b s'
      → Fresh b s (ok r, s')
      → Fresh b s (committed db s r (ending, s''))
  committed-Fresh b s s' s'' r (ok _) kept fresh r' h =
      let (new, absent, present) = fresh r' h in (new, absent, kept ∙ present)
  committed-Fresh b s s' s'' r (err e) kept fresh r' h = cc

  transaction-Fresh :
      (b : Billing F D) (s s' : S) (answer : Outcome (SaveError X) SaveResult)
      → Fresh b s (answer, s')
      → Fresh b s (transaction db s (answer, s'))
  unfolding transaction
  transaction-Fresh b s s' (err e) fresh = λ r h. cc
  transaction-Fresh b s s' (ok r) fresh =
      committed-Fresh b s s' (db.commit s').1 r (db.commit s').0 (indexed.commit_keeps s' _ _ _)
        fresh

  -- What an answer says of the index before and after.
  abbrev pub Saved : Billing F D → S → Outcome (SaveError X) SaveResult × S → Type 0
  Saved b s (answer, s') =
      (r : SaveResult)
      → answer ≡ ok r
      → (stored b s ≡ (if r.duplicate then some r.billing_id else none))
        × (stored b s' ≡ some r.billing_id)

  existing-found :
      (b : Billing F D) (s : S) (found : Outcome X ℕ) (r : SaveResult)
      → ((id : ℕ) → found ≡ ok id → stored b s ≡ some id)
      → (wrapped found >>= λ id. ok (record { billing_id = id; duplicate = true })) ≡ ok r
      → (r.duplicate ≡ true) × (stored b s ≡ some r.billing_id)
  existing-found b s (err e) r k h = cc
  existing-found b s (ok id) r k h =
      let same = eq_of_ok h in
      (
        ap (λ (x : SaveResult). x.duplicate) (sym same),
        k id refl ∙ ap (λ (x : SaveResult). some x.billing_id) same,
      )

  or_existing-Saved :
      (b : Billing F D) (s s' : S) (answer : Outcome (SaveError X) SaveResult)
      → Fresh b s (answer, s')
      → Unchanged db s (answer, s')
      → Saved b s (or_existing db b (answer, s'))
  or_existing-Saved b s s' (ok r) fresh same r' h =
      let (new, absent, present) = fresh r' h in (rw new absent, present)
  or_existing-Saved b s s' (err e) fresh same r h = elim (Bool-cases (is_duplicate db e)) [
    | inr other ↦ cc (rw other at h)
    | inl twice ↦
        let (old, present) =
          existing-found b s' (db.find_by_identity b.user_id b.vendor_id b.billing_number s') r
            (indexed.found _ _ _ s') (rw twice at h) in
        rw twice (rw old (ap (stored b) (sym (same e refl)) ∙ present), present)
  ]

  pub save_validated-Saved : (b : Billing F D) (s : S) → Saved b s (save_validated db b s)
  unfolding save_validated create_absent
  save_validated-Saved b s =
      let now = utc (db.now s) in
      let body = create_absent db b now s in
      let fresh : Fresh b s body =
        create_with-Fresh b now (resolve_billing_summary_date db b s) s in
      or_existing-Saved b s (transaction db s body).1 (transaction db s body).0
        (transaction-Fresh b s body.1 body.0 fresh) (transaction-Unchanged db s body.1 body.0)
