-- ===== src/BillingStore.antt =====
-- The repository of billings, internal/billing/infrastructure/repository.go. The database behind it
-- (gorm on MySQL) is the interface `Database`, on a state `S` and with errors `X`; logging is left
-- out.
pub mod Types
pub mod Index
pub mod Once
use billingrse_backend.Prelude.{
  ℕ, suc, Bool, true, false, ◌||◌, Option, none, some, List, [], ◌∷◌, Outcome, ok, err, ◌>>=◌,
  is_empty, if◌then◌else◌,
}
use billingrse_backend.GoText.{Text, trim_space, CaseTable}
use billingrse_backend.GoTime.{Time, utc}
use billingrse_backend.GoContext.{Context, is_nil_context}
use billingrse_backend.Numbers.{Floats, Decimals}
use billingrse_backend.Domain.Errors.{Error}
use billingrse_backend.Domain.Optional.{
  normalize_optional_string, normalize_optional_upper_string, normalize_optional_time,
}
use billingrse_backend.Domain.LineItem.{LineItem, is_empty_item, normalize_item}
use billingrse_backend.Domain.Billing.{Billing}
use billingrse_backend.Domain.Billing
use billingrse_backend.BillingStage.Types.{SaveResult}
use Types.{
  BillingRecord, LineItemRecord, Database, SaveError, nil_context_given, database_not_configured,
  amount_not_finite, amount_not_decimal, duplicated_key, invalid, failed, wrapped,
}

-- invoiceNumberPtr.
unfoldable pub invoice_number_ptr : Text → Option Text
invoice_number_ptr value = if is_empty (trim_space value) then none else some value

abbrev pub decimal_or : {D X : Type 0} → Option D → Outcome (SaveError X) (Option D)
decimal_or none = err amount_not_decimal
decimal_or (some d) = ok (some d)

module _ {F D X : Type 0} ⦃fl : Floats F⦄ ⦃dec : Decimals D⦄ where
  -- decimalPtr.
  unfoldable pub decimal_ptr : Option F → Outcome (SaveError X) (Option D)
  decimal_ptr none = ok none
  decimal_ptr (some value) =
      if fl.is_nan value || fl.is_inf value
      then err amount_not_finite
      else decimal_or (dec.new_from_string (fl.format_float value))

module _ {F D : Type 0} ⦃table : CaseTable⦄ where
  abbrev pub line_item_record :
      (billing_id user_id position : ℕ) → Time → LineItem F → Option D → LineItemRecord D
  line_item_record billing_id user_id position now item amount = record {
    billing_id = billing_id;
    user_id = user_id;
    position = position;
    product_name_raw = normalize_optional_string item.product_name_raw;
    product_name_display = normalize_optional_string item.product_name_display;
    amount = amount;
    currency = normalize_optional_upper_string item.currency;
    created_at = now;
    updated_at = now;
  }

module _ {F D X : Type 0} ⦃fl : Floats F⦄ ⦃dec : Decimals D⦄ ⦃table : CaseTable⦄ where
  -- The loop of saveLineItems: rows keep the position that they have among all items.
  unfoldable pub line_item_records :
      (billing_id user_id : ℕ)
      → Time
      → (position : ℕ) → List (LineItem F)
      → Outcome (SaveError X) (List (LineItemRecord D))
  line_item_records billing_id user_id now position [] = ok []
  line_item_records billing_id user_id now position (item ∷ items) =
      let rest = line_item_records billing_id user_id now (suc position) items in
      if is_empty_item (normalize_item item)
      then rest
      else decimal_ptr (normalize_item item).amount >>= λ amount. rest >>= λ records.
          ok (
            line_item_record billing_id user_id position now (normalize_item item) amount ∷ records)

module _ {D S X : Type 0} (db : Database D S X) where
  abbrev pub create_records :
      Outcome (SaveError X) (List (LineItemRecord D)) → S → Outcome (SaveError X) (Unit {0}) × S
  create_records (err e) s = (err e, s)
  create_records (ok []) s = (ok tt, s)
  create_records (ok (r ∷ records)) s =
      let (made, s') = db.create_line_items (r ∷ records) s in (wrapped made, s')

  abbrev pub received_at : Option Time → ℕ → ℕ → S → Outcome (SaveError X) Time
  received_at (some date) email_id user_id s = ok (utc date)
  received_at none email_id user_id s =
      wrapped (db.find_received_at email_id user_id s) >>= λ date. ok (utc date)

  -- isDuplicatedKeyError.
  abbrev pub create_error : X → SaveError X
  create_error e =
      if db.is_duplicated_key e || db.is_mysql_duplicate e then duplicated_key else failed e

  abbrev pub committed :
      S → SaveResult → Outcome X (Unit {0}) × S → Outcome (SaveError X) SaveResult × S
  committed s r (ok _, s') = (ok r, s')
  committed s r (err e, s') = (err (failed e), s)

  -- Transaction: what fails, in the body or at its commit, leaves the database as it was before.
  unfoldable pub transaction :
      S → Outcome (SaveError X) SaveResult × S → Outcome (SaveError X) SaveResult × S
  transaction s (err e, s') = (err e, s)
  transaction s (ok r, s') = committed s r (db.commit s')

  -- errors.Is(err, gorm.ErrDuplicatedKey).
  abbrev pub is_duplicate : SaveError X → Bool
  is_duplicate duplicated_key = true
  is_duplicate (failed e) = db.is_duplicated_key e
  is_duplicate _ = false

module _ {F D S X : Type 0} ⦃fl : Floats F⦄ ⦃dec : Decimals D⦄ ⦃table : CaseTable⦄
    (db : Database D S X) where
  -- saveLineItems.
  unfoldable pub save_line_items :
      (billing_id user_id : ℕ) → List (LineItem F) → Time → S → Outcome (SaveError X) (Unit {0}) × S
  save_line_items billing_id user_id items now s =
      create_records db (line_item_records billing_id user_id now 0 items) s

  -- resolveBillingSummaryDate.
  unfoldable pub resolve_billing_summary_date : Billing F D → S → Outcome (SaveError X) Time
  resolve_billing_summary_date b s = received_at db b.billing_date b.email_id b.user_id s

  abbrev pub billing_record : Billing F D → Time → Time → BillingRecord
  billing_record b summary_date now = record {
    user_id = b.user_id;
    vendor_id = b.vendor_id;
    email_id = b.email_id;
    product_name_display = normalize_optional_string b.product_name_display;
    billing_number = b.billing_number;
    invoice_number = invoice_number_ptr b.invoice_number;
    billing_date = normalize_optional_time b.billing_date;
    billing_summary_date = summary_date;
    payment_cycle = b.payment_cycle;
    created_at = now;
    updated_at = now;
  }

  abbrev pub with_line_items :
      Billing F D → Time → Outcome X ℕ × S → Outcome (SaveError X) SaveResult × S
  with_line_items b now (err e, s) = (err (create_error db e), s)
  with_line_items b now (ok id, s) =
      let (made, s') = save_line_items id b.user_id b.line_items now s in
      (made >>= λ _. ok (record { billing_id = id; duplicate = false }), s')

  abbrev pub create_with :
      Billing F D → Time → Outcome (SaveError X) Time → S → Outcome (SaveError X) SaveResult × S
  create_with b now (err e) s = (err e, s)
  create_with b now (ok date) s =
      with_line_items b now (db.create_billing (billing_record b date now) s)

  -- The body of the transaction.
  unfoldable pub create_absent : Billing F D → Time → S → Outcome (SaveError X) SaveResult × S
  create_absent b now s = create_with b now (resolve_billing_summary_date b s) s

  abbrev pub existing : Billing F D → S → Outcome (SaveError X) SaveResult
  existing b s = wrapped (db.find_by_identity b.user_id b.vendor_id b.billing_number s) >>= λ id.
      ok (record { billing_id = id; duplicate = true })

  abbrev pub or_existing :
      Billing F D → Outcome (SaveError X) SaveResult × S → Outcome (SaveError X) SaveResult × S
  or_existing b (ok r, s) = (ok r, s)
  or_existing b (err e, s) = if is_duplicate db e then (existing b s, s) else (err e, s)

  unfoldable pub save_validated : Billing F D → S → Outcome (SaveError X) SaveResult × S
  save_validated b s = or_existing b (transaction db s (create_absent b (utc (db.now s)) s))

module _ {F D S X : Type 0} ⦃fl : Floats F⦄ ⦃dec : Decimals D⦄ ⦃table : CaseTable⦄ where
  abbrev pub checked :
      Option (Database D S X)
      → Billing F D
      → Outcome Error (Unit {0})
      → S
      → Outcome (SaveError X) SaveResult × S
  checked none b valid s = (err database_not_configured, s)
  checked (some db) b (err e) s = (err (invalid e), s)
  checked (some db) b (ok _) s = save_validated db b s

  -- SaveIfAbsent.
  unfoldable pub save_if_absent :
      Context → Option (Database D S X) → Billing F D → S → Outcome (SaveError X) SaveResult × S
  save_if_absent ctx db b s =
      if is_nil_context ctx then (err nil_context_given, s) else checked db b (Billing.validate b) s
