-- ===== src/BillingStore/Types.antt =====
-- The rows, the database interface and the errors of internal/billing/infrastructure/repository.go.
use billingrse_backend.Prelude.{ℕ, Bool, Option, List, Outcome, ok, err}
use billingrse_backend.GoText.{Text}
use billingrse_backend.GoTime.{Time}
use billingrse_backend.Domain.Errors.{Error}

-- billingRecord, without the id that the database gives it.
pub record BillingRecord : Type 0 where
  pub user_id : ℕ
  pub vendor_id : ℕ
  pub email_id : ℕ
  pub product_name_display : Option Text
  pub billing_number : Text
  pub invoice_number : Option Text
  pub billing_date : Option Time
  pub billing_summary_date : Time
  pub payment_cycle : Text
  pub created_at : Time
  pub updated_at : Time

-- billingLineItemRecord, without its id.
pub record LineItemRecord (D : Type 0) : Type 0 where
  pub billing_id : ℕ
  pub user_id : ℕ
  pub position : ℕ
  pub product_name_raw : Option Text
  pub product_name_display : Option Text
  pub amount : Option D
  pub currency : Option Text
  pub created_at : Time
  pub updated_at : Time

-- The statements that the repository makes, and the tests that it makes of their errors:
-- errors.Is(_, gorm.ErrDuplicatedKey), and whether it is MySQL's error 1062.
pub record Database (D S X : Type 0) : Type 0 where
  pub create_billing : BillingRecord → S → Outcome X ℕ × S
  pub create_line_items : List (LineItemRecord D) → S → Outcome X (Unit {0}) × S
  pub find_received_at : (email_id user_id : ℕ) → S → Outcome X Time
  pub find_by_identity : (user_id vendor_id : ℕ) (billing_number : Text) → S → Outcome X ℕ
  pub commit : S → Outcome X (Unit {0}) × S
  pub is_duplicated_key : X → Bool
  pub is_mysql_duplicate : X → Bool
  pub now : S → Time

-- The errors of SaveIfAbsent; those of the database are wrapped.
pub data SaveError (X : Type 0) : Type 0 where
  nil_context_given database_not_configured amount_not_finite amount_not_decimal : SaveError X
  duplicated_key : SaveError X
  invalid : Error → SaveError X
  failed : X → SaveError X

-- The error of a statement, wrapped.
abbrev pub wrapped : {X A : Type 0} → Outcome X A → Outcome (SaveError X) A
wrapped (ok a) = ok a
wrapped (err e) = err (failed e)
