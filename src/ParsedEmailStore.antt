-- ===== src/ParsedEmailStore.antt =====
-- The repository of parsed e-mails, internal/mailanalysis/infrastructure/parsed_email_repository.go.
-- The database behind it (gorm on MySQL) is the parameter `create`, on a state `S` and with errors
-- `X`, which returns the rows with the ids that it gave them; logging is left out.
pub mod Paired
use billingrse_backend.Prelude.{
  ℕ, suc, Option, none, some, List, [], ◌∷◌, map, Outcome, ok, err, is_empty, if◌then◌else◌, ℤ,
  plus_nat,
}
use billingrse_backend.GoText.{Text, CaseTable}
use billingrse_backend.GoTime.{Time, is_zero, utc}
use billingrse_backend.GoContext.{Context, is_nil_context}
use billingrse_backend.Numbers.{Floats, FloatMath}
use billingrse_backend.Domain.ParsedEmail.{ParsedEmail}
use billingrse_backend.Domain.ParsedEmail
use billingrse_backend.MailAnalysis.Types.{SaveInput, SavedRecord, SaveInputError}
use billingrse_backend.MailAnalysis.Drafts.{normalize_save_input, validate_save_input}

-- parsedEmailRecord; gorm assigns the id on creation.
pub record ParsedEmailRecord (F : Type 0) : Type 0 where
  pub id : ℕ
  pub user_id : ℕ
  pub email_id : ℕ
  pub analysis_run_id : Text
  pub position : ℤ
  pub product_name_raw : Option Text
  pub product_name_display : Option Text
  pub vendor_name : Option Text
  pub billing_number : Option Text
  pub invoice_number : Option Text
  pub amount : Option F
  pub currency : Option Text
  pub billing_date : Option Time
  pub payment_cycle : Option Text
  pub extracted_at : Time
  pub prompt_version : Text
  pub created_at : Time
  pub updated_at : Time

-- The errors of SaveAll.
pub data SaveError (X : Type 0) : Type 0 where
  nil_context_given database_not_configured : SaveError X
  invalid : SaveInputError → SaveError X
  failed : X → SaveError X

-- `db.Create(&records)`.
abbrev pub Create : (F S X : Type 0) → Type 0
Create F S X = List (ParsedEmailRecord F) → S → Outcome X (List (ParsedEmailRecord F)) × S

module _ {F : Type 0} ⦃table : CaseTable⦄ where
  -- The body of the loop over the drafts, for a normalized input.
  abbrev pub parsed_email_record : SaveInput F → Time → ℕ → ParsedEmail F → ParsedEmailRecord F
  parsed_email_record input now idx draft =
      let parsed = ParsedEmail.with_extracted_at draft input.extracted_at in
      record {
        id = 0;
        user_id = input.user_id;
        email_id = input.email_id;
        analysis_run_id = input.analysis_run_id;
        position = plus_nat input.position_base idx;
        product_name_raw = parsed.product_name_raw;
        product_name_display = parsed.product_name_display;
        vendor_name = parsed.vendor_name;
        billing_number = parsed.billing_number;
        invoice_number = parsed.invoice_number;
        amount = parsed.amount;
        currency = parsed.currency;
        billing_date = parsed.billing_date;
        payment_cycle = parsed.payment_cycle;
        extracted_at = parsed.extracted_at;
        prompt_version = input.prompt_version;
        created_at = now;
        updated_at = now;
      }

  unfoldable pub parsed_email_records :
      SaveInput F → Time → ℕ → List (ParsedEmail F) → List (ParsedEmailRecord F)
  parsed_email_records input now idx [] = []
  parsed_email_records input now idx (draft ∷ drafts) =
      parsed_email_record input now idx draft ∷ parsed_email_records input now (suc idx) drafts

-- madomain.ParsedEmailRecord of a row.
abbrev pub saved_record : {F : Type 0} → ParsedEmailRecord F → SavedRecord
saved_record row = record { id = row.id; email_id = row.email_id }

module _ {F S X : Type 0} ⦃fl : Floats F⦄ ⦃fm : FloatMath F⦄ ⦃table : CaseTable⦄
    (now : S → Time × S) where
  abbrev pub created :
      Outcome X (List (ParsedEmailRecord F)) × S → Outcome (SaveError X) (List SavedRecord) × S
  created (ok rows, s) = (ok (map saved_record rows), s)
  created (err e, s) = (err (failed e), s)

  abbrev pub create_valid :
      Create F S X
      → SaveInput F
      → Outcome SaveInputError (Unit {0})
      → S
      → Outcome (SaveError X) (List SavedRecord) × S
  create_valid create input (err e) s = (err (invalid e), s)
  create_valid create input (ok u) s =
      let (moment, s') = now s in
      created (create (parsed_email_records input (utc moment) 0 input.parsed_emails) s')

  abbrev pub create_normalized :
      Create F S X → SaveInput F → S → Outcome (SaveError X) (List SavedRecord) × S
  create_normalized create input s =
      if is_empty input.parsed_emails
      then (ok [], s)
      else create_valid create input (validate_save_input input) s

  abbrev pub with_database :
      Option (Create F S X) → SaveInput F → S → Outcome (SaveError X) (List SavedRecord) × S
  with_database none input s = (err database_not_configured, s)
  with_database (some create) input s = create_normalized create (normalize_save_input input) s

  -- SaveAll.
  unfoldable pub save_all :
      Context
      → Option (Create F S X)
      → SaveInput F
      → S
      → Outcome (SaveError X) (List SavedRecord) × S
  save_all ctx db input s =
      if is_nil_context ctx then (err nil_context_given, s) else with_database db input s
