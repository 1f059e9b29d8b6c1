-- ===== src/ParsedEmailStore/Paired.antt =====
-- The records that SaveAll returns (internal/mailanalysis/infrastructure/parsed_email_repository.go)
-- and the drafts that the analysis stage hands to it.
use billingrse_backend.Prelude.{ℕ, ◌≡◌, List, [], ◌∷◌, map, All, length, Outcome, ok, err}
use billingrse_backend.GoText.{CaseTable}
use billingrse_backend.GoTime.{Time}
use billingrse_backend.Numbers.{Floats, FloatMath}
use billingrse_backend.Domain.ParsedEmail.{ParsedEmail}
use billingrse_backend.Domain.ParsedEmail
use billingrse_backend.MailAnalysis.Types.{SaveInput, SavedRecord, ParsedEmailResultItem}
use billingrse_backend.MailAnalysis.{Verdict, stored, failed}
use billingrse_backend.ParsedEmailStore.{
  ParsedEmailRecord, SaveError, Create, parsed_email_records, saved_record,
}

-- A row before the database gives it an id.
abbrev pub unsaved : {F : Type 0} → ParsedEmailRecord F → ParsedEmailRecord F
unsaved row = record row { id = 0 }

-- The row holds the data of the parsed e-mail.
abbrev pub HasData : {F : Type 0} → ParsedEmail F → ParsedEmailRecord F → Type 0
HasData p row =
    (row.product_name_raw ≡ p.product_name_raw)
    × ((row.product_name_display ≡ p.product_name_display)
        × ((row.vendor_name ≡ p.vendor_name)
            × ((row.billing_number ≡ p.billing_number)
                × ((row.invoice_number ≡ p.invoice_number)
                    × ((row.amount ≡ p.amount)
                        × ((row.currency ≡ p.currency)
                            × ((row.billing_date ≡ p.billing_date)
                                × (row.payment_cycle ≡ p.payment_cycle))))))))

head_or : {A : Type 0} → A → List A → A
head_or a [] = a
head_or a (x ∷ xs) = x

tail_of : {A : Type 0} → List A → List A
tail_of [] = []
tail_of (x ∷ xs) = xs

module _ {F : Type 0} ⦃table : CaseTable⦄ (Made : ParsedEmailRecord F → Type 0) where
  -- The item names a row that the database made, which holds its data, normalized.
  abbrev pub IsStored : ParsedEmailResultItem F → Type 0
  IsStored i =
      (row : ParsedEmailRecord F) × (Made row
        × ((i.parsed_email_id ≡ row.id)
            × ((i.email_id ≡ row.email_id) × HasData (ParsedEmail.normalize i.parsed_email) row)))

module _ {F S X : Type 0} ⦃fl : Floats F⦄ ⦃fm : FloatMath F⦄ ⦃table : CaseTable⦄
    (now : S → Time × S) (create : Create F S X) (Made : ParsedEmailRecord F → Type 0)
    (makes : (rows made : List (ParsedEmailRecord F)) (s s' : S)
      → create rows s ≡ (ok made, s')
      → (map unsaved made ≡ map unsaved rows) × All Made made) where
  -- The records of SaveAll are those of the rows that the database made of a normalized input.
  abbrev Written : SaveInput F → Outcome (SaveError X) (List SavedRecord) → Type 0
  Written input (ok records) =
      (made : List (ParsedEmailRecord F)) × ((moment : Time) × ((records ≡ map saved_record made)
          × (All Made made
              × (map unsaved made ≡ parsed_email_records input moment 0 input.parsed_emails))))
  Written input (err e) = Unit

  -- What a verdict and a result hold: as many items as records, each of a row that was made.
  abbrev AreStored : List (ParsedEmailResultItem F) → ℕ → Type 0
  AreStored items count = (length items ≡ count) × All (IsStored Made) items

  abbrev IsGood : Verdict F → Type 0
  IsGood (stored items count) = AreStored items count
  IsGood (failed f) = Unit
