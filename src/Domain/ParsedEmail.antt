-- ===== src/Domain/ParsedEmail.antt =====
-- The analysed e-mail of internal/common/domain/email.go: ParsedEmail and its line items. `F`
-- stands for float64.
pub mod Idempotence
use billingrse_backend.Prelude.{Bool, ◌&&◌, Option, List, [], ◌∷◌, if◌then◌else◌, is_nil, is_empty}
use billingrse_backend.GoText.{Text, CaseTable}
use billingrse_backend.GoTime.{Time, is_zero, utc}
use billingrse_backend.Domain.Optional.{
  normalize_optional_string, normalize_optional_upper_string, normalize_optional_payment_cycle,
  normalize_optional_time,
}

pub record ParsedLineItem (F : Type 0) : Type 0 where
  pub product_name_raw : Option Text
  pub product_name_display : Option Text
  pub amount : Option F
  pub currency : Option Text

pub record ParsedEmail (F : Type 0) : Type 0 where
  pub product_name_raw : Option Text
  pub product_name_display : Option Text
  pub vendor_name : Option Text
  pub billing_number : Option Text
  pub invoice_number : Option Text
  pub amount : Option F
  pub currency : Option Text
  pub billing_date : Option Time
  pub payment_cycle : Option Text
  pub line_items : List (ParsedLineItem F)
  pub extracted_at : Time

module _ {F : Type 0} where
  abbrev pub is_empty_item : ParsedLineItem F → Bool
  is_empty_item i =
      is_nil i.product_name_raw
      && is_nil i.product_name_display
      && is_nil i.amount
      && is_nil i.currency

  -- ParsedEmail.IsEmpty.
  unfoldable pub is_empty_email : ParsedEmail F → Bool
  is_empty_email p =
      is_nil p.product_name_raw
      && is_nil p.product_name_display
      && is_nil p.vendor_name
      && is_nil p.billing_number
      && is_nil p.invoice_number
      && is_nil p.amount
      && is_nil p.currency
      && is_nil p.billing_date
      && is_nil p.payment_cycle
      && is_empty p.line_items

module _ {F : Type 0} ⦃table : CaseTable⦄ where
  unfoldable pub normalize_item : ParsedLineItem F → ParsedLineItem F
  normalize_item i = record i {
    product_name_raw = normalize_optional_string i.product_name_raw;
    product_name_display = normalize_optional_string i.product_name_display;
    currency = normalize_optional_upper_string i.currency;
  }

  -- normalizeParsedEmailLineItems; nil and the empty slice are both [].
  unfoldable pub normalize_items : List (ParsedLineItem F) → List (ParsedLineItem F)
  normalize_items [] = []
  normalize_items (item ∷ items) =
      let rest = normalize_items items in
      if is_empty_item (normalize_item item) then rest else normalize_item item ∷ rest

  -- ParsedEmail.Normalize.
  unfoldable pub normalize : ParsedEmail F → ParsedEmail F
  normalize p = record p {
    product_name_raw = normalize_optional_string p.product_name_raw;
    product_name_display = normalize_optional_string p.product_name_display;
    vendor_name = normalize_optional_string p.vendor_name;
    billing_number = normalize_optional_string p.billing_number;
    invoice_number = normalize_optional_string p.invoice_number;
    currency = normalize_optional_upper_string p.currency;
    payment_cycle = normalize_optional_payment_cycle p.payment_cycle;
    billing_date = normalize_optional_time p.billing_date;
    line_items = normalize_items p.line_items;
    extracted_at = if is_zero p.extracted_at then p.extracted_at else utc p.extracted_at;
  }

  -- ParsedEmail.WithExtractedAt.
  unfoldable pub with_extracted_at : ParsedEmail F → Time → ParsedEmail F
  with_extracted_at p extracted_at = normalize (record p { extracted_at = extracted_at })
