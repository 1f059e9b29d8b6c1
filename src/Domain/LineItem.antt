-- ===== src/Domain/LineItem.antt =====
-- internal/common/domain/billing_line_item.go. The two structs of the source, BillingLineItemInput
-- and BillingLineItem, keep their own types. `F` stands for float64.
use billingrse_backend.Prelude.{Bool, ◌&&◌, Option, List, [], ◌∷◌, if◌then◌else◌, is_nil}
use billingrse_backend.GoText.{Text, CaseTable}
use billingrse_backend.Domain.Optional.{normalize_optional_string, normalize_optional_upper_string}

pub record LineItemInput (F : Type 0) : Type 0 where
  pub product_name_raw : Option Text
  pub product_name_display : Option Text
  pub amount : Option F
  pub currency : Option Text

pub record LineItem (F : Type 0) : Type 0 where
  pub product_name_raw : Option Text
  pub product_name_display : Option Text
  pub amount : Option F
  pub currency : Option Text

module _ {F : Type 0} where
  abbrev pub is_empty_input : LineItemInput F → Bool
  is_empty_input i =
      is_nil i.product_name_raw
      && is_nil i.product_name_display
      && is_nil i.amount
      && is_nil i.currency

  abbrev pub is_empty_item : LineItem F → Bool
  is_empty_item i =
      is_nil i.product_name_raw
      && is_nil i.product_name_display
      && is_nil i.amount
      && is_nil i.currency

  -- ToBillingLineItem.
  abbrev pub to_line_item : LineItemInput F → LineItem F
  to_line_item i = record {
    product_name_raw = i.product_name_raw;
    product_name_display = i.product_name_display;
    amount = i.amount;
    currency = i.currency;
  }

module _ {F : Type 0} ⦃table : CaseTable⦄ where
  unfoldable pub normalize_input : LineItemInput F → LineItemInput F
  normalize_input i = record i {
    product_name_raw = normalize_optional_string i.product_name_raw;
    product_name_display = normalize_optional_string i.product_name_display;
    currency = normalize_optional_upper_string i.currency;
  }

  unfoldable pub normalize_item : LineItem F → LineItem F
  normalize_item i = record i {
    product_name_raw = normalize_optional_string i.product_name_raw;
    product_name_display = normalize_optional_string i.product_name_display;
    currency = normalize_optional_upper_string i.currency;
  }

  -- normalizeBillingLineItemInputs; nil and the empty slice are both [].
  unfoldable pub normalize_inputs : List (LineItemInput F) → List (LineItemInput F)
  normalize_inputs [] = []
  normalize_inputs (item ∷ items) =
      let rest = normalize_inputs items in
      if is_empty_input (normalize_input item) then rest else normalize_input item ∷ rest

  -- normalizeBillingLineItems.
  unfoldable pub normalize_items : List (LineItem F) → List (LineItem F)
  normalize_items [] = []
  normalize_items (item ∷ items) =
      let rest = normalize_items items in
      if is_empty_item (normalize_item item) then rest else normalize_item item ∷ rest
