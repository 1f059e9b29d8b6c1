-- ===== src/Domain/Billing/Rows.antt =====
-- The rows of a new billing (internal/common/domain/billing.go and billing_line_item.go).
use billingrse_backend.Prelude.{
  ◌≡◌, refl, inl, inr, false, Option, List, [], ◌∷◌, map, is_empty, Bool-cases, All, arith,
}
use billingrse_backend.GoText.{Text, CaseTable}
use billingrse_backend.Domain.Optional.Idempotence.{
  normalize_optional_string_idem, normalize_optional_upper_string_idem,
}
use billingrse_backend.Domain.LineItem.{
  LineItem, LineItemInput, is_empty_input, is_empty_item, to_line_item, normalize_input,
  normalize_item, normalize_inputs, normalize_items,
}
use billingrse_backend.Domain.Billing.{fallback_item, items_or_fallback, resolve_line_items}

module _ {F : Type 0} ⦃table : CaseTable⦄ where
  -- A row that is normalized and not empty.
  abbrev pub IsRow : LineItem F → Type 0
  IsRow item = (normalize_item item ≡ item) × (is_empty_item item ≡ false)

  normalize_item-to_line_item :
      (input : LineItemInput F)
      → normalize_item (to_line_item (normalize_input input)) ≡ to_line_item (normalize_input input)
  unfolding normalize_item normalize_input
  normalize_item-to_line_item input =
      simp (normalize_optional_string_idem, normalize_optional_upper_string_idem)

  rows_of_inputs :
      (inputs : List (LineItemInput F)) → All IsRow (map to_line_item (normalize_inputs inputs))
  unfolding normalize_inputs
  rows_of_inputs [] = tt
  rows_of_inputs (input ∷ inputs) = elim (Bool-cases (is_empty_input (normalize_input input))) [
    | inl e ↦ rw e (rows_of_inputs inputs)
    | inr e ↦ rw e ((normalize_item-to_line_item input, e), rows_of_inputs inputs)
  ]

  normalize_items_id : (items : List (LineItem F)) → All IsRow items → normalize_items items ≡ items
  unfolding normalize_items
  normalize_items_id [] h = refl
  normalize_items_id (item ∷ items) h = rw (h.0.0, h.0.1, normalize_items_id items h.1) refl

  fallback-IsRow :
      (name : Option Text) (amount : F) (currency : Text)
      → IsRow (to_line_item (fallback_item name amount currency))
  unfolding fallback_item
  fallback-IsRow name amount currency =
      (normalize_item-to_line_item _, unfold normalize_input in ground arith)

  rows_or_fallback :
      (inputs : List (LineItemInput F)) (fallback : LineItemInput F)
      → All IsRow (map to_line_item inputs)
      → IsRow (to_line_item fallback)
      → All IsRow (items_or_fallback inputs fallback)
        × (is_empty (items_or_fallback inputs fallback) ≡ false)
  rows_or_fallback [] fallback h (same, full) = rw full (((same, full), tt), refl)
  rows_or_fallback (input ∷ inputs) fallback h k = (h, refl)

  -- The rows of a new billing are normalized, none is empty, and there is at least one.
  pub resolve_line_items-rows :
      (inputs : List (LineItemInput F)) (name : Option Text) (amount : F) (currency : Text)
      → All IsRow (resolve_line_items inputs name amount currency)
        × (is_empty (resolve_line_items inputs name amount currency) ≡ false)
  unfolding resolve_line_items
  resolve_line_items-rows inputs name amount currency =
      rows_or_fallback (normalize_inputs inputs) (fallback_item name amount currency)
        (rows_of_inputs inputs) (fallback-IsRow name amount currency)

  pub resolve_line_items-normalized :
      (inputs : List (LineItemInput F)) (name : Option Text) (amount : F) (currency : Text)
      → is_empty (normalize_items (resolve_line_items inputs name amount currency)) ≡ false
  resolve_line_items-normalized inputs name amount currency =
      let (rows, full) = resolve_line_items-rows inputs name amount currency in
      rw (normalize_items_id _ rows) full
