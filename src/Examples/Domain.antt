-- ===== src/Examples/Domain.antt =====
-- The theorems of Domain at concrete values.
use billingrse_backend.Prelude.{
  ◌≡◌, ◌↔◌, refl, ℕ, false, Option, none, some, [], ◌∷◌, ok, All, is_empty,
}
use billingrse_backend.GoText.{
  Text, txt, trim_space, to_upper, trim_left, trim_right, is_space, eq_text, byte_length,
}
use billingrse_backend.GoTime.{Time}
use billingrse_backend.Domain.Money.{normalize_currency}
use billingrse_backend.Domain.Money.Currency.{IsCurrency, normalize_currency_iff}
use billingrse_backend.Domain.PaymentCycle.{normalize_payment_cycle, new_payment_cycle}
use billingrse_backend.Domain.PaymentCycle.Values.{IsCycle, new_payment_cycle_iff}
use billingrse_backend.Domain.InvoiceNumber
use billingrse_backend.Domain.InvoiceNumber.{normalize_invoice_number}
use billingrse_backend.Domain.InvoiceNumber.Format.{IsInvoiceNumber, validate_iff}
use billingrse_backend.Domain.LineItem.{LineItemInput}
use billingrse_backend.Domain.Billing.{Billing, resolve_line_items, new_billing}
use billingrse_backend.Domain.Billing.Rows.{IsRow, resolve_line_items-rows}
use billingrse_backend.Domain.Billing.Construction.{IsAccepted, built, new_billing_iff}
use billingrse_backend.Examples.Instances.{ascii_table, literal_floats, thousandths}

normalize_currency_iff_example :
    (normalize_currency (txt " usd ") ≡ ok (txt "USD"))
    ↔ ((txt "USD" ≡ to_upper (trim_space (txt " usd "))) × IsCurrency (txt "USD"))
normalize_currency_iff_example = normalize_currency_iff (txt " usd ") (txt "USD")

usd_normalizes : normalize_currency (txt " usd ") ≡ ok (txt "USD")
unfolding normalize_currency trim_space trim_left trim_right is_space to_upper byte_length eq_text
usd_normalizes = refl

new_payment_cycle_iff_example :
    (new_payment_cycle (txt "Recurring") ≡ ok (txt "recurring"))
    ↔ ((txt "recurring" ≡ normalize_payment_cycle (txt "Recurring")) × IsCycle (txt "recurring"))
new_payment_cycle_iff_example = new_payment_cycle_iff (txt "Recurring") (txt "recurring")

validate_iff_example :
    (InvoiceNumber.validate (txt "t1234567890123") ≡ ok tt)
    ↔ IsInvoiceNumber (normalize_invoice_number (txt "t1234567890123"))
validate_iff_example = validate_iff (txt "t1234567890123")

abbrev coffee : LineItemInput Text
coffee = record {
  product_name_raw = some (txt " coffee ");
  product_name_display = none;
  amount = some (txt "450");
  currency = some (txt "jpy");
}

abbrev blank : LineItemInput Text
blank = record {
  product_name_raw = some (txt "  ");
  product_name_display = none;
  amount = none;
  currency = none;
}

resolve_line_items-rows_example :
    All IsRow (resolve_line_items (blank ∷ coffee ∷ []) none (txt "450") (txt "JPY"))
    × (is_empty (resolve_line_items (blank ∷ coffee ∷ []) none (txt "450") (txt "JPY")) ≡ false)
resolve_line_items-rows_example =
    resolve_line_items-rows (blank ∷ coffee ∷ []) none (txt "450") (txt "JPY")

abbrev may_first : Option Time
may_first = some (record { instant = 63850000000000000000; location = 9 })

abbrev pub invoice : Billing Text ℕ
invoice =
    built 7 3 11 (txt " INV-1 ") none (txt "450") (txt "jpy") may_first (txt "one_time") none
      (coffee ∷ []) 450000

new_billing_iff_example :
    (new_billing 7 3 11
        (txt " INV-1 ")
        none
        (txt "450")
        (txt "jpy")
        may_first
        (txt "one_time")
        none
        (coffee ∷ [])
      ≡ ok invoice)
    ↔ ((d : ℕ) × IsAccepted 7 3 11
          (txt " INV-1 ")
          none
          (txt "450")
          (txt "jpy")
          may_first
          (txt "one_time")
          none
          (coffee ∷ [])
          d
        × (invoice
            ≡ built 7 3 11
                (txt " INV-1 ")
                none
                (txt "450")
                (txt "jpy")
                may_first
                (txt "one_time")
                none
                (coffee ∷ [])
                d))
new_billing_iff_example =
    new_billing_iff 7 3 11 (txt " INV-1 ") none (txt "450") (txt "jpy") may_first (txt "one_time")
      none (coffee ∷ []) invoice
