-- ===== src/Domain/Billing/Construction.antt =====
-- When NewBilling succeeds, and what it builds (internal/common/domain/billing.go).
use billingrse_backend.Prelude.{
  ℕ, ◌≡◌, ◌∙◌, ◌≢◌, ◌↔◌, inl, inr, refl, sym, eq_of_ok, false, Option, none, some, List, is_empty,
  ok, arith, Option-cases, Outcome-cases, ◌==◌, ◌>>◌, >>-eq-ok,
}
use billingrse_backend.GoText.{Text, trim_space, to_upper, CaseTable}
use billingrse_backend.GoText.Trim.{trim_space_idem}
use billingrse_backend.GoTime.{Time}
use billingrse_backend.Numbers.{Floats, Decimals}
use billingrse_backend.Domain.Money
use billingrse_backend.Domain.Money.{normalize_amount, normalize_amount_decimal, normalize_currency}
use billingrse_backend.Domain.Money.Currency.{
  IsCurrency, normalize_currency_iff, normalize_currency_idem,
}
use billingrse_backend.Domain.BillingNumber
use billingrse_backend.Domain.PaymentCycle.{normalize_payment_cycle, new_payment_cycle}
use billingrse_backend.Domain.PaymentCycle.Values.{
  IsCycle, new_payment_cycle_iff, normalize_payment_cycle_idem,
}
use billingrse_backend.Domain.PaymentCycle.Values
use billingrse_backend.Domain.Optional.{normalize_optional_string, normalize_optional_time}
use billingrse_backend.Domain.LineItem.{LineItemInput}
use billingrse_backend.Domain.Billing.{
  Billing, is_zero_date, resolve_line_items, validate, validate_invoice, new_billing,
}
use billingrse_backend.Domain.Billing.InvoiceForm.{
  IsOptionalInvoice, invoice_text, new_invoice_number_lem, validate_invoice_iff,
}
use billingrse_backend.Domain.Billing.Rows.{resolve_line_items-normalized}

module _ {D : Type 0} ⦃dec : Decimals D⦄ where
  decimal_unchanged :
      (amount d : D) → normalize_amount_decimal amount ≡ ok d → normalize_amount_decimal d ≡ ok d
  unfolding normalize_amount_decimal
  decimal_unchanged amount d h = ground arith

module _ {F D : Type 0} ⦃fl : Floats F⦄ ⦃dec : Decimals D⦄ where
  amount_unchanged :
      (amount : F) (d : D) → normalize_amount amount ≡ ok d → normalize_amount_decimal d ≡ ok d
  unfolding normalize_amount
  amount_unchanged amount d h = elim (Option-cases (dec.new_from_string (fl.format_float amount))) [
    | inl refused ↦ ground arith
    | inr (parsed, read) ↦ ground (arith, decimal_unchanged parsed d)
  ]

is_zero_date-normalized :
    (date : Option Time) → is_zero_date (normalize_optional_time date) ≡ is_zero_date date
unfolding normalize_optional_time
is_zero_date-normalized none = refl
is_zero_date-normalized (some date) = refl

module _ {F D : Type 0} ⦃fl : Floats F⦄ ⦃dec : Decimals D⦄ ⦃table : CaseTable⦄
    (user_id vendor_id email_id : ℕ) (number : Text) (invoice : Option Text) (amount : F)
    (currency : Text) (date : Option Time) (cycle : Text) (name : Option Text)
    (items : List (LineItemInput F)) where
  -- What the arguments of NewBilling must satisfy, for the decimal that the amount becomes.
  pub record IsAccepted (d : D) : Type 0 where
    pub user : user_id ≢ 0
    pub vendor : vendor_id ≢ 0
    pub email : email_id ≢ 0
    pub number_filled : is_empty (trim_space number) ≡ false
    pub invoice_form : IsOptionalInvoice (invoice_text invoice)
    pub amount_valid : normalize_amount amount ≡ ok d
    pub currency_known : IsCurrency (to_upper (trim_space currency))
    pub date_set : is_zero_date date ≡ false
    pub cycle_known : IsCycle (normalize_payment_cycle cycle)

  -- The billing that NewBilling builds.
  abbrev pub built : D → Billing F D
  built d = record {
    id = 0;
    user_id = user_id;
    vendor_id = vendor_id;
    email_id = email_id;
    product_name_display = normalize_optional_string name;
    billing_number = trim_space number;
    invoice_number = invoice_text invoice;
    money = record { amount = d; currency = to_upper (trim_space currency) };
    billing_date = normalize_optional_time date;
    payment_cycle = normalize_payment_cycle cycle;
    line_items = resolve_line_items items name amount currency;
  }

  validate-built : (d : D) → IsAccepted d → validate (built d) ≡ ok tt
  unfolding validate BillingNumber.validate Money.validate
  validate-built d a =
      let user : (user_id == 0) ≡ false = ground (arith, a.user) in
      let vendor : (vendor_id == 0) ≡ false = ground (arith, a.vendor) in
      let email : (email_id == 0) ≡ false = ground (arith, a.email) in
      let invoice_ok = (validate_invoice_iff invoice).1 a.invoice_form in
      let currency_ok =
        normalize_currency_idem currency (to_upper (trim_space currency))
          ((normalize_currency_iff currency _).1 (refl, a.currency_known)) in
      let cycle_ok =
        (Values.validate_iff (normalize_payment_cycle cycle)).1
          (rw normalize_payment_cycle_idem a.cycle_known) in
      rw
        (
          user,
          vendor,
          email,
          trim_space_idem,
          a.number_filled,
          invoice_ok,
          amount_unchanged amount d a.amount_valid,
          currency_ok,
          is_zero_date-normalized,
          a.date_set,
          cycle_ok,
          resolve_line_items-normalized,
        )
        refl

  validated_facts :
      (d : D)
      → validate (built d) ≡ ok tt
      → (user_id ≢ 0)
        × (vendor_id ≢ 0)
        × (email_id ≢ 0)
        × (validate_invoice (invoice_text invoice) ≡ ok tt)
        × (is_zero_date date ≡ false)
  unfolding validate
  validated_facts d h = ground (arith, is_zero_date-normalized date)

  construct :
      (d : D)
      → is_empty (trim_space number) ≡ false
      → normalize_amount amount ≡ ok d
      → IsCurrency (to_upper (trim_space currency))
      → IsCycle (normalize_payment_cycle cycle)
      → new_billing user_id vendor_id email_id number invoice amount currency date cycle name items
        ≡ (validate (built d) >> ok (built d))
  unfolding new_billing BillingNumber.new_billing_number Money.new_money
  construct d full valid known cycles =
      rw
        (
          full,
          new_invoice_number_lem,
          valid,
          (normalize_currency_iff currency _).1 (refl, known),
          (new_payment_cycle_iff cycle _).1 (refl, cycles),
        )
        refl

  new_billing_complete :
      (d : D)
      → IsAccepted d
      → new_billing user_id vendor_id email_id number invoice amount currency date cycle name items
        ≡ ok (built d)
  new_billing_complete d a =
      construct d a.number_filled a.amount_valid a.currency_known a.cycle_known
      ∙ rw (validate-built d a) refl

  parts_pass :
      (b : Billing F D)
      → new_billing user_id vendor_id email_id number invoice amount currency date cycle name items
        ≡ ok b
      → (d : D) × (is_empty (trim_space number) ≡ false)
        × (normalize_amount amount ≡ ok d)
        × (c : Text) × (normalize_currency currency ≡ ok c)
        × (p : Text) × (new_payment_cycle cycle ≡ ok p)
  unfolding new_billing BillingNumber.new_billing_number Money.new_money
  parts_pass b h = elim (Outcome-cases (normalize_amount {D = D} amount)) [
    | inr (e, refused) ↦ absurd (ground (arith, new_invoice_number_lem invoice))
    | inl (d, valid) ↦ elim (Outcome-cases (normalize_currency currency)) [
      | inr (e, refused) ↦ absurd (ground (arith, new_invoice_number_lem invoice))
      | inl (c, known) ↦ elim (Outcome-cases (new_payment_cycle cycle)) [
        | inr (e, refused) ↦ absurd (ground (arith, new_invoice_number_lem invoice))
        | inl (p, cycles) ↦ (d, ground arith, valid, c, known, p, cycles)
      ]
    ]
  ]

  new_billing_sound :
      (b : Billing F D)
      → new_billing user_id vendor_id email_id number invoice amount currency date cycle name items
        ≡ ok b
      → (d : D) × IsAccepted d × (b ≡ built d)
  new_billing_sound b h =
      let (d, full, valid, c, known, p, cycles) = parts_pass b h in
      let is_known = ((normalize_currency_iff currency c).0 known) in
      let is_cycle = ((new_payment_cycle_iff cycle p).0 cycles) in
      let currency_known = rw is_known.0 at is_known.1 in
      let cycle_known = rw is_cycle.0 at is_cycle.1 in
      let (validated, same) =
        >>-eq-ok (validate (built d)) (ok (built d))
          (sym (construct d full valid currency_known cycle_known) ∙ h) in
      let (user, vendor, email, form, dated) = validated_facts d validated in
      let accepted : IsAccepted d = record {
        user = user;
        vendor = vendor;
        email = email;
        number_filled = full;
        invoice_form = (validate_invoice_iff invoice).0 form;
        amount_valid = valid;
        currency_known = currency_known;
        date_set = dated;
        cycle_known = cycle_known;
      } in
      (d, accepted, sym (eq_of_ok same))

  -- NewBilling succeeds exactly on arguments with non-zero ids, a number that is not blank, an
  -- invoice number that is absent or well formed, a valid amount, a known currency and cycle, and
  -- no zero date; the result is then `built d`, for the decimal `d` of the amount.
  pub new_billing_iff :
      (b : Billing F D)
      → (new_billing user_id vendor_id email_id number invoice amount currency date cycle name items
          ≡ ok b)
        ↔ ((d : D) × IsAccepted d × (b ≡ built d))
  new_billing_iff b = (new_billing_sound b, λ h. rw h.2 (new_billing_complete h.0 h.1))

-- What NewBilling returns validates, and belongs to the given user.
pub new_billing-validated :
    {F D : Type 0} ⦃fl : Floats F⦄ ⦃dec : Decimals D⦄ ⦃table : CaseTable⦄
    (user_id vendor_id email_id : ℕ) (number : Text) (invoice : Option Text) (amount : F)
    (currency : Text) (date : Option Time) (cycle : Text) (name : Option Text)
    (items : List (LineItemInput F)) (b : Billing F D)
    → new_billing user_id vendor_id email_id number invoice amount currency date cycle name items
      ≡ ok b
    → (validate b ≡ ok tt) × (b.user_id ≡ user_id)
new_billing-validated user_id vendor_id email_id number invoice amount currency date cycle name
      items b h =
    let (d, a, same) =
      new_billing_sound user_id vendor_id email_id number invoice amount currency date cycle name
        items b h in
    (
      rw same (
          validate-built user_id vendor_id email_id number invoice amount currency date cycle name
            items d a),
      rw same refl,
    )
