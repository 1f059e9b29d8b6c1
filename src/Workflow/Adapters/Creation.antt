-- ===== src/Workflow/Adapters/Creation.antt =====
-- What the billing stage builds from an item of the billingeligibility stage.
use billingrse_backend.Prelude.{
  ℕ, ◌≡◌, ◌≢◌, refl, sym, ap, ◌∙◌, false, Option, none, some, [], ◌∷◌, map, ok, is_empty, inl, inr,
  arith,
}
use billingrse_backend.GoText.{Text, trim_space, to_upper, to_lower, CaseTable}
use billingrse_backend.GoText.Trim.{trim_space_idem}
use billingrse_backend.GoTime.{Time}
use billingrse_backend.Numbers.{Floats, Decimals}
use billingrse_backend.Domain.InvoiceNumber.{normalize_invoice_number}
use billingrse_backend.Domain.Money.Currency.{IsCurrency, is_empty-to_upper}
use billingrse_backend.Domain.PaymentCycle.{normalize_payment_cycle}
use billingrse_backend.Domain.PaymentCycle.Values.{IsCycle}
use billingrse_backend.Domain.Billing.{Billing, is_zero_date}
use billingrse_backend.Domain.Billing.InvoiceForm.{IsOptionalInvoice, invoice_text}
use billingrse_backend.Domain.Billing.Construction.{built, new_billing_iff}
use billingrse_backend.EligibilityStage.Types.{EligibleItem as StageItem}
use billingrse_backend.EligibilityStage.Billable.{IsBillable}
use billingrse_backend.BillingStage.{
  normalize, validate, build, clone_string, clone_time, to_line_item_input,
}
use billingrse_backend.Workflow.Types.{EligibleItem}
use billingrse_backend.Workflow.Adapters.{to_eligible, to_creation}

module _ ⦃table : CaseTable⦄ where
  known-filled : (c : Text) → IsCurrency (to_upper (trim_space c)) → is_empty (trim_space c) ≡ false
  known-filled c h =
      sym (is_empty-to_upper (trim_space c))
      ∙ elim h [ inl e ↦ ap is_empty e | inr e ↦ ap is_empty e ]

  is_empty-to_lower : (s : Text) → is_empty (to_lower s) ≡ is_empty s
  unfolding to_lower
  is_empty-to_lower [] = refl
  is_empty-to_lower (c ∷ s) = refl

  cycle-filled : (c : Text) → IsCycle (normalize_payment_cycle c) → is_empty (trim_space c) ≡ false
  unfolding normalize_payment_cycle
  cycle-filled c h =
      sym (is_empty-to_lower (trim_space c))
      ∙ elim h [ inl e ↦ ap is_empty e | inr e ↦ ap is_empty e ]

  invoice_text-clone_string : (n : Option Text) → invoice_text (clone_string n) ≡ invoice_text n
  unfolding normalize_invoice_number
  invoice_text-clone_string none = refl
  invoice_text-clone_string (some n) = rw trim_space_idem refl

is_zero_date-clone_time : (date : Option Time) → is_zero_date (clone_time date) ≡ is_zero_date date
is_zero_date-clone_time none = refl
is_zero_date-clone_time (some date) = refl

module _ {F : Type 0} ⦃table : CaseTable⦄ where
  -- What the eligibility stage does not check of an item: its invoice number is absent or well
  -- formed, and its date is not the zero time.
  abbrev pub IsUnchecked : EligibleItem F → Type 0
  IsUnchecked i =
      IsOptionalInvoice (invoice_text i.invoice_number) × (is_zero_date i.billing_date ≡ false)

module _ {F D : Type 0} ⦃fl : Floats F⦄ ⦃dec : Decimals D⦄ ⦃table : CaseTable⦄ where
  pub creation-valid :
      (i : StageItem F)
      → IsBillable D i
      → validate (normalize (to_creation (to_eligible i))) ≡ ok tt
  unfolding validate normalize to_creation to_eligible
  creation-valid i b =
      let number = b.number_filled in
      let currency = known-filled i.currency b.currency_known in
      let cycle = cycle-filled i.payment_cycle b.cycle_known in
      let p = b.parsed_email in let e = b.email in let v = b.vendor in ground arith

  pub creation-builds :
      (user_id : ℕ) (i : StageItem F)
      → user_id ≢ 0
      → IsBillable D i
      → IsUnchecked (to_eligible i)
      → (b : Billing F D) × (build user_id (normalize (to_creation (to_eligible i))) ≡ ok b)
  unfolding build normalize to_creation to_eligible normalize_payment_cycle
  creation-builds user_id i known c (form, dated) =
      let t = normalize (to_creation (to_eligible i)) in
      (
        built user_id t.vendor_id t.email_id t.billing_number t.invoice_number t.amount t.currency
            t.billing_date t.payment_cycle t.product_name_display
            (map to_line_item_input t.line_items) c.decimal,
        (new_billing_iff _ _ _ _ _ _ _ _ _ _ _ _).1 (
          c.decimal,
          record {
            user = known;
            vendor = c.vendor;
            email = c.email;
            number_filled = rw trim_space_idem c.number_filled;
            invoice_form = rw (invoice_text-clone_string i.invoice_number) form;
            amount_valid = c.amount_valid;
            currency_known = rw trim_space_idem c.currency_known;
            date_set = is_zero_date-clone_time i.billing_date ∙ dated;
            cycle_known = rw trim_space_idem c.cycle_known;
          },
          refl,
        ),
      )
