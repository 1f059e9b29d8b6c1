-- ===== src/MailAnalysis/Drafts/Bounds.antt =====
-- What SaveInput.Validate accepts (internal/mailanalysis/domain/parsed_email.go).
use billingrse_backend.Prelude.{
  ℕ, suc, ◌*◌, ap, sym, ◌∙◌, ◌≤◌, ◌≢◌, ◌≡◌, ◌↔◌, refl, Bool, true, false, ◌||◌, Option, none, some,
  List, [], ◌∷◌, All, Outcome, ok, err, ◌>>◌, fail_if, length, is_empty, ltb, ◌==◌, is_negative,
  >>-eq-ok, arith,
}
use billingrse_backend.GoText.{Text, txt, trim_space, byte_length}
use billingrse_backend.GoTime.{is_zero}
use billingrse_backend.Numbers.{Floats, FloatMath}
use billingrse_backend.Domain.ParsedEmail.{ParsedEmail, ParsedLineItem}
use billingrse_backend.MailAnalysis.Types.{SaveInput, in_line_item, in_parsed_email}
use billingrse_backend.MailAnalysis.Drafts.{
  validate_optional_string_bytes, wrap, fraction, validate_optional_amount, validate_line_item,
  validate_line_items, validate_parsed_email_bounds, validate_drafts, validate_save_input,
  parsed_email_amount_max_abs,
}

-- An absent text fits, and a text of at most `max` bytes.
abbrev pub Fits : ℕ → Option Text → Type 0
Fits max none = Unit
Fits max (some value) = byte_length value ≤ max

module _ {E : Type 0} where
  >>_iff :
      {P Q : Type 0} (m k : Outcome E (Unit {0}))
      → ((m ≡ ok tt) ↔ P)
      → ((k ≡ ok tt) ↔ Q)
      → ((m >> k) ≡ ok tt) ↔ (P × Q)
  >>_iff m k (p, p') (q, q') =
      (λ h. let (a, b) = >>-eq-ok m k h in (p a, q b), λ (a, b). rw (p' a) (q' b))

  fail_if_iff : (b : Bool) (e : E) → (fail_if b e ≡ ok tt) ↔ (b ≡ false)
  fail_if_iff true e = (λ h. cc, λ h. cc)
  fail_if_iff false e = (λ h. refl, λ h. refl)

  fail_if_zero_iff : (n : ℕ) (e : E) → (fail_if (n == 0) e ≡ ok tt) ↔ (n ≢ 0)
  fail_if_zero_iff n e = (λ h z. ground arith, λ h. ground arith)

  fail_if_above_iff : (max n : ℕ) (e : E) → (fail_if (ltb max n) e ≡ ok tt) ↔ (n ≤ max)
  fail_if_above_iff max n e = (λ h. ground arith, λ h. ground arith)

below_of_ltb : (m n : ℕ) → ltb m n ≡ false → n ≤ m
below_of_ltb m n h = ground arith

ltb_of_below : (m n : ℕ) → n ≤ m → ltb m n ≡ false
ltb_of_below m n h = ground arith

wrap_iff :
    {A B : Type 0} {P : Type 0} (f : A → B) (m : Outcome A (Unit {0}))
    → ((m ≡ ok tt) ↔ P)
    → (wrap f m ≡ ok tt) ↔ P
wrap_iff f (ok tt) (p, q) = (λ h. p refl, λ h. refl)
wrap_iff f (err e) (p, q) = (λ h. cc, λ h. absurd (let same = q h in cc))

Fits-iff :
    (field : Text) (value : Option Text) (max : ℕ)
    → (validate_optional_string_bytes field value max ≡ ok tt) ↔ Fits max value
unfolding validate_optional_string_bytes
Fits-iff field none max = (λ h. tt, λ h. refl)
Fits-iff field (some value) max = fail_if_above_iff max (byte_length value) _

-- What the code relies on of float64. Each finite value is a whole number of the smallest units, of
-- which `one` make up 1: `units` reads its absolute value. Comparison is exact, and
-- 999999999999999.999 is rounded to 10^15, the float64 nearest to it.
pub record IsReading {F : Type 0} ⦃fl : Floats F⦄ ⦃fm : FloatMath F⦄ (one : ℕ) (units : F → ℕ)
    : Type 0 where
  pub gt_abs :
      (x y : F)
      → (fl.is_nan x || fl.is_inf x) ≡ false
      → (fl.is_nan y || fl.is_inf y) ≡ false
      → fm.gt (fm.abs x) (fm.abs y) ≡ ltb (units y) (units x)
  pub limit_finite :
      (fl.is_nan (fm.literal parsed_email_amount_max_abs)
        || fl.is_inf (fm.literal parsed_email_amount_max_abs))
      ≡ false
  pub abs_limit :
      fm.abs (fm.literal parsed_email_amount_max_abs) ≡ fm.literal parsed_email_amount_max_abs
  pub units_limit : units (fm.literal parsed_email_amount_max_abs) ≡ 1000000000000000 * one

module _ {F : Type 0} ⦃fl : Floats F⦄ ⦃fm : FloatMath F⦄ (one : ℕ) (units : F → ℕ) where
  -- A finite amount of at most 10^15, which is, as float64 computes it, within 1e-9 of a whole number
  -- of thousandths.
  abbrev pub IsSaveable : Option F → Type 0
  IsSaveable none = Unit
  IsSaveable (some value) =
      ((fl.is_nan value || fl.is_inf value) ≡ false)
      × ((units value ≤ 1000000000000000 * one)
          × (fm.gt (fraction (fm.times value (fm.literal (txt "1000")))) (fm.literal (txt "1e-9"))
              ≡ false))

  abbrev pub IsItemInBounds : ParsedLineItem F → Type 0
  IsItemInBounds i =
      Fits 65535 i.product_name_raw
      × (Fits 255 i.product_name_display × (IsSaveable i.amount × (Fits 3 i.currency)))

  abbrev pub IsInBounds : ParsedEmail F → Type 0
  IsInBounds p =
      Fits 65535 p.product_name_raw
      × (Fits 255 p.product_name_display
          × (Fits 65535 p.vendor_name
              × (Fits 255 p.billing_number
                  × (Fits 14 p.invoice_number
                      × (Fits 3 p.currency
                          × (Fits 32 p.payment_cycle
                              × (IsSaveable p.amount
                                  × ((length p.line_items ≤ 200)
                                      × (All IsItemInBounds p.line_items)))))))))

module _ {F : Type 0} ⦃fl : Floats F⦄ ⦃fm : FloatMath F⦄ (one : ℕ) (units : F → ℕ)
    (reading : IsReading one units) where
  above_limit :
      (value : F)
      → (fl.is_nan value || fl.is_inf value) ≡ false
      → fm.gt (fm.abs value) (fm.literal parsed_email_amount_max_abs)
        ≡ ltb (1000000000000000 * one) (units value)
  above_limit value finite =
      ap (λ y. fm.gt (fm.abs value) y) (sym reading.abs_limit)
      ∙ reading.gt_abs value (fm.literal parsed_email_amount_max_abs) finite reading.limit_finite
      ∙ ap (λ n. ltb n (units value)) reading.units_limit

  amount_iff :
      (amount : Option F) → (validate_optional_amount amount ≡ ok tt) ↔ IsSaveable one units amount
  unfolding validate_optional_amount
  amount_iff none = (λ h. tt, λ h. refl)
  amount_iff (some value) =
      let (to, from) =
        >>_iff (fail_if (fl.is_nan value || fl.is_inf value) _) _ (fail_if_iff _ _)
          (>>_iff _ _ (fail_if_iff _ _) (fail_if_iff _ _)) in
      (
        λ h.
            let (finite, (small, scale)) = to h in
            (finite, (below_of_ltb _ _ (sym (above_limit value finite) ∙ small), scale)),
        λ (finite, (small, scale)).
            from (finite, (above_limit value finite ∙ ltb_of_below _ _ small, scale)),
      )

  line_item_iff :
      (i : ParsedLineItem F) → (validate_line_item i ≡ ok tt) ↔ IsItemInBounds one units i
  unfolding validate_line_item
  line_item_iff i =
      >>_iff _ _ (Fits-iff _ _ _)
        (>>_iff _ _ (Fits-iff _ _ _) (>>_iff _ _ (amount_iff i.amount) (Fits-iff _ _ _)))

  line_items_iff :
      (idx : ℕ) (is : List (ParsedLineItem F))
      → (validate_line_items idx is ≡ ok tt) ↔ All (IsItemInBounds one units) is
  unfolding validate_line_items
  line_items_iff idx [] = (λ h. tt, λ h. refl)
  line_items_iff idx (i ∷ is) =
      >>_iff _ _ (wrap_iff (in_line_item idx) _ (line_item_iff i)) (line_items_iff (suc idx) is)

  email_iff :
      (p : ParsedEmail F) → (validate_parsed_email_bounds p ≡ ok tt) ↔ IsInBounds one units p
  unfolding validate_parsed_email_bounds
  email_iff p = >>_iff _ _ (Fits-iff _ _ _) (
      >>_iff _ _ (Fits-iff _ _ _) (
        >>_iff _ _ (Fits-iff _ _ _) (
          >>_iff _ _ (Fits-iff _ _ _) (
            >>_iff _ _ (Fits-iff _ _ _) (
              >>_iff _ _ (Fits-iff _ _ _) (
                >>_iff _ _ (Fits-iff _ _ _) (
                  >>_iff _ _ (amount_iff p.amount) (
                    >>_iff _ _ (fail_if_above_iff 200 (length p.line_items) _)
                      (line_items_iff 0 p.line_items)))))))))

  drafts_iff :
      (idx : ℕ) (ps : List (ParsedEmail F))
      → (validate_drafts idx ps ≡ ok tt) ↔ All (IsInBounds one units) ps
  unfolding validate_drafts
  drafts_iff idx [] = (λ h. tt, λ h. refl)
  drafts_iff idx (p ∷ ps) =
      >>_iff _ _ (wrap_iff (in_parsed_email idx) _ (email_iff p)) (drafts_iff (suc idx) ps)

  -- Over a float64 whose comparison is exact and to which 999999999999999.999 is 10^15,
  -- SaveInput.Validate accepts exactly the inputs with a user, an e-mail, a run, a position base that
  -- is not negative, a time and a prompt version, all of whose drafts have texts of at most the byte
  -- lengths of the columns, at most 200 line items, and amounts that are absent or finite, of at most
  -- 10^15, and, as float64 computes it, within 1e-9 of a whole number of thousandths.
  pub validate_save_input_iff :
      (i : SaveInput F)
      → (validate_save_input i ≡ ok tt) ↔ (
          (i.user_id ≢ 0)
          × ((i.email_id ≢ 0)
              × ((is_empty (trim_space i.analysis_run_id) ≡ false)
                  × ((is_negative i.position_base ≡ false)
                      × ((is_zero i.extracted_at ≡ false)
                          × ((is_empty (trim_space i.prompt_version) ≡ false)
                              × (All (IsInBounds one units) i.parsed_emails)))))))
  unfolding validate_save_input
  validate_save_input_iff i = >>_iff _ _ (fail_if_zero_iff i.user_id _) (
      >>_iff _ _ (fail_if_zero_iff i.email_id _) (
        >>_iff _ _ (fail_if_iff _ _) (
          >>_iff _ _ (fail_if_iff _ _) (
            >>_iff _ _ (fail_if_iff _ _)
              (>>_iff _ _ (fail_if_iff _ _) (drafts_iff 0 i.parsed_emails))))))
