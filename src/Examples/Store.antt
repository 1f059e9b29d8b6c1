-- ===== src/Examples/Store.antt =====
-- The theorems of BillingStore on a concrete database.
use billingrse_backend.Prelude.{
  ℕ, suc, ◌≡◌, refl, Bool, true, false, ◌&&◌, Option, none, some, List, [], ◌∷◌, Outcome, ok, err,
  length, ◌==◌, ==_refl, if◌then◌else◌,
}
use billingrse_backend.GoText.{
  Text, txt, eq_text, trim_space, trim_left, trim_right, is_space, to_upper, to_lower, byte_length,
}
use billingrse_backend.GoText.Trim.{eq_text_refl}
use billingrse_backend.GoContext.{live}
use billingrse_backend.Domain.Billing.{Billing}
use billingrse_backend.Domain.Billing
use billingrse_backend.Domain.BillingNumber
use billingrse_backend.Domain.Money
use billingrse_backend.Domain.Money.{normalize_amount_decimal, normalize_currency}
use billingrse_backend.Domain.PaymentCycle
use billingrse_backend.Domain.PaymentCycle.{normalize_payment_cycle}
use billingrse_backend.Domain.LineItem.{is_empty_item, normalize_item, normalize_items}
use billingrse_backend.Domain.Optional.{
  normalize_optional_string, normalize_optional_upper_string, normalize_optional_time,
}
use billingrse_backend.BillingStage.Types.{SaveResult}
use billingrse_backend.BillingStore.Types.{BillingRecord, Database}
use billingrse_backend.BillingStore.{
  save_if_absent, save_validated, create_absent, resolve_billing_summary_date, save_line_items,
  line_item_records, decimal_ptr, transaction, invoice_number_ptr,
}
use billingrse_backend.BillingStore.Index.{IsIndexed}
use billingrse_backend.BillingStore.Once.{save_if_absent-stored, save_if_absent_twice}
use billingrse_backend.Examples.Instances.{ascii_table, literal_floats, thousandths}

record Entry : Type 0 where
  user : ℕ
  vendor : ℕ
  number : Text
  id : ℕ

abbrev lookup_in : ℕ → ℕ → Text → List Entry → Option ℕ
lookup_in user vendor number [] = none
lookup_in user vendor number (e ∷ es) =
    let rest = lookup_in user vendor number es in
    if e.user == user && e.vendor == vendor && eq_text e.number number then some e.id else rest

-- The only error is that of a duplicated key.
abbrev insert_if_none : BillingRecord → List Entry → Option ℕ → Outcome Bool ℕ × List Entry
insert_if_none r es (some id) = (err true, es)
insert_if_none r es none = (
  ok (suc (length es)),
  record { user = r.user_id; vendor = r.vendor_id; number = r.billing_number; id = suc (length es) }
      ∷ es,
)

abbrev from_lookup : Option ℕ → Outcome Bool ℕ
from_lookup none = err false
from_lookup (some id) = ok id

abbrev memory : Database ℕ (List Entry) Bool
memory = record {
  create_billing =
      λ r es. insert_if_none r es (lookup_in r.user_id r.vendor_id r.billing_number es);
  create_line_items = λ rows es. (ok tt, es);
  find_received_at =
      λ email_id user_id es. ok (record { instant = 63850000000000000000; location = 0 });
  find_by_identity = λ user vendor number es. from_lookup (lookup_in user vendor number es);
  commit = λ es. (ok tt, es);
  is_duplicated_key = λ e. e;
  is_mysql_duplicate = λ e. e;
  now = λ es. record { instant = 63860000000000000000; location = 9 };
}

memory_unique :
    (r : BillingRecord) (es : List Entry) (found : Option ℕ) (id : ℕ)
    → (insert_if_none r es found).0 ≡ ok id
    → found ≡ none
memory_unique r es none id h = refl
memory_unique r es (some i) id h = cc

memory_inserted :
    (r : BillingRecord) (es : List Entry) (found : Option ℕ) (id : ℕ)
    → (insert_if_none r es found).0 ≡ ok id
    → lookup_in r.user_id r.vendor_id r.billing_number (insert_if_none r es found).1 ≡ some id
memory_inserted r es none id h =
    rw (==_refl r.user_id, ==_refl r.vendor_id, eq_text_refl r.billing_number) cc
memory_inserted r es (some i) id h = cc

memory_found : (found : Option ℕ) (id : ℕ) → from_lookup found ≡ ok id → found ≡ some id
memory_found none id h = cc
memory_found (some i) id h = cc

memory-IsIndexed : IsIndexed memory
memory-IsIndexed = record {
  lookup = lookup_in;
  unique = λ r es id h. memory_unique r es _ id h;
  inserted = λ r es id h. memory_inserted r es _ id h;
  rows_keep = λ rs es user vendor number. refl;
  commit_keeps = λ es user vendor number. refl;
  found = λ user vendor number es id h. memory_found _ id h;
}

abbrev receipt_billing : Billing Text ℕ
receipt_billing = record {
  id = 0;
  user_id = 7;
  vendor_id = 3;
  email_id = 5;
  product_name_display = none;
  billing_number = txt "R-1";
  invoice_number = [];
  money = record { amount = 450000; currency = txt "JPY" };
  billing_date = none;
  payment_cycle = txt "one_time";
  line_items =
      record {
        product_name_raw = none;
        product_name_display = some (txt "Coffee");
        amount = some (txt "450");
        currency = some (txt "JPY");
      }
      ∷ [];
}

abbrev first_saved : SaveResult
first_saved = record { billing_id = 1; duplicate = false }

abbrev second_saved : SaveResult
second_saved = record { billing_id = 1; duplicate = true }

-- What the repository computes with.
store_opened : Unit {0}
unfolding save_if_absent save_validated create_absent resolve_billing_summary_date save_line_items
    line_item_records decimal_ptr transaction invoice_number_ptr Billing.validate
    BillingNumber.validate Money.validate normalize_amount_decimal normalize_currency
    PaymentCycle.validate normalize_payment_cycle normalize_items normalize_item is_empty_item
    normalize_optional_string normalize_optional_upper_string normalize_optional_time eq_text
    trim_space trim_left trim_right is_space to_upper to_lower byte_length
store_opened = tt

saved_first : (save_if_absent live (some memory) receipt_billing []).0 ≡ ok first_saved
unfolding store_opened
saved_first = refl

saved_second :
    (save_if_absent live
      (some memory)
      receipt_billing
      (save_if_absent live (some memory) receipt_billing []).1).0
    ≡ ok second_saved
unfolding store_opened
saved_second = refl

save_if_absent-stored_example :
    (lookup_in 7 3 (txt "R-1") [] ≡ none)
    × (lookup_in 7 3 (txt "R-1") (save_if_absent live (some memory) receipt_billing []).1 ≡ some 1)
unfolding memory-IsIndexed
save_if_absent-stored_example =
    save_if_absent-stored memory memory-IsIndexed live receipt_billing [] first_saved saved_first

save_if_absent_twice_example : second_saved ≡ record { billing_id = 1; duplicate = true }
save_if_absent_twice_example =
    save_if_absent_twice memory memory-IsIndexed live live receipt_billing receipt_billing []
      first_saved second_saved saved_first (refl, refl, refl) saved_second
