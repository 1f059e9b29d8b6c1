-- ===== src/Examples/Resolution.antt =====
-- The theorems of VendorResolutionStage at a concrete command.
use billingrse_backend.Prelude.{
  ℕ, zero, suc, ◌+◌, ◌≡◌, refl, Option, none, some, [], ◌∷◌, Outcome, ok, All, length,
}
use billingrse_backend.GoText.{
  Text, txt, eq_text, trim_space, trim_left, trim_right, is_space, to_upper, to_lower, fields_func,
  fields, join,
}
use billingrse_backend.GoContext.{live}
use billingrse_backend.Domain.Optional.{
  normalize_optional_string, normalize_optional_upper_string, normalize_optional_payment_cycle,
  normalize_optional_time,
}
use billingrse_backend.Domain.ParsedEmail
use billingrse_backend.Domain.ParsedEmail.{ParsedEmail, normalize_item, normalize_items}
use billingrse_backend.Domain.Vendor
use billingrse_backend.Domain.Vendor.{Vendor}
use billingrse_backend.Domain.VendorResolution
use billingrse_backend.Domain.VendorResolution.{
  Candidate, Facts, FetchPlan, RegistrationPlan, normalize_strings, select_latest, latest_from,
  newer, resolve_subject_keyword, sort_candidates, resolve, resolve_registered_vendor,
  normalize_loose_text, build_registration_plan, name_exact,
}
use billingrse_backend.Domain.VendorResolution.Search.{
  split_first, split_last, extract_sender_address, extract_sender_domain, extract_sender_name,
  build_fetch_plan,
}
use billingrse_backend.VendorResolutionStage.Types.{
  ResolutionTarget, Command, ResolvedItem, Result, normalize_input, invalid_resolution_target,
}
use billingrse_backend.VendorResolutionStage.Messages.{message_for_resolution_failure}
use billingrse_backend.VendorResolutionStage
use billingrse_backend.VendorResolutionStage.{
  Repositories, decided, validate, ensure_vendor_by_candidate_name, resolve_target, settle,
  settle_all, execute,
}
use billingrse_backend.VendorResolutionStage.Verdicts.{IsNamed, execute-IsNamed}
use billingrse_backend.Examples.Instances.{ascii_table}
use billingrse_backend.Examples.Stages.{receipt}

abbrev target : ℕ → ParsedEmail Text → ResolutionTarget Text
target id parsed = record {
  parsed_email_id = id;
  email_id = 5;
  external_message_id = txt "m-1";
  subject = txt "Receipt";
  from = txt "Shop <shop@example.com>";
  to = [];
  body_digest = txt "0f";
  parsed_email = parsed;
}

abbrev cafe : Vendor
cafe = record { id = 3; user_id = 7; name = txt "Cafe" }

abbrev no_facts : Facts
no_facts = record {
  name_exact_candidates = [];
  sender_domain_candidates = [];
  sender_name_candidates = [];
  subject_keyword_candidates = [];
}

abbrev known_facts : Facts
known_facts = record no_facts {
  name_exact_candidates =
      record {
        alias_id = 1;
        alias_type = name_exact;
        alias_value = txt "Cafe";
        normalized_value = txt "cafe";
        alias_created_at = record { instant = 1; location = 0 };
        vendor = cafe;
      }
      ∷ [];
}

-- The state is the number of registrations.
abbrev facts_of : ℕ → Facts
facts_of zero = no_facts
facts_of (suc n) = known_facts

abbrev fetch_facts : FetchPlan → ℕ → Outcome Text Facts × ℕ
fetch_facts plan n = (ok (facts_of n), n)

abbrev ensure_by_plan : RegistrationPlan → ℕ → Outcome Text (Option Vendor) × ℕ
ensure_by_plan plan n = (ok (some cafe), suc n)

-- net/mail.ParseAddress refuses every text of the example.
abbrev parse_address : Text → Option (Text × Text)
parse_address s = none

-- A candidate that is registered, the same one again, and an invalid input.
abbrev command : Command Text
command = record {
  user_id = 7;
  parsed_emails = target 1 receipt ∷ target 2 receipt ∷ target 0 receipt ∷ [];
}

-- What the stage computes with.
resolution_opened : Unit {0}
unfolding eq_text trim_space trim_left trim_right is_space to_upper to_lower fields_func fields join
    normalize_optional_string normalize_optional_upper_string normalize_optional_payment_cycle
    normalize_optional_time ParsedEmail.normalize normalize_item normalize_items Vendor.validate
    VendorResolution.normalize VendorResolution.validate normalize_strings select_latest latest_from
    newer resolve_subject_keyword sort_candidates resolve resolve_registered_vendor
    normalize_loose_text build_registration_plan split_first split_last extract_sender_address
    extract_sender_domain extract_sender_name build_fetch_plan VendorResolutionStage.normalize
    validate ensure_vendor_by_candidate_name resolve_target settle settle_all execute
resolution_opened = tt

abbrev item : ℕ → ResolvedItem
item id = record {
  parsed_email_id = id;
  email_id = 5;
  external_message_id = txt "m-1";
  vendor_id = 3;
  vendor_name = txt "Cafe";
  matched_by = name_exact;
}

abbrev result : Result
result = record {
  resolved_items = item 1 ∷ item 2 ∷ [];
  resolved_count = 2;
  unresolved_items = [];
  unresolved_count = 0;
  failures =
      record {
        parsed_email_id = 0;
        email_id = 5;
        external_message_id = txt "m-1";
        stage = normalize_input;
        code = invalid_resolution_target;
        message =
            message_for_resolution_failure (VendorResolutionStage.normalize (target 0 receipt))
              invalid_resolution_target;
      }
      ∷ [];
}

stage_runs :
    execute parse_address live (some fetch_facts) (some ensure_by_plan) command 0 ≡ (ok result, 1)
unfolding resolution_opened
stage_runs = refl

execute-IsNamed_example :
    ((result.resolved_count ≡ length result.resolved_items)
      × (result.unresolved_count ≡ length result.unresolved_items))
    × (length result.resolved_items + (length result.unresolved_items + length result.failures) ≡ 3)
    × All IsNamed result.resolved_items
execute-IsNamed_example =
    execute-IsNamed parse_address live (some fetch_facts) (some ensure_by_plan) command 0 1 result
      stage_runs

abbrev repositories : Repositories ℕ Text
repositories = record { fetch_facts = fetch_facts; ensure_by_plan = ensure_by_plan }
