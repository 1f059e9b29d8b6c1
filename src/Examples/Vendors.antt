-- ===== src/Examples/Vendors.antt =====
-- The theorems of Domain.VendorResolution at concrete candidates.
use mathlib.Core.List.{Memᴰ}
use billingrse_backend.Prelude.{ℕ, ◌≡◌, ◌↔◌, ◌⊎◌, refl, none, some, List, [], ◌∷◌}
use billingrse_backend.GoText.{Text, txt, to_lower, fields}
use billingrse_backend.Domain.Vendor.{Vendor}
use billingrse_backend.Domain.VendorResolution.{
  Candidate, newer, select_latest, latest_from, subject_keyword, sort_candidates, insert_sorted,
  goes_before, scan_longest, contains, resolve_subject_keyword, normalize_loose_text,
}
use billingrse_backend.Domain.VendorResolution.Latest.{IsNewest, select_latest-IsNewest}
use billingrse_backend.Domain.VendorResolution.Keyword.{
  IsWinner, IsAmbiguous, resolve_subject_keyword-IsWinner, resolve_subject_keyword-none_iff,
}
use billingrse_backend.Domain.VendorResolution.LooseText.{
  normalize_loose_text-eq_iff, normalize_loose_text_idem,
}
use billingrse_backend.Examples.Instances.{ascii_table}

abbrev aws : Vendor
aws = record { id = 1; user_id = 7; name = txt "AWS" }

abbrev google : Vendor
google = record { id = 2; user_id = 7; name = txt "Google" }

abbrev keyword : ℕ → Text → ℕ → Vendor → Candidate
keyword id value created vendor = record {
  alias_id = id;
  alias_type = subject_keyword;
  alias_value = value;
  normalized_value = value;
  alias_created_at = record { instant = created; location = 0 };
  vendor = vendor;
}

abbrev candidates : List Candidate
candidates =
    keyword 1 (txt "cloud") 50 google
    ∷ keyword 2 (txt "web services") 30 aws
    ∷ keyword 3 (txt "amazon cloud") 40 aws
    ∷ []

latest_found : select_latest candidates ≡ some (keyword 1 (txt "cloud") 50 google)
unfolding select_latest latest_from newer
latest_found = refl

select_latest-IsNewest_example :
    Memᴰ (keyword 1 (txt "cloud") 50 google) candidates
    × IsNewest (keyword 1 (txt "cloud") 50 google) candidates
select_latest-IsNewest_example =
    select_latest-IsNewest candidates (keyword 1 (txt "cloud") 50 google) latest_found

keyword_found : resolve_subject_keyword candidates ≡ some aws
unfolding resolve_subject_keyword sort_candidates insert_sorted goes_before scan_longest contains
    newer
keyword_found = refl

resolve_subject_keyword-IsWinner_example :
    (w : Candidate) × IsWinner candidates w × (w.vendor ≡ aws)
resolve_subject_keyword-IsWinner_example =
    resolve_subject_keyword-IsWinner candidates aws keyword_found

resolve_subject_keyword-none_iff_example :
    (resolve_subject_keyword candidates ≡ none) ↔ ((candidates ≡ []) ⊎ IsAmbiguous candidates)
resolve_subject_keyword-none_iff_example = resolve_subject_keyword-none_iff candidates

normalize_loose_text-eq_iff_example :
    (normalize_loose_text (txt " Amazon  Web") ≡ normalize_loose_text (txt "amazon web"))
    ↔ (fields (to_lower (txt " Amazon  Web")) ≡ fields (to_lower (txt "amazon web")))
normalize_loose_text-eq_iff_example =
    normalize_loose_text-eq_iff (txt " Amazon  Web") (txt "amazon web")

normalize_loose_text_idem_example :
    normalize_loose_text (normalize_loose_text (txt " Amazon  Web"))
    ≡ normalize_loose_text (txt " Amazon  Web")
normalize_loose_text_idem_example = normalize_loose_text_idem (txt " Amazon  Web")
