-- ===== src/Domain/VendorResolution.antt =====
-- The vendor resolution policy, internal/common/domain/vendor_resolution.go, but for the search
-- conditions.
pub mod Latest
pub mod Sorting
pub mod Scan
pub mod Keyword
pub mod LooseText
pub mod Search
use billingrse_backend.Prelude.{
  ℕ, suc, ◌+◌, Bool, true, false, not, ◌&&◌, ◌||◌, Option, none, some, List, [], ◌∷◌, err, length,
  is_nil, is_empty, ltb, ◌==◌, if◌then◌else◌,
}
use billingrse_backend.GoText.{Text, txt, trim_space, to_lower, fields, join, CaseTable}
use billingrse_backend.GoTime.{Time, after, equal}
use billingrse_backend.Domain.Errors.{Result, vendor_resolution_unresolved}
use billingrse_backend.Domain.Optional.{normalize_optional_string, string_value}
use billingrse_backend.Domain.Vendor
use billingrse_backend.Domain.Vendor.{Vendor}

abbrev pub name_exact : Text
name_exact = txt "name_exact"

abbrev pub sender_domain : Text
sender_domain = txt "sender_domain"

abbrev pub sender_name : Text
sender_name = txt "sender_name"

abbrev pub subject_keyword : Text
subject_keyword = txt "subject_keyword"

-- VendorResolution: `none` is a nil ResolvedVendor.
abbrev pub Resolution : Type 0
Resolution = Option Vendor

-- VendorResolution.Validate.
unfoldable pub validate : Resolution → Result (Unit {0})
validate none = err vendor_resolution_unresolved
validate (some vendor) = Vendor.validate vendor

pub record Input : Type 0 where
  pub candidate_vendor_name : Option Text
  pub subject : Text
  pub from : Text
  pub to : List Text

pub record FetchPlan : Type 0 where
  pub user_id : ℕ
  pub name_exact_value : Text
  pub sender_domain_value : Text
  pub sender_name_value : Text
  pub subject_value : Text

pub record Candidate : Type 0 where
  pub alias_id : ℕ
  pub alias_type : Text
  pub alias_value : Text
  pub normalized_value : Text
  pub alias_created_at : Time
  pub vendor : Vendor

pub record Facts : Type 0 where
  pub name_exact_candidates : List Candidate
  pub sender_domain_candidates : List Candidate
  pub sender_name_candidates : List Candidate
  pub subject_keyword_candidates : List Candidate

pub record RegistrationAlias : Type 0 where
  pub alias_type : Text
  pub alias_value : Text
  pub normalized_value : Text

pub record RegistrationPlan : Type 0 where
  pub user_id : ℕ
  pub vendor_name : Text
  pub normalized_vendor_name : Text
  pub aliases : List RegistrationAlias

pub record Decision : Type 0 where
  pub resolution : Resolution
  pub matched_by : Text

-- normalizeStrings.
unfoldable pub normalize_strings : List Text → List Text
normalize_strings [] = []
normalize_strings (value ∷ values) =
    let rest = normalize_strings values in
    if is_empty (trim_space value) then rest else trim_space value ∷ rest

-- VendorResolutionInput.Normalize.
unfoldable pub normalize : Input → Input
normalize input = record input {
  candidate_vendor_name = normalize_optional_string input.candidate_vendor_name;
  subject = trim_space input.subject;
  from = trim_space input.from;
  to = normalize_strings input.to;
}

-- newerAliasCandidate.
unfoldable pub newer : Candidate → Candidate → Bool
newer left right =
    if not (equal left.alias_created_at right.alias_created_at)
    then after left.alias_created_at right.alias_created_at
    else ltb right.alias_id left.alias_id

-- The loop of selectLatestAliasCandidate.
unfoldable pub latest_from : Candidate → List Candidate → Candidate
latest_from best [] = best
latest_from best (candidate ∷ candidates) =
    latest_from (if newer candidate best then candidate else best) candidates

unfoldable pub select_latest : List Candidate → Option Candidate
select_latest [] = none
select_latest (candidate ∷ candidates) = some (latest_from candidate candidates)

-- utf8.RuneCountInString of the keyword.
abbrev pub keyword_length : Candidate → ℕ
keyword_length c = length c.normalized_value

-- The order that resolveSubjectKeyword sorts by.
unfoldable pub goes_before : Candidate → Candidate → Bool
unfolding newer
goes_before a b =
    if not (keyword_length a == keyword_length b)
    then ltb (keyword_length b) (keyword_length a)
    else newer a b

-- sort.SliceStable, as a stable insertion sort.
unfoldable pub insert_sorted : Candidate → List Candidate → List Candidate
insert_sorted c [] = c ∷ []
insert_sorted c (d ∷ ds) =
    let rest = insert_sorted c ds in if goes_before d c then d ∷ rest else c ∷ d ∷ ds

unfoldable pub sort_candidates : List Candidate → List Candidate
sort_candidates [] = []
sort_candidates (c ∷ cs) = insert_sorted c (sort_candidates cs)

-- The keys of a Go map of type map[uint]struct{}.
unfoldable pub contains : ℕ → List ℕ → Bool
contains id [] = false
contains id (i ∷ is) = i == id || contains id is

abbrev pub add_id : ℕ → List ℕ → List ℕ
add_id id ids = if contains id ids then ids else id ∷ ids

-- The loop over the sorted candidates: the vendors of the longest keywords, and the latest one.
unfoldable pub scan_longest : ℕ → List ℕ → Candidate → List Candidate → List ℕ × Candidate
scan_longest longest ids selected [] = (ids, selected)
scan_longest longest ids selected (c ∷ cs) =
    let rest =
      scan_longest longest (add_id c.vendor.id ids) (if newer c selected then c else selected) cs in
    if not (keyword_length c == longest) then (ids, selected) else rest

abbrev pub unambiguous : List ℕ × Candidate → Option Vendor
unambiguous (ids, selected) = if ltb 1 (length ids) then none else some selected.vendor

abbrev pub resolve_sorted : List Candidate → Option Vendor
resolve_sorted [] = none
resolve_sorted (c ∷ cs) = unambiguous (scan_longest (keyword_length c) [] c (c ∷ cs))

-- resolveSubjectKeyword.
unfoldable pub resolve_subject_keyword : List Candidate → Option Vendor
resolve_subject_keyword candidates = resolve_sorted (sort_candidates candidates)

abbrev pub resolved_decision : Vendor → Text → Decision
resolved_decision vendor matched_by = record { resolution = some vendor; matched_by = matched_by }

-- `if candidate := …; candidate != nil { return … }`, else what follows.
abbrev pub decide_by : Option Candidate → Text → Decision → Decision
decide_by none matched_by next = next
decide_by (some candidate) matched_by next = resolved_decision candidate.vendor matched_by

abbrev pub decide_by_subject : Option Vendor → Decision
decide_by_subject none = record { resolution = none; matched_by = [] }
decide_by_subject (some vendor) = resolved_decision vendor subject_keyword

-- VendorResolutionPolicy.Resolve.
unfoldable pub resolve : Facts → Decision
resolve facts = decide_by (select_latest facts.name_exact_candidates) name_exact (
    decide_by (select_latest facts.sender_domain_candidates) sender_domain (
      decide_by (select_latest facts.sender_name_candidates) sender_name
        (decide_by_subject (resolve_subject_keyword facts.subject_keyword_candidates))))

-- VendorResolutionPolicy.ResolveRegisteredVendor.
unfoldable pub resolve_registered_vendor : Vendor → Decision
resolve_registered_vendor vendor = resolved_decision vendor name_exact

module _ ⦃table : CaseTable⦄ where
  unfoldable pub normalize_loose_text : Text → Text
  normalize_loose_text value =
      if is_empty value then [] else join (txt " ") (fields (to_lower (trim_space value)))

  -- VendorResolutionPolicy.BuildRegistrationPlan, which leaves UserID zero.
  unfoldable pub build_registration_plan : Input → Decision → Option RegistrationPlan
  build_registration_plan input decision =
      let candidate_name = string_value (normalize input).candidate_vendor_name in
      let normalized_name = normalize_loose_text candidate_name in
      if not (is_nil decision.resolution)
      then none
      else if is_empty normalized_name
      then none
      else some (record {
        user_id = 0;
        vendor_name = candidate_name;
        normalized_vendor_name = normalized_name;
        aliases =
            record {
              alias_type = name_exact;
              alias_value = candidate_name;
              normalized_value = normalized_name;
            }
            ∷ [];
      })
