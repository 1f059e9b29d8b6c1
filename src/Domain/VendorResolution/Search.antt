-- ===== src/Domain/VendorResolution/Search.antt =====
-- The search conditions of the vendor resolution policy, BuildFetchPlan of
-- internal/common/domain/vendor_resolution.go. `parse_address` stands for net/mail.ParseAddress and
-- returns the name and the address that it finds.
use billingrse_backend.Prelude.{ℕ, Option, none, some, [], ◌∷◌, is_empty, ◌==◌, if◌then◌else◌}
use billingrse_backend.GoText.{Text, trim_space, to_lower, CaseTable}
use billingrse_backend.Domain.Optional.{string_value}
use billingrse_backend.Domain.VendorResolution.{Input, FetchPlan, normalize, normalize_loose_text}

abbrev pub in_front : ℕ → Option (Text × Text) → Option (Text × Text)
in_front c none = none
in_front c (some (before, after)) = some (c ∷ before, after)

-- strings.Index of one character, as the texts before and after its first occurrence.
unfoldable pub split_first : ℕ → Text → Option (Text × Text)
split_first mark [] = none
split_first mark (c ∷ s) =
    let rest = in_front c (split_first mark s) in if c == mark then some ([], s) else rest

abbrev pub or_here : ℕ → ℕ → Text → Option (Text × Text) → Option (Text × Text)
or_here mark c s none = if c == mark then some ([], s) else none
or_here mark c s (some (before, after)) = some (c ∷ before, after)

-- strings.LastIndex of one character, as the texts before and after its last occurrence.
unfoldable pub split_last : ℕ → Text → Option (Text × Text)
split_last mark [] = none
split_last mark (c ∷ s) = or_here mark c s (split_last mark s)

module _ ⦃table : CaseTable⦄ (parse_address : Text → Option (Text × Text)) where
  -- The text between "<" and the next ">", else the text if it has an "@", else "".
  abbrev pub bracketed : Text → Option (Text × Text) → Text
  bracketed whole none = plain whole (split_first b'@' whole)
    where
      plain : Text → Option (Text × Text) → Text
      plain whole none = []
      plain whole (some p) = to_lower whole
  bracketed whole (some p) = to_lower (trim_space p.0)

  abbrev pub after_open : Option (Text × Text) → Option (Text × Text)
  after_open none = none
  after_open (some (before, after)) = split_first b'>' after

  abbrev pub address_of : Text → Option (Text × Text) → Text
  address_of whole (some (name, address)) = to_lower (trim_space address)
  address_of whole none = bracketed whole (after_open (split_first b'<' whole))

  -- extractSenderAddress.
  unfoldable pub extract_sender_address : Text → Text
  extract_sender_address raw_from =
      if is_empty (trim_space raw_from)
      then []
      else address_of (trim_space raw_from) (parse_address (trim_space raw_from))

  abbrev pub domain_of : Option (Text × Text) → Text
  domain_of none = []
  domain_of (some (local, domain)) = if is_empty domain then [] else to_lower (trim_space domain)

  -- extractSenderDomain.
  unfoldable pub extract_sender_domain : Text → Text
  extract_sender_domain raw_from =
      if is_empty (extract_sender_address raw_from)
      then []
      else domain_of (split_last b'@' (extract_sender_address raw_from))

module _ (parse_address : Text → Option (Text × Text)) where
  abbrev pub before_open : Option (Text × Text) → Text
  before_open none = []
  before_open (some (before, after)) = if is_empty before then [] else trim_space before

  abbrev pub name_of : Text → Option (Text × Text) → Text
  name_of whole (some (name, address)) = trim_space name
  name_of whole none = before_open (split_first b'<' whole)

  -- extractSenderName.
  unfoldable pub extract_sender_name : Text → Text
  extract_sender_name raw_from =
      if is_empty (trim_space raw_from)
      then []
      else name_of (trim_space raw_from) (parse_address (trim_space raw_from))

module _ ⦃table : CaseTable⦄ (parse_address : Text → Option (Text × Text)) where
  -- VendorResolutionPolicy.BuildFetchPlan, which leaves UserID zero.
  unfoldable pub build_fetch_plan : Input → FetchPlan
  build_fetch_plan input =
      let normalized = normalize input in
      record {
        user_id = 0;
        name_exact_value = normalize_loose_text (string_value normalized.candidate_vendor_name);
        sender_domain_value = extract_sender_domain parse_address normalized.from;
        sender_name_value =
            normalize_loose_text (extract_sender_name parse_address normalized.from);
        subject_value = normalize_loose_text normalized.subject;
      }
