-- ===== src/Domain/Optional.antt =====
-- The helpers on optional strings of internal/common/domain/email.go. A pointer that may be nil is
-- an `Option`; a clone of a value is that value.
pub mod Idempotence
use billingrse_backend.Prelude.{
  ℕ, Bool, ◌||◌, Option, none, some, List, [], ◌∷◌, ◌==◌, if◌then◌else◌, is_empty,
}
use billingrse_backend.GoText.{
  Text, txt, trim_space, to_upper, to_lower, is_space, fields_func, join, CaseTable,
}
use billingrse_backend.GoTime.{Time, utc}

unfoldable pub normalize_optional_string : Option Text → Option Text
normalize_optional_string none = none
normalize_optional_string (some value) =
    let trimmed = trim_space value in if is_empty trimmed then none else some trimmed

unfoldable pub normalize_optional_time : Option Time → Option Time
normalize_optional_time none = none
normalize_optional_time (some value) = some (utc value)

-- `stringValue`: the text, or "" for nil.
abbrev pub string_value : Option Text → Text
string_value none = []
string_value (some value) = value

-- The separators between the parts of a payment cycle: '_', '-' and white space.
abbrev pub is_cycle_separator : ℕ → Bool
is_cycle_separator c = c == b'_' || c == b'-' || is_space c

abbrev pub join_parts : List Text → Option Text
join_parts [] = none
join_parts (part ∷ parts) = some (join (txt "_") (part ∷ parts))

module _ ⦃table : CaseTable⦄ where
  abbrev pub upper_value : Option Text → Option Text
  upper_value none = none
  upper_value (some value) = some (to_upper value)

  unfoldable pub normalize_optional_upper_string : Option Text → Option Text
  normalize_optional_upper_string value = upper_value (normalize_optional_string value)

  abbrev pub cycle_value : Option Text → Option Text
  cycle_value none = none
  cycle_value (some value) = join_parts (fields_func is_cycle_separator (to_lower value))

  unfoldable pub normalize_optional_payment_cycle : Option Text → Option Text
  normalize_optional_payment_cycle value = cycle_value (normalize_optional_string value)
