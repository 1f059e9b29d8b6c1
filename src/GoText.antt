-- ===== src/GoText.antt =====
-- Go strings and what the program uses of the packages strings, unicode and utf8. A string is the
-- list of its code points (it is valid UTF-8). The Unicode case tables are the instance argument
-- `CaseTable`.
pub mod Decimal
pub mod Trim
pub mod Words
pub mod Lower
use Prim.Native.Char.{code}
use Prim.Native.String.{String}
use billingrse_backend.Prelude.{
  ℕ, suc, ◌+◌, ◌-◌, ◌≡◌, ◌<◌, Bool, true, false, ◌&&◌, ◌||◌, List, [], ◌∷◌, ◌++◌, map, leb, ltb,
  ◌==◌, if◌then◌else◌, is_empty,
}

abbrev pub Text : Type 0
Text = List ℕ

-- A text literal.
abbrev pub txt : String → Text
txt String.[] = []
txt (String.◌∷◌ c s) = code c ∷ txt s

-- `s == t` on strings.
unfoldable pub eq_text : Text → Text → Bool
eq_text [] [] = true
eq_text (c ∷ s) (d ∷ t) = c == d && eq_text s t
eq_text _ _ = false

-- Whether a text is a key of a `map[string]struct{}`, as the list of its keys.
unfoldable pub has_key : Text → List Text → Bool
has_key t [] = false
has_key t (s ∷ keys) = eq_text t s || has_key t keys

-- unicode.IsSpace: the code points with the property White_Space.
unfoldable pub is_space : ℕ → Bool
is_space c =
    (leb 9 c && leb c 13)
    || c == 32
    || c == 0x85
    || c == 0xA0
    || c == 0x1680
    || (leb 0x2000 c && leb c 0x200A)
    || c == 0x2028
    || c == 0x2029
    || c == 0x202F
    || c == 0x205F
    || c == 0x3000

unfoldable pub trim_left : Text → Text
trim_left [] = []
trim_left (c ∷ s) = let rest = trim_left s in if is_space c then rest else c ∷ s

unfoldable pub trim_right : Text → Text
trim_right [] = []
trim_right (c ∷ s) = let r = trim_right s in if is_space c && is_empty r then [] else c ∷ r

-- strings.TrimSpace.
unfoldable pub trim_space : Text → Text
trim_space s = trim_right (trim_left s)

-- The number of bytes that UTF-8 needs for a code point.
abbrev pub rune_bytes : ℕ → ℕ
rune_bytes c = if ltb c 0x80 then 1 else if ltb c 0x800 then 2 else if ltb c 0x10000 then 3 else 4

-- `len(s)` counts bytes.
unfoldable pub byte_length : Text → ℕ
byte_length [] = 0
byte_length (c ∷ s) = rune_bytes c + byte_length s

-- A word of strings.FieldsFunc grows to the left if the next code point belongs to it.
abbrev pub grow : ℕ → Bool → List Text → List Text
grow c true (w ∷ ws) = (c ∷ w) ∷ ws
grow c _ ws = (c ∷ []) ∷ ws

abbrev pub starts_word : (ℕ → Bool) → Text → Bool
starts_word p [] = false
starts_word p (c ∷ s) = if p c then false else true

-- strings.FieldsFunc: the maximal runs of code points that are no separators.
unfoldable pub fields_func : (ℕ → Bool) → Text → List Text
fields_func p [] = []
fields_func p (c ∷ s) =
    let rest = fields_func p s in if p c then rest else grow c (starts_word p s) rest

-- strings.Fields.
unfoldable pub fields : Text → List Text
fields = fields_func is_space

-- strings.Join.
unfoldable pub join : Text → List Text → Text
join sep [] = []
join sep (w ∷ []) = w
join sep (w ∷ v ∷ ws) = w ++ (sep ++ join sep (v ∷ ws))

abbrev pub ascii_upper : ℕ → ℕ
ascii_upper c = if leb b'a' c && leb c b'z' then c - 32 else c

abbrev pub ascii_lower : ℕ → ℕ
ascii_lower c = if leb b'A' c && leb c b'Z' then c + 32 else c

-- unicode.ToUpper and unicode.ToLower, with what the Unicode tables guarantee.
pub record CaseTable : Type 0 where
  pub upper : ℕ → ℕ
  pub lower : ℕ → ℕ
  pub upper_ascii : (c : ℕ) → c < 128 → upper c ≡ ascii_upper c
  pub lower_ascii : (c : ℕ) → c < 128 → lower c ≡ ascii_lower c
  pub upper_idem : (c : ℕ) → upper (upper c) ≡ upper c
  pub lower_idem : (c : ℕ) → lower (lower c) ≡ lower c
  pub is_space-upper : (c : ℕ) → is_space (upper c) ≡ is_space c
  pub is_space-lower : (c : ℕ) → is_space (lower c) ≡ is_space c

module _ ⦃table : CaseTable⦄ where
  -- strings.ToUpper.
  unfoldable pub to_upper : Text → Text
  to_upper s = map table.upper s

  -- strings.ToLower.
  unfoldable pub to_lower : Text → Text
  to_lower s = map table.lower s

unfoldable pub has_prefix : Text → Text → Bool
has_prefix s [] = true
has_prefix [] (d ∷ t) = false
has_prefix (c ∷ s) (d ∷ t) = c == d && has_prefix s t

-- strings.Contains.
unfoldable pub contains_text : Text → Text → Bool
contains_text [] t = is_empty t
contains_text (c ∷ s) t = has_prefix (c ∷ s) t || contains_text s t
