-- ===== src/Text.antt =====
-- The text operations of Rust's standard library that the parsers use. A text is its list of
-- characters, as code points.
pub mod Cuts
pub mod Search
pub mod Decimal
use Prim.Native.Char.{code}
use Prim.Native.String.{String}
use range_porter.Prelude.{
  ℕ, ◌+◌, ◌-◌, ◌*◌, ◌^◌, Bool, true, false, ◌&&◌, ◌||◌, List, [], ◌∷◌, Option, none, some, ltb, leb,
  ◌==◌, if◌then◌else◌,
}

abbrev pub Text : Type 0
Text = List ℕ

-- The characters of a literal.
abbrev pub codes : String → Text
codes String.[] = []
codes (String.◌∷◌ c s) = code c ∷ codes s

-- `char::is_whitespace`: the code points with the property White_Space.
unfoldable pub is_whitespace : ℕ → Bool
is_whitespace c =
    (leb 9 c && leb c 13)
    || c == 32
    || c == 0x85
    || c == 0xA0
    || c == 0x1680
    || (leb 0x2000 c && leb c 0x200A)
    || c == 0x2028
    || c == 0x2029
    || c == 0x202F
    || c == 0x205F
    || c == 0x3000

unfoldable pub is_empty : Text → Bool
is_empty [] = true
is_empty (c ∷ s) = false

trim_start : Text → Text
trim_start [] = []
trim_start (c ∷ s) = let rest = trim_start s in if is_whitespace c then rest else c ∷ s

keep_end : ℕ → Text → Text
keep_end c [] = if is_whitespace c then [] else c ∷ []
keep_end c (d ∷ s) = c ∷ d ∷ s

trim_end : Text → Text
unfolding keep_end
trim_end [] = []
trim_end (c ∷ s) = keep_end c (trim_end s)

-- `str::trim`.
unfoldable pub trim : Text → Text
unfolding trim_start trim_end is_whitespace
trim s = trim_end (trim_start s)

add_to_first : ℕ → List Text → List Text
add_to_first c [] = (c ∷ []) ∷ []
add_to_first c (p ∷ ps) = (c ∷ p) ∷ ps

-- `str::split` at a character: every text has at least one part.
unfoldable pub split : ℕ → Text → List Text
unfolding add_to_first
split sep [] = [] ∷ []
split sep (c ∷ s) = let rest = split sep s in if c == sep then [] ∷ rest else add_to_first c rest

-- `str::split_once` at a character.
unfoldable pub split_once : ℕ → Text → Option (Text × Text)
split_once sep [] = none
split_once sep (c ∷ s) =
    let rest = split_once sep s in
    if c == sep then some ([], s) else elim rest [ none ↦ none | some (a, b) ↦ some (c ∷ a, b) ]

-- `str::rsplit_once` at a character.
unfoldable pub rsplit_once : ℕ → Text → Option (Text × Text)
rsplit_once sep [] = none
rsplit_once sep (c ∷ s) = elim (rsplit_once sep s) [
  | some (a, b) ↦ some (c ∷ a, b)
  | none ↦ if c == sep then some ([], s) else none
]

-- `str::strip_prefix` with a character.
unfoldable pub strip_prefix : ℕ → Text → Option Text
strip_prefix prefix [] = none
strip_prefix prefix (c ∷ s) = if c == prefix then some s else none

-- `str::find` of a character: the position of its first occurrence.
unfoldable pub find : ℕ → Text → Option ℕ
find wanted [] = none
find wanted (c ∷ s) =
    let rest = find wanted s in
    if c == wanted then some 0 else elim rest [ none ↦ none | some i ↦ some (i + 1) ]

abbrev pub max_u16 : ℕ
max_u16 = 2 ^ 16 - 1

is_digit : ℕ → Bool
is_digit c = leb b'0' c && leb c b'9'

-- The digit loop of `u16::from_str`: a digit more, or an error at overflow or at another character.
scan_u16 : ℕ → Text → Option ℕ
unfolding is_digit
scan_u16 n [] = some n
scan_u16 n (c ∷ s) =
    let m = n * 10 + (c - b'0') in
    let rest = scan_u16 m s in if is_digit c then if leb m max_u16 then rest else none else none

digits_u16 : Text → Option ℕ
unfolding scan_u16
digits_u16 [] = none
digits_u16 (c ∷ s) = scan_u16 0 (c ∷ s)

-- `str::parse::<u16>`: an optional `+`, then at least one decimal digit, below 2 ^ 16.
unfoldable pub parse_u16 : Text → Option ℕ
unfolding digits_u16
parse_u16 [] = none
parse_u16 (c ∷ s) = if c == b'+' then digits_u16 s else digits_u16 (c ∷ s)
