-- ===== src/Strings.antt =====
-- What the program uses of Go's packages strings, unicode and strconv. A string is the list of its
-- runes: the program's texts are valid UTF-8, and an operation on bytes (a length, a slice at a
-- position found by a search for ASCII) agrees with the one on runes.
pub mod CaseRange
pub mod UpperTable
pub mod LowerTable
pub mod Case
pub mod Decimal
pub mod Atoi
pub mod Equal
pub mod Index
pub mod Names
pub mod Trim
pub mod Split
pub mod Search
use Prim.Native.Char.{code}
use querylynx.Base.Int.{ℤ, pos, negsuc}
use CaseRange.{map_rune}
use UpperTable.{upper_table}
use LowerTable.{lower_table}
use querylynx.Base.{
  ℕ, zero, suc, ◌+◌, ◌-◌, ◌/◌, ◌%◌, String, Bool, true, false, not, ◌&&◌, ◌||◌, Option, none, some,
  List, [], ◌∷◌, ◌++◌, map, ltb, leb, ◌==◌, if◌then◌else◌, is_nil, drop, length,
}

abbrev pub Text : Type 0
Text = List ℕ

-- The runes of a literal.
abbrev pub codes : String → Text
codes String.[] = []
codes (String.◌∷◌ c s) = code c ∷ codes s

-- unicode.IsSpace
unfoldable pub is_space : ℕ → Bool
is_space c =
    leb 9 c && leb c 13
    || c == 0x20
    || c == 0x85
    || c == 0xa0
    || c == 0x1680
    || leb 0x2000 c && leb c 0x200a
    || c == 0x2028
    || c == 0x2029
    || c == 0x202f
    || c == 0x205f
    || c == 0x3000

-- unicode.ToUpper and unicode.ToLower
unfoldable pub upper_rune : ℕ → ℕ
upper_rune c =
    if ltb c 128 then (if leb b'a' c && leb c b'z' then c - 32 else c) else map_rune upper_table c

unfoldable pub lower_rune : ℕ → ℕ
lower_rune c =
    if ltb c 128 then (if leb b'A' c && leb c b'Z' then c + 32 else c) else map_rune lower_table c

-- strings.ToUpper and strings.ToLower
unfoldable pub to_upper : Text → Text
to_upper = map upper_rune

unfoldable pub to_lower : Text → Text
to_lower = map lower_rune

-- s == t
unfoldable pub text_eq : Text → Text → Bool
text_eq [] [] = true
text_eq (x ∷ xs) (y ∷ ys) = x == y && text_eq xs ys
text_eq [] (y ∷ ys) = false
text_eq (x ∷ xs) [] = false

-- strings.TrimLeftFunc and strings.TrimRightFunc
module _ (p : ℕ → Bool) where
  unfoldable pub trim_left : Text → Text
  trim_left [] = []
  trim_left (c ∷ s) = let rest = trim_left s in if p c then rest else c ∷ s

  unfoldable pub trim_right : Text → Text
  trim_right [] = []
  trim_right (c ∷ s) = let rest = trim_right s in if p c && is_nil rest then [] else c ∷ rest

-- strings.TrimSpace
unfoldable pub trim_space : Text → Text
unfolding trim_left trim_right
trim_space s = trim_right is_space (trim_left is_space s)

-- strings.Trim(s, c) for a cutset of one rune
unfoldable pub trim : Text → ℕ → Text
unfolding trim_left trim_right
trim s c = trim_right (λ x. x == c) (trim_left (λ x. x == c) s)

-- strings.TrimSuffix(s, c) for a suffix of one rune
unfoldable pub trim_suffix : Text → ℕ → Text
trim_suffix [] c = []
trim_suffix (x ∷ []) c = if x == c then [] else x ∷ []
trim_suffix (x ∷ y ∷ s) c = x ∷ trim_suffix (y ∷ s) c

-- strings.Split(s, sep) for a separator of one rune: at least one part.
add_front : ℕ → List Text → List Text
add_front c [] = (c ∷ []) ∷ []
add_front c (part ∷ parts) = (c ∷ part) ∷ parts

unfoldable pub split : Text → ℕ → List Text
unfolding add_front
split [] sep = [] ∷ []
split (c ∷ s) sep = let parts = split s sep in if c == sep then [] ∷ parts else add_front c parts

-- strings.Fields; `field` is the field being read, if any.
abbrev pub add_field : Text → List Text → List Text
add_field [] fs = fs
add_field (c ∷ field) fs = (c ∷ field) ∷ fs

unfoldable pub fields_from : Text → Text → List Text
fields_from field [] = add_field field []
fields_from field (c ∷ s) = elim (is_space c) [
  | true ↦ add_field field (fields_from [] s)
  | false ↦ fields_from (field ++ c ∷ []) s
]

unfoldable pub fields : Text → List Text
unfolding fields_from
fields s = fields_from [] s

-- strings.Join
abbrev pub join_rest : Text → List Text → Text
join_rest sep [] = []
join_rest sep (p ∷ ps) = sep ++ (p ++ join_rest sep ps)

unfoldable pub join : List Text → Text → Text
join [] sep = []
join (p ∷ ps) sep = p ++ join_rest sep ps

-- strings.HasPrefix
unfoldable pub has_prefix : Text → Text → Bool
has_prefix s [] = true
has_prefix [] (y ∷ prefix) = false
has_prefix (x ∷ s) (y ∷ prefix) = x == y && has_prefix s prefix

-- The text before the first occurrence of `needle`, and the text from there on: s[:i] and s[i:] for
-- i = strings.Index(s, needle), or none where that is -1.
onto_before : ℕ → Option (Text × Text) → Option (Text × Text)
onto_before c none = none
onto_before c (some (before, found)) = some (c ∷ before, found)

unfoldable pub index : Text → Text → Option (Text × Text)
unfolding onto_before has_prefix
index [] needle = if has_prefix [] needle then some ([], []) else none
index (c ∷ s) needle =
    let later = index s needle in
    if has_prefix (c ∷ s) needle then some ([], c ∷ s) else onto_before c later

-- The same for the last occurrence of one rune, strings.LastIndex(s, c).
unfoldable pub last_index : Text → ℕ → Option (Text × Text)
unfolding onto_before
last_index [] c = none
last_index (x ∷ s) c = elim (last_index s c) [
  | some (before, found) ↦ some (x ∷ before, found)
  | none ↦ if x == c then some ([], x ∷ s) else none
]

-- %d: the decimal digits of a number, most significant first. The number itself is fuel enough,
-- since a quotient by ten is smaller.
digits_onto : ℕ → ℕ → Text → Text
digits_onto zero n out = out
digits_onto (suc fuel) n out =
    let more = digits_onto fuel (n / 10) ((b'0' + n % 10) ∷ out) in if n == 0 then out else more

unfoldable pub decimal : ℕ → Text
unfolding digits_onto
decimal zero = b'0' ∷ []
decimal (suc n) = digits_onto (suc n) (suc n) []

unfoldable pub print_int : ℤ → Text
print_int (pos n) = decimal n
print_int (negsuc n) = b'-' ∷ decimal (suc n)
