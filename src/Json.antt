-- ===== src/Json.antt =====
-- What the program uses of Go's package encoding/json: reading an array of strings. The array is
-- read by a machine that takes one rune after the other. In a []string the element null leaves the
-- empty string; any other element is an error, as is text that is no JSON.
pub mod Plain
pub mod Encode
use querylynx.Base.{
  ℕ, zero, suc, ◌+◌, ◌-◌, ◌*◌, Bool, true, false, not, ◌&&◌, ◌||◌, Option, none, some, List, [],
  ◌∷◌, ◌++◌, ltb, leb, ◌==◌, if◌then◌else◌,
}
use querylynx.Strings.{Text, codes, text_eq}

-- Inside a string: its runes so far, and a high surrogate that waits for its other half.
pub record Chars : Type 0 where
  pub text : Text
  pub high : Option ℕ

-- Where the reader stands. `first` may still close the array; in `hex` some digits are left to read.
pub data Mode : Type 0 where
  start first item after done failed : Mode
  in_string in_escape : Chars → Mode
  hex : ℕ → ℕ → Chars → Mode
  in_null : Text → Mode

pub record Reader : Type 0 where
  pub mode : Mode
  pub names : List Text

abbrev replacement : ℕ
replacement = 0xfffd

-- A surrogate that found no other half is replaced.
abbrev flush : Chars → Text
flush c = elim c.high [ none ↦ c.text | some h ↦ c.text ++ replacement ∷ [] ]

abbrev pub add_rune : Chars → ℕ → Chars
add_rune c x = record { text = flush c ++ x ∷ []; high = none }

abbrev is_high : ℕ → Bool
is_high v = leb 0xd800 v && ltb v 0xdc00

abbrev is_low : ℕ → Bool
is_low v = leb 0xdc00 v && ltb v 0xe000

-- A \u escape that stands by itself.
add_unit : Chars → ℕ → Chars
add_unit c v =
    if is_high v
    then record { text = flush c; high = some v }
    else if is_low v
    then add_rune c replacement
    else add_rune c v

join_units : Option ℕ → Chars → ℕ → Chars
join_units none c v = add_unit c v
join_units (some h) c v =
    if is_low v
    then record {
      text = c.text ++ (0x10000 + (h - 0xd800) * 0x400 + (v - 0xdc00)) ∷ [];
      high = none;
    }
    else add_unit c v

is_json_space : ℕ → Bool
is_json_space c = c == b' ' || c == b'\t' || c == b'\r' || c == b'\n'

hex_digit : ℕ → Option ℕ
hex_digit c =
    if leb b'0' c && leb c b'9'
    then some (c - b'0')
    else if leb b'a' c && leb c b'f'
    then some (c - b'a' + 10)
    else if leb b'A' c && leb c b'F'
    then some (c - b'A' + 10)
    else none

-- The rune that a backslash and `c` stand for.
escaped : ℕ → Option ℕ
escaped c =
    if c == b'"' || c == b'\\' || c == b'/'
    then some c
    else if c == b'b'
    then some 8
    else if c == b'f'
    then some 12
    else if c == b'n'
    then some 10
    else if c == b'r'
    then some 13
    else if c == b't'
    then some 9
    else none

abbrev go : Mode → Reader → Reader
go m r = record r { mode = m }

-- A value begins.
begin_item : ℕ → Reader → Reader
begin_item c r =
    if c == b'"'
    then go (in_string (record { text = []; high = none })) r
    else if c == b'n'
    then go (in_null (codes "n")) r
    else go failed r

close_or_fail : ℕ → Reader → Reader
close_or_fail c r = if c == b',' then go item r else if c == b']' then go done r else go failed r

escape_to : ℕ → Option ℕ → Chars → Reader → Reader
escape_to c (some x) s r = go (in_string (add_rune s x)) r
escape_to c none s r = go (if c == b'u' then hex 4 0 s else failed) r

hex_to : ℕ → ℕ → Option ℕ → Chars → Reader → Reader
hex_to n v none s r = go failed r
hex_to zero v (some d) s r = go failed r
hex_to (suc zero) v (some d) s r = go (in_string (join_units s.high s (v * 16 + d))) r
hex_to (suc (suc n)) v (some d) s r = go (hex (suc n) (v * 16 + d) s) r

unfoldable pub read_in : Mode → Reader → ℕ → Reader
unfolding begin_item close_or_fail escape_to hex_to join_units add_unit hex_digit escaped
    is_json_space
read_in start r c = if is_json_space c then r else if c == b'[' then go first r else go failed r
read_in first r c = if is_json_space c then r else if c == b']' then go done r else begin_item c r
read_in item r c = if is_json_space c then r else begin_item c r
read_in after r c = if is_json_space c then r else close_or_fail c r
read_in done r c = if is_json_space c then r else go failed r
read_in failed r c = r
read_in (in_string s) r c =
    if c == b'"'
    then record { mode = after; names = r.names ++ flush s ∷ [] }
    else if c == b'\\'
    then go (in_escape s) r
    else if ltb c 0x20
    then go failed r
    else go (in_string (add_rune s c)) r
read_in (in_escape s) r c = escape_to c (escaped c) s r
read_in (hex n v s) r c = hex_to n v (hex_digit c) s r
read_in (in_null seen) r c =
    if text_eq (seen ++ c ∷ []) (codes "null")
    then record { mode = after; names = r.names ++ [] ∷ [] }
    else if text_eq (seen ++ c ∷ []) (codes "nu") || text_eq (seen ++ c ∷ []) (codes "nul")
    then go (in_null (seen ++ c ∷ [])) r
    else go failed r

unfoldable pub read_all : Reader → Text → Reader
read_all r [] = r
read_all r (c ∷ s) = read_all (read_in r.mode r c) s

finish : Mode → List Text → Option (List Text)
finish done names = some names
finish _ names = none

-- json.Unmarshal into a []string; `none` is an error.
unfoldable pub unmarshal_strings : Text → Option (List Text)
unfolding read_all finish
unmarshal_strings s =
    let r = read_all (record { mode = start; names = [] }) s in finish r.mode r.names
