-- ===== src/Utf8.antt =====
-- What the program uses of Go's package unicode/utf8: the bytes of a text, and the runes that Go counts
-- in bytes that may be no valid UTF-8.
pub mod Count
use querylynx.Base.{
  ℕ, zero, suc, ◌+◌, ◌-◌, ◌*◌, ◌/◌, ◌%◌, Bool, ◌&&◌, List, [], ◌∷◌, ◌++◌, ltb, leb, ◌==◌,
  if◌then◌else◌,
}
use querylynx.Strings.{Text}

abbrev pub Bytes : Type 0
Bytes = List ℕ

-- utf8.AppendRune for a rune that is no surrogate.
abbrev pub encode_rune : ℕ → Bytes
encode_rune c =
    if ltb c 0x80
    then c ∷ []
    else if ltb c 0x800
    then (0xc0 + c / 64) ∷ (0x80 + c % 64) ∷ []
    else if ltb c 0x10000
    then (0xe0 + c / 4096) ∷ (0x80 + c / 64 % 64) ∷ (0x80 + c % 64) ∷ []
    else (0xf0 + c / 262144) ∷ (0x80 + c / 4096 % 64) ∷ (0x80 + c / 64 % 64) ∷ (0x80 + c % 64) ∷ []

-- The bytes of a string.
unfoldable pub encode : Text → Bytes
encode [] = []
encode (c ∷ s) = encode_rune c ++ encode s

-- The byte at a place, and 0 past the end, which continues no rune.
abbrev pub byte_at : ℕ → Bytes → ℕ
byte_at n [] = 0
byte_at zero (b ∷ s) = b
byte_at (suc n) (b ∷ s) = byte_at n s

within : ℕ → ℕ → ℕ → Bool
within low high b = leb low b && leb b high

-- How many bytes belong to the first rune, by its first four bytes: the table `first` of the package,
-- with the ranges that the second byte has to be in. A byte that begins no rune stands alone.
unfoldable pub rune_size : ℕ → ℕ → ℕ → ℕ → ℕ
unfolding within
rune_size a b c d =
    if within 0xc2 0xdf a
    then (if within 0x80 0xbf b then 2 else 1)
    else if within 0xe0 0xef a
    then (if within (if a == 0xe0 then 0xa0 else 0x80) (if a == 0xed then 0x9f else 0xbf) b
          && within 0x80 0xbf c
        then 3
        else 1)
    else if within 0xf0 0xf4 a
    then (if within (if a == 0xf0 then 0x90 else 0x80) (if a == 0xf4 then 0x8f else 0xbf) b
          && (within 0x80 0xbf c && within 0x80 0xbf d)
        then 4
        else 1)
    else 1

unfoldable pub first_size : Bytes → ℕ
unfolding rune_size
first_size s = rune_size (byte_at 0 s) (byte_at 1 s) (byte_at 2 s) (byte_at 3 s)

-- utf8.RuneCountInString behind `skip` bytes that belong to the rune before.
unfoldable pub count_from : ℕ → Bytes → ℕ
unfolding first_size
count_from skip [] = 0
count_from (suc skip) (b ∷ s) = count_from skip s
count_from zero (b ∷ s) = suc (count_from (first_size (b ∷ s) - 1) s)

unfoldable pub rune_count : Bytes → ℕ
unfolding count_from
rune_count s = count_from 0 s

-- The rune that the first bytes stand for, by their number: U+FFFD for a byte that begins none.
rune_of : ℕ → ℕ → ℕ → ℕ → ℕ → ℕ
rune_of size a b c d =
    if size == 2
    then (a - 0xc0) * 64 + (b - 0x80)
    else if size == 3
    then (a - 0xe0) * 4096 + (b - 0x80) * 64 + (c - 0x80)
    else if size == 4
    then (a - 0xf0) * 262144 + (b - 0x80) * 4096 + (c - 0x80) * 64 + (d - 0x80)
    else if ltb a 0x80
    then a
    else 0xfffd

-- The runes of bytes, as a loop over them has them, behind `skip` bytes of the rune before.
unfoldable pub decode_from : ℕ → Bytes → Text
unfolding rune_of first_size
decode_from skip [] = []
decode_from (suc skip) (b ∷ s) = decode_from skip s
decode_from zero (b ∷ s) =
    rune_of (first_size (b ∷ s)) b (byte_at 0 s) (byte_at 1 s) (byte_at 2 s)
    ∷ decode_from (first_size (b ∷ s) - 1) s

unfoldable pub decode : Bytes → Text
unfolding decode_from
decode s = decode_from 0 s
