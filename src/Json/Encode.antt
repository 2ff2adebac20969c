-- ===== src/Json/Encode.antt =====
-- What the program uses of encoding/json to write a string, and that it is read back.
use querylynx.Base.{
  ℕ, ◌+◌, ◌-◌, ◌*◌, ◌/◌, ◌%◌, ◌<◌, Bool, true, false, ◌||◌, Option, none, some, List, [], ◌∷◌, ◌++◌,
  ◌≡◌, refl, ap, ◌∙◌, arith, ltb, ◌==◌, if◌then◌else◌, append_assoc, append-nil, Option-cases,
  Bool-cases, inl, inr,
}
use querylynx.Strings.{Text, codes}
use querylynx.Json.Plain.{read_all-append}
use querylynx.Json.{
  Chars, Mode, start, done, in_string, Reader, read_in, read_all, finish, unmarshal_strings,
  hex_digit, hex_to, escape_to, escaped, join_units, add_unit, is_high, is_low,
}

hex_lower : ℕ → ℕ
hex_lower d = if ltb d 10 then b'0' + d else b'a' + (d - 10)

unicode_escape : ℕ → Text
unfolding hex_lower
unicode_escape c =
    b'\\'
    ∷ b'u'
    ∷ hex_lower (c / 4096 % 16)
    ∷ hex_lower (c / 256 % 16)
    ∷ hex_lower (c / 16 % 16)
    ∷ hex_lower (c % 16)
    ∷ []

-- The letter behind a backslash, if the rune has one.
short_escape : ℕ → Option ℕ
short_escape c =
    if c == b'"' || c == b'\\'
    then some c
    else if c == 8
    then some b'b'
    else if c == 12
    then some b'f'
    else if c == 10
    then some b'n'
    else if c == 13
    then some b'r'
    else if c == 9
    then some b't'
    else none

-- Control characters, what HTML could read, and two line separators.
is_unsafe : ℕ → Bool
is_unsafe c =
    ltb c 0x20 || (c == b'<' || (c == b'>' || (c == b'&' || (c == 0x2028 || c == 0x2029))))

escaped_or_plain : Option ℕ → ℕ → Text
unfolding unicode_escape is_unsafe
escaped_or_plain (some letter) c = b'\\' ∷ letter ∷ []
escaped_or_plain none c = if is_unsafe c then unicode_escape c else c ∷ []

encode_rune : ℕ → Text
unfolding escaped_or_plain short_escape
encode_rune c = escaped_or_plain (short_escape c) c

encode_runes : Text → Text
unfolding encode_rune
encode_runes [] = []
encode_runes (c ∷ s) = encode_rune c ++ encode_runes s

-- json.Marshal of a string
unfoldable pub marshal_string : Text → Text
unfolding encode_runes
marshal_string s = b'"' ∷ (encode_runes s ++ b'"' ∷ [])

abbrev reader : Mode → List Text → Reader
reader m names = record { mode = m; names = names }

abbrev chars : Text → Chars
chars s = record { text = s; high = none }

hex_digit-hex_lower : (d : ℕ) → d < 16 → hex_digit (hex_lower d) ≡ some d
unfolding hex_digit hex_lower
hex_digit-hex_lower d h = ground arith

-- What a rune is written as is read as this rune.
abbrev ReadsRune : ℕ → Text → Type 0
ReadsRune c written =
    (names : List Text) (so_far : Text)
    → read_all (reader (in_string (chars so_far)) names) written
      ≡ reader (in_string (chars (so_far ++ c ∷ []))) names

whole :
    (c : ℕ)
    → c < 0xd800
    → (((0 + c / 4096 % 16) * 16 + c / 256 % 16) * 16 + c / 16 % 16) * 16 + c % 16 ≡ c
whole c h = omega arith

add_unit-alone : (s : Text) (v : ℕ) → v < 0xd800 → add_unit (chars s) v ≡ chars (s ++ v ∷ [])
unfolding add_unit
add_unit-alone s v h = rw (not_high v h) (rw (not_low v h) refl)
  where
    not_high : (u : ℕ) → u < 0xd800 → is_high u ≡ false
    not_high u k = ground arith

    not_low : (u : ℕ) → u < 0xd800 → is_low u ≡ false
    not_low u k = ground arith

read_unicode : (c : ℕ) → c < 0xd800 → ReadsRune c (unicode_escape c)
unfolding unicode_escape read_all read_in escape_to hex_to join_units add_unit
read_unicode c h names so_far =
    rw
      (
        hex_digit-hex_lower (c / 4096 % 16) (omega arith),
        hex_digit-hex_lower (c / 256 % 16) (omega arith),
        hex_digit-hex_lower (c / 16 % 16) (omega arith),
        hex_digit-hex_lower (c % 16) (omega arith),
        whole c h,
        add_unit-alone so_far c h,
      )
      refl

plain_tests :
    (c : ℕ)
    → short_escape c ≡ none
    → is_unsafe c ≡ false
    → ((c == b'"') ≡ false) × ((c == b'\\') ≡ false) × (ltb c 0x20 ≡ false)
unfolding short_escape is_unsafe
plain_tests c e u = ground arith

escaped-short_escape : (c letter : ℕ) → short_escape c ≡ some letter → escaped letter ≡ some c
unfolding short_escape escaped
escaped-short_escape c letter e = ground arith

read_plain : (c : ℕ) → short_escape c ≡ none → is_unsafe c ≡ false → ReadsRune c (c ∷ [])
unfolding short_escape is_unsafe read_all read_in
read_plain c e u names so_far =
    let (quote, backslash, control) = plain_tests c e u in rw quote (rw backslash (rw control refl))

read_short : (c letter : ℕ) → short_escape c ≡ some letter → ReadsRune c (b'\\' ∷ letter ∷ [])
unfolding read_all read_in escape_to
read_short c letter e names so_far = rw (escaped-short_escape c letter e) refl

unsafe_small : (c : ℕ) → is_unsafe c ≡ true → c < 0xd800
unfolding is_unsafe
unsafe_small c h = ground arith

read_rune : (c : ℕ) → ReadsRune c (encode_rune c)
unfolding encode_rune escaped_or_plain
read_rune c = elim (Option-cases (short_escape c)) [
  | inr (letter, e) ↦ rw e (read_short c letter e)
  | inl e ↦ elim (Bool-cases (is_unsafe c)) [
    | inl u ↦ rw e (rw u (read_unicode c (unsafe_small c u)))
    | inr u ↦ rw e (rw u (read_plain c e u))
  ]
]

read_runes :
    (names : List Text) (so_far s : Text)
    → read_all (reader (in_string (chars so_far)) names) (encode_runes s)
      ≡ reader (in_string (chars (so_far ++ s))) names
unfolding encode_runes
read_runes names so_far [] = rw append-nil (unfold read_all in refl)
read_runes names so_far (c ∷ s) =
    read_all-append (reader (in_string (chars so_far)) names) (encode_rune c) (encode_runes s)
    ∙ ap (λ r. read_all r (encode_runes s)) (read_rune c names so_far)
    ∙ read_runes names (so_far ++ c ∷ []) s
    ∙ rw append_assoc

-- A string, whatever is in it, is read back from what it is written as.
pub unmarshal-marshal_string :
    (s : Text) → unmarshal_strings (b'[' ∷ (marshal_string s ++ b']' ∷ [])) ≡ some (s ∷ [])
unfolding unmarshal_strings marshal_string
unmarshal-marshal_string s =
    ap (λ r. finish r.mode r.names)
      (opened
        ∙ read_all-append (reader (in_string (chars [])) []) (encode_runes s) (codes "\"]")
        ∙ ap (λ r. read_all r (codes "\"]")) (read_runes [] [] s)
        ∙ closed)
  where
    opened :
        read_all (reader start []) (b'[' ∷ ((b'"' ∷ (encode_runes s ++ b'"' ∷ [])) ++ b']' ∷ []))
        ≡ read_all (reader (in_string (chars [])) []) (encode_runes s ++ codes "\"]")
    opened = unfold read_all read_in in (rw append_assoc)

    closed : read_all (reader (in_string (chars s)) []) (codes "\"]") ≡ reader done (s ∷ [])
    closed = unfold read_all read_in in refl
