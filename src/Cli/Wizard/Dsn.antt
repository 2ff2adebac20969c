-- ===== src/Cli/Wizard/Dsn.antt =====
-- The connection string that the wizard builds from its fields, as url.Parse reads it.
use querylynx.Base.{
  ℕ, ◌/◌, ◌%◌, ◌<◌, true, false, some, [], ◌∷◌, ◌++◌, map, All, All-append, Bool-cases, inl, inr,
  Bool, ◌||◌, ◌==◌, ◌≡◌, refl, arith, append_assoc,
}
use querylynx.Strings.{Text, codes}
use querylynx.Utf8.{Bytes, encode, encode_rune}
use querylynx.Cli.Escape.{
  is_unreserved, hex_digit, escape_byte, query_escape, unescape_userinfo, read_back,
  unescape-query_escape,
}
use querylynx.Cli.Wizard.{field_dsn}

abbrev IsRune : ℕ → Type 0
IsRune c = c < 0x110000

abbrev IsByte : ℕ → Type 0
IsByte b = b < 256

-- The bytes that end a part of a URL: ":@/?#".
abbrev pub is_delimiter : ℕ → Bool
is_delimiter b = b == b':' || (b == b'@' || (b == b'/' || (b == b'?' || b == b'#')))

abbrev pub IsPlain : ℕ → Type 0
IsPlain b = is_delimiter b ≡ false

encode_rune-IsByte : (c : ℕ) → IsRune c → All IsByte (encode_rune c)
encode_rune-IsByte c h = ground arith

encode-IsByte : (s : Text) → All IsRune s → All IsByte (encode s)
unfolding encode
encode-IsByte [] h = tt
encode-IsByte (c ∷ s) (hc, hs) =
    All-append IsByte (encode_rune c) (encode s) (encode_rune-IsByte c hc) (encode-IsByte s hs)

unreserved-IsPlain : (b : ℕ) → is_unreserved b ≡ true → IsPlain b
unfolding is_unreserved
unreserved-IsPlain b h = ground arith

hex_digit-IsPlain : (d : ℕ) → d < 16 → IsPlain (hex_digit d)
unfolding hex_digit
hex_digit-IsPlain d h = ground arith

escape_byte-IsPlain : (b : ℕ) → b < 256 → All IsPlain (escape_byte b)
unfolding escape_byte
escape_byte-IsPlain b h = elim (Bool-cases (is_unreserved b)) [
  | inl e ↦ rw e (unreserved-IsPlain b e, tt)
  | inr e ↦ elim (Bool-cases (b == b' ')) [
    | inl f ↦ rw e (rw f (refl, tt))
    | inr f ↦ rw e (
        rw f (
          refl,
          (
            hex_digit-IsPlain (b / 16) (omega arith),
            (hex_digit-IsPlain (b % 16) (omega arith), tt),
          ),
        ))
  ]
]

query_escape-IsPlain : (s : Bytes) → All IsByte s → All IsPlain (query_escape s)
unfolding query_escape
query_escape-IsPlain [] h = tt
query_escape-IsPlain (b ∷ s) (hb, hs) =
    All-append IsPlain (escape_byte b) (query_escape s) (escape_byte-IsPlain b hb)
      (query_escape-IsPlain s hs)

-- A part of the connection string that stands for what was typed: no delimiter ends it early, and
-- url.Parse reads it as the typed bytes, each space as a plus sign.
abbrev pub StandsFor : Bytes → Text → Type 0
StandsFor part typed =
    All IsPlain part × (unescape_userinfo part ≡ some (map read_back (encode typed)))

query_escape-StandsFor : (s : Text) → All IsRune s → StandsFor (query_escape (encode s)) s
query_escape-StandsFor s h =
    let bytes = encode-IsByte s h in
    (query_escape-IsPlain (encode s) bytes, unescape-query_escape (encode s) bytes)

-- The connection string of the wizard's fields begins with the scheme, a part that stands for the user,
-- a colon, a part that stands for the password, and "@", for every user and password. A part stands for
-- what was typed if it has none of ":@/?#" and url.Parse reads it as the typed bytes, but with a plus
-- sign for each space.
pub field_dsn-StandsFor :
    (host port db user pass : Text)
    → All IsRune user
    → All IsRune pass
    → (u p rest : Bytes) × (field_dsn host port db user pass
        ≡ codes "postgres://" ++ u ++ codes ":" ++ p ++ codes "@" ++ rest)
      × StandsFor u user
      × StandsFor p pass
unfolding field_dsn
field_dsn-StandsFor host port db user pass hu hp = (
  query_escape (encode user),
  query_escape (encode pass),
  host ++ codes ":" ++ port ++ codes "/" ++ db ++ codes "?sslmode=require",
  simp append_assoc,
  query_escape-StandsFor user hu,
  query_escape-StandsFor pass hp,
)
