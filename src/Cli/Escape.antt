-- ===== src/Cli/Escape.antt =====
-- net/url, as cmd/agent/main.go uses it: url.QueryEscape, and how url.Parse reads a user or a password.
use querylynx.Base.{
  ℕ, ◌+◌, ◌-◌, ◌*◌, ◌/◌, ◌%◌, ◌<◌, Bool, true, false, ◌||◌, ◌&&◌, Option, none, some, [], ◌∷◌, ◌++◌,
  map, All, ltb, leb, ◌==◌, if◌then◌else◌, ◌≡◌, refl, sym, ◌∙◌, arith, Bool-cases, inl, inr, ap,
}
use querylynx.Utf8.{Bytes}

-- What shouldEscape leaves alone in a query component: letters, digits and "-_.~".
unfoldable pub is_unreserved : ℕ → Bool
is_unreserved b =
    leb b'a' b && leb b b'z'
    || (leb b'A' b && leb b b'Z'
        || (leb b'0' b && leb b b'9' || (b == b'-' || (b == b'_' || (b == b'.' || b == b'~')))))

-- An upper-case hexadecimal digit, and back.
unfoldable pub hex_digit : ℕ → ℕ
hex_digit d = if ltb d 10 then b'0' + d else b'A' + (d - 10)

unfoldable pub unhex : ℕ → Option ℕ
unhex c =
    if leb b'0' c && leb c b'9'
    then some (c - b'0')
    else if leb b'a' c && leb c b'f'
    then some (c - b'a' + 10)
    else if leb b'A' c && leb c b'F'
    then some (c - b'A' + 10)
    else none

unfoldable pub escape_byte : ℕ → Bytes
unfolding is_unreserved hex_digit
escape_byte b =
    if is_unreserved b
    then b ∷ []
    else if b == b' '
    then b'+' ∷ []
    else b'%' ∷ hex_digit (b / 16) ∷ hex_digit (b % 16) ∷ []

unfoldable pub query_escape : Bytes → Bytes
unfolding escape_byte
query_escape [] = []
query_escape (b ∷ s) = escape_byte b ++ query_escape s

-- unescape in the mode encodeUserPassword: only "%XX" stands for another byte.
hex_byte : Option ℕ → Option ℕ → Option ℕ
hex_byte none low = none
hex_byte (some high) none = none
hex_byte (some high) (some low) = some (16 * high + low)

onto_byte : Option ℕ → Option Bytes → Option Bytes
onto_byte none rest = none
onto_byte (some b) none = none
onto_byte (some b) (some s) = some (b ∷ s)

unfoldable pub unescape_userinfo : Bytes → Option Bytes
unfolding hex_byte onto_byte unhex
unescape_userinfo [] = some []
unescape_userinfo (a ∷ []) = if a == b'%' then none else some (a ∷ [])
unescape_userinfo (a ∷ b ∷ []) =
    let rest = unescape_userinfo (b ∷ []) in if a == b'%' then none else onto_byte (some a) rest
unescape_userinfo (a ∷ b ∷ c ∷ s) =
    let escaped = unescape_userinfo s in
    let rest = unescape_userinfo (b ∷ c ∷ s) in
    if a == b'%' then onto_byte (hex_byte (unhex b) (unhex c)) escaped else onto_byte (some a) rest

-- What is read in place of a byte: a space comes back as the '+' that it was escaped to.
abbrev pub read_back : ℕ → ℕ
read_back b = if b == b' ' then b'+' else b

unescape_plain :
    (a : ℕ) (s : Bytes)
    → (a == b'%') ≡ false
    → unescape_userinfo (a ∷ s) ≡ onto_byte (some a) (unescape_userinfo s)
unfolding unescape_userinfo onto_byte
unescape_plain a [] h = rw h
unescape_plain a (b ∷ []) h = rw h
unescape_plain a (b ∷ c ∷ s) h = rw h

unhex-hex_digit : (d : ℕ) → d < 16 → unhex (hex_digit d) ≡ some d
unfolding unhex hex_digit
unhex-hex_digit d h = ground arith

unreserved-ne_percent : (b : ℕ) → is_unreserved b ≡ true → (b == b'%') ≡ false
unfolding is_unreserved
unreserved-ne_percent b h = ground arith

read_back-unreserved : (b : ℕ) → is_unreserved b ≡ true → read_back b ≡ b
unfolding is_unreserved
read_back-unreserved b h = ground arith

unescape-triple :
    (b : ℕ) (s : Bytes)
    → b < 256
    → unescape_userinfo (b'%' ∷ hex_digit (b / 16) ∷ hex_digit (b % 16) ∷ s)
      ≡ onto_byte (some b) (unescape_userinfo s)
unfolding unescape_userinfo
unescape-triple b s h =
    rw (unhex-hex_digit (b / 16) (omega arith), unhex-hex_digit (b % 16) (omega arith))
      (ap (λ x. onto_byte (some x) (unescape_userinfo s)) (omega arith))

unescape-escape_byte :
    (b : ℕ) (s : Bytes)
    → b < 256
    → unescape_userinfo (escape_byte b ++ s) ≡ onto_byte (some (read_back b)) (unescape_userinfo s)
unfolding escape_byte
unescape-escape_byte b s h = elim (Bool-cases (is_unreserved b)) [
  | inl e ↦ rw e (
      unescape_plain b s (unreserved-ne_percent b e)
      ∙ ap (λ x. onto_byte (some x) (unescape_userinfo s)) (sym (read_back-unreserved b e)))
  | inr e ↦ elim (Bool-cases (b == b' ')) [
    | inl f ↦ rw e (rw f (unescape_plain b'+' s refl))
    | inr f ↦ rw e (rw f (unescape-triple b s h))
  ]
]

-- url.Parse reads from an escaped user or password what was typed, except that every space has become
-- a '+': the escape is the one for a query, and no user or password is read that way.
pub unescape-query_escape :
    (s : Bytes) → All (λ b. b < 256) s → unescape_userinfo (query_escape s) ≡ some (map read_back s)
unfolding query_escape
unescape-query_escape [] h = unfold unescape_userinfo in refl
unescape-query_escape (b ∷ s) (hb, hs) =
    rw (unescape-escape_byte b (query_escape s) hb)
      (rw (unescape-query_escape s hs) (unfold onto_byte in refl))
