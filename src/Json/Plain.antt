-- ===== src/Json/Plain.antt =====
-- Arrays of plain strings, as they are written.
use querylynx.Base.{
  ℕ, Bool, true, false, ◌||◌, none, some, List, [], ◌∷◌, ◌++◌, ◌≡◌, refl, sym, ap, ◌∙◌, arith, ltb,
  ◌==◌, if◌then◌else◌, All, append_assoc, append-nil,
}
use querylynx.Strings.{Text, codes}
use querylynx.Json.{
  Chars, Mode, start, after, done, in_string, Reader, read_in, read_all, finish, unmarshal_strings,
}

-- A rune that a JSON string holds as it is.
abbrev pub is_plain : ℕ → Bool
is_plain c = if c == b'"' || c == b'\\' || ltb c 0x20 then false else true

abbrev pub IsPlain : Text → Type 0
IsPlain = All (λ c. is_plain c ≡ true)

abbrev pub quoted : Text → Text
quoted s = b'"' ∷ (s ++ b'"' ∷ [])

-- The elements behind the first one, each behind a comma, and the closing bracket.
pub more_items : List Text → Text
more_items [] = b']' ∷ []
more_items (n ∷ names) = b',' ∷ (quoted n ++ more_items names)

-- An array as it is usually written, with no space.
pub array : List Text → Text
array [] = codes "[]"
array (n ∷ names) = b'[' ∷ (quoted n ++ more_items names)

pub read_all-append : (r : Reader) (s t : Text) → read_all r (s ++ t) ≡ read_all (read_all r s) t
unfolding read_all
read_all-append r [] t = refl
read_all-append r (c ∷ s) t = read_all-append (read_in r.mode r c) s t

abbrev reader : Mode → List Text → Reader
reader m names = record { mode = m; names = names }

abbrev chars : Text → Chars
chars s = record { text = s; high = none }

read_plain_rune :
    (names : List Text) (so_far : Text) (c : ℕ)
    → is_plain c ≡ true
    → read_in (in_string (chars so_far)) (reader (in_string (chars so_far)) names) c
      ≡ reader (in_string (chars (so_far ++ c ∷ []))) names
unfolding read_in
read_plain_rune names so_far c h = ground arith

-- A plain string is read up to its closing quote.
read_all_plain :
    (names : List Text) (so_far s rest : Text)
    → IsPlain s
    → read_all (reader (in_string (chars so_far)) names) ((s ++ b'"' ∷ []) ++ rest)
      ≡ read_all (reader after (names ++ (so_far ++ s) ∷ [])) rest
unfolding read_all
read_all_plain names so_far [] rest h = rw append-nil (unfold read_in in refl)
read_all_plain names so_far (c ∷ s) rest (hc, hs) =
    ap (λ r. read_all r ((s ++ b'"' ∷ []) ++ rest)) (read_plain_rune names so_far c hc)
    ∙ read_all_plain names (so_far ++ c ∷ []) s rest hs
    ∙ rw append_assoc

read_all_more :
    (names more : List Text)
    → All IsPlain more
    → read_all (reader after names) (more_items more) ≡ reader done (names ++ more)
unfolding more_items
read_all_more names [] h = rw append-nil (unfold read_all read_in in refl)
read_all_more names (n ∷ more) (hn, hs) =
    comma
    ∙ read_all_plain names [] n (more_items more) hn
    ∙ read_all_more (names ++ n ∷ []) more hs
    ∙ rw append_assoc
  where
    comma :
        read_all (reader after names) (b',' ∷ (quoted n ++ more_items more))
        ≡ read_all (reader (in_string (chars [])) names) ((n ++ b'"' ∷ []) ++ more_items more)
    comma = unfold read_all read_in in refl

-- An array of plain strings is read back as it was written.
pub unmarshal_strings-array :
    (names : List Text) → All IsPlain names → unmarshal_strings (array names) ≡ some names
unfolding unmarshal_strings array
unmarshal_strings-array [] h = unfold read_in in refl
unmarshal_strings-array (n ∷ names) (hn, hs) =
    ap (λ r. finish r.mode r.names)
      (begin ∙ read_all_plain [] [] n (more_items names) hn ∙ read_all_more (n ∷ []) names hs)
  where
    begin :
        read_all (reader start []) (b'[' ∷ (quoted n ++ more_items names))
        ≡ read_all (reader (in_string (chars [])) []) ((n ++ b'"' ∷ []) ++ more_items names)
    begin = unfold read_all read_in in refl

more_items-ends : (names : List Text) → (body : Text) × (more_items names ≡ body ++ b']' ∷ [])
unfolding more_items
more_items-ends [] = ([], refl)
more_items-ends (n ∷ names) =
    let (body, e) = more_items-ends names in
    (
      b',' ∷ (quoted n ++ body),
      rw e (ap (λ t. b',' ∷ t) (sym (append_assoc (quoted n) body (b']' ∷ [])))),
    )

-- The brackets of an array.
pub array-brackets :
    (names : List Text)
    → (inner body : Text) × (array names ≡ b'[' ∷ inner) × (array names ≡ body ++ b']' ∷ [])
unfolding array
array-brackets [] = (codes "]", codes "[", refl, refl)
array-brackets (n ∷ names) =
    let (body, e) = more_items-ends names in
    (
      quoted n ++ more_items names,
      b'[' ∷ (quoted n ++ body),
      refl,
      ap (λ t. b'[' ∷ (quoted n ++ t)) e
          ∙ ap (λ t. b'[' ∷ t) (sym (append_assoc (quoted n) body (b']' ∷ []))),
    )
