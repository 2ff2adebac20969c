-- ===== src/Connector/Redact/Hides.antt =====
-- A redacted connection string without its password.
use querylynx.Base.{
  ℕ, zero, suc, ◌-◌, ◌≤◌, true, false, ◌⊎◌, Option, none, some, [], ◌∷◌, ◌++◌, ◌≡◌, refl, sym, ap,
  ◌∙◌, arith, is_nil, length, length-append, All, Bool-cases, Option-cases, inl, inr, append_assoc,
  append-nil,
}
use querylynx.Strings.{Text, codes, trim_left}
use querylynx.Strings.Trim.{trim_left_keeps, trim_left-append}
use querylynx.Regex.{folds}
use querylynx.Connector.Redact.{
  Url, onto_matched, match_literal, no_blank, keyword, match_value, kv_password, replace_from,
  redact_pairs, redact_parsed, redact_dsn,
}

-- A match before a blank does not reach past it.
extended : Text → Option (Text × Text) → Option (Text × Text)
extended t none = none
extended t (some (word, rest)) = some (word, rest ++ b' ' ∷ t)

match_literal-blank :
    (letters a t : Text)
    → All (λ l. folds l b' ' ≡ false) letters
    → match_literal letters (a ++ b' ' ∷ t) ≡ extended t (match_literal letters a)
unfolding match_literal extended onto_matched
match_literal-blank [] a t h = refl
match_literal-blank (l ∷ letters) [] t (hl, hs) = rw hl refl
match_literal-blank (l ∷ letters) (c ∷ a) t (hl, hs) = elim (Bool-cases (folds l c)) [
  | inr e ↦ rw e refl
  | inl e ↦ rw e (rw (match_literal-blank letters a t hs) (through (match_literal letters a)))
]
  where
    through :
        (m : Option (Text × Text)) → onto_matched c (extended t m) ≡ extended t (onto_matched c m)
    through none = refl
    through (some (w, r)) = refl

match_value-blank :
    (t : Text) (m : Option (Text × Text)) → match_value (extended t m) ≡ extended t (match_value m)
unfolding match_value extended
match_value-blank t none = refl
match_value-blank t (some (word, [])) = refl
match_value-blank t (some (word, c ∷ s)) = elim (Bool-cases (no_blank c)) [
  | inl e ↦ rw e (ap (λ r. some (word, r)) (trim_left_keeps no_blank s b' ' t refl))
  | inr e ↦ rw e refl
]

keyword_blank : All (λ l. folds l b' ' ≡ false) keyword
unfolding folds
keyword_blank = ground arith

kv_password-blank : (a t : Text) → kv_password (a ++ b' ' ∷ t) ≡ extended t (kv_password a)
unfolding kv_password extended
kv_password-blank a t =
    ap match_value (match_literal-blank keyword a t keyword_blank)
    ∙ match_value-blank t (match_literal keyword a)

kv_password-space : (t : Text) → kv_password (b' ' ∷ t) ≡ none
unfolding kv_password match_literal folds
kv_password-space t = refl

same_skip :
    (a rest t : Text) → length (a ++ b' ' ∷ t) - length (rest ++ b' ' ∷ t) ≡ length a - length rest
same_skip a rest t = omega (arith, length-append a (b' ' ∷ t), length-append rest (b' ' ∷ t))

replace_none :
    (c : ℕ) (s : Text)
    → kv_password (c ∷ s) ≡ none
    → replace_from zero (c ∷ s) ≡ c ∷ replace_from zero s
unfolding replace_from
replace_none c s e = rw (replace_from, e) refl

replace_some :
    (c : ℕ) (s word rest : Text)
    → kv_password (c ∷ s) ≡ some (word, rest)
    → replace_from zero (c ∷ s) ≡ word ++ (codes "***" ++ replace_from (length s - length rest) s)
unfolding replace_from
replace_some c s word rest e = rw (replace_from, e) refl

replace_from-blank :
    (skip : ℕ) (a t : Text)
    → skip ≤ length a
    → replace_from skip (a ++ b' ' ∷ t) ≡ replace_from skip a ++ b' ' ∷ replace_from zero t
unfolding replace_from extended
replace_from-blank zero [] t h = replace_none b' ' t (kv_password-space t)
replace_from-blank (suc skip) [] t h = absurd (omega arith)
replace_from-blank (suc skip) (c ∷ a) t h = replace_from-blank skip a t (omega arith)
replace_from-blank zero (c ∷ a) t h = elim (Option-cases (kv_password (c ∷ a))) [
  | inl e ↦
      replace_none c (a ++ b' ' ∷ t) (kv_password-blank (c ∷ a) t ∙ ap (extended t) e)
      ∙ ap (◌∷◌ c) (replace_from-blank zero a t (omega arith))
      ∙ ap (λ r. r ++ b' ' ∷ replace_from zero t) (sym (replace_none c a e))
  | inr ((word, rest), e) ↦
      replace_some c (a ++ b' ' ∷ t) word (rest ++ b' ' ∷ t)
        (kv_password-blank (c ∷ a) t ∙ ap (extended t) e)
      ∙ ap (λ k. word ++ (codes "***" ++ replace_from k (a ++ b' ' ∷ t))) (same_skip a rest t)
      ∙ ap (λ r. word ++ (codes "***" ++ r))
          (replace_from-blank (length a - length rest) a t (omega arith))
      ∙ sym (append_assoc word (codes "***" ++ replace_from (length a - length rest) a) _)
      ∙ ap (λ r. r ++ b' ' ∷ replace_from zero t) (sym (replace_some c a word rest e))
]

grown : Text → Option (Text × Text) → Option (Text × Text)
grown t none = none
grown t (some (word, rest)) = some (word, rest ++ t)

match_literal-append :
    (letters a word rest t : Text)
    → match_literal letters a ≡ some (word, rest)
    → match_literal letters (a ++ t) ≡ some (word, rest ++ t)
unfolding match_literal onto_matched grown
match_literal-append [] a word rest t e = ap (grown t) e
match_literal-append (l ∷ letters) [] word rest t e = absurd (ground arith)
match_literal-append (l ∷ letters) (c ∷ a) word rest t e = elim (Bool-cases (folds l c)) [
  | inr f ↦ absurd (ground arith)
  | inl f ↦ elim (Option-cases (match_literal letters a)) [
    | inl none_there ↦ absurd (ground arith)
    | inr ((word', rest'), there) ↦
        let matched : some (c ∷ word', rest') ≡ some (word, rest) =
          ap (onto_matched c) (sym there) ∙ (rw f at e) in
        rw f (
          ap (onto_matched c) (match_literal-append letters a word' rest' t there)
          ∙ ap (grown t) matched)
  ]
]

-- "password=" in either case.
abbrev pub IsKeyword : Text → Type 0
IsKeyword word = match_literal keyword word ≡ some (word, [])

skip_length : (s : Text) → replace_from (length s) s ≡ []
unfolding replace_from
skip_length [] = refl
skip_length (c ∷ s) = skip_length s

skip_all : (s : Text) → replace_from (length s - 0) s ≡ []
skip_all s = let whole : length s - 0 ≡ length s = omega arith in rw whole (skip_length s)

value_dropped : (s : Text) → All (λ c. no_blank c ≡ true) s → trim_left no_blank s ≡ []
value_dropped s h =
    ap (trim_left no_blank) (sym (append-nil s))
    ∙ trim_left-append no_blank s [] h
    ∙ unfold trim_left in refl

kv_password-pair :
    (word value : Text) (v : ℕ)
    → IsKeyword word
    → no_blank v ≡ true
    → All (λ c. no_blank c ≡ true) value
    → kv_password (word ++ v ∷ value) ≡ some (word, [])
unfolding kv_password match_value
kv_password-pair word value v k hv hs =
    ap match_value (match_literal-append keyword word word [] (v ∷ value) k)
    ∙ rw hv (ap (λ r. some (word, r)) (value_dropped value hs))

redact_pairs-pair :
    (word value : Text) (v : ℕ)
    → IsKeyword word
    → no_blank v ≡ true
    → All (λ c. no_blank c ≡ true) value
    → redact_pairs (word ++ v ∷ value) ≡ word ++ codes "***"
unfolding redact_pairs match_literal
redact_pairs-pair [] value v k hv hs = absurd (ground arith)
redact_pairs-pair (c ∷ word) value v k hv hs =
    replace_some c (word ++ v ∷ value) (c ∷ word) [] (kv_password-pair (c ∷ word) value v k hv hs)
    ∙ ap (λ r. (c ∷ word) ++ (codes "***" ++ r)) (skip_all (word ++ v ∷ value))

nothing : replace_from zero [] ≡ []
unfolding replace_from
nothing = refl

-- What stands before a pair, and what stands behind it: nothing, or something with a blank between.
abbrev pub IsLead : Text → Type 0
IsLead before = (before ≡ []) ⊎ ((x : Text) × (before ≡ x ++ b' ' ∷ []))

abbrev pub IsTrail : Text → Type 0
IsTrail after = (after ≡ []) ⊎ ((x : Text) × (after ≡ b' ' ∷ x))

redact_pairs-lead :
    (before t : Text)
    → IsLead before
    → redact_pairs (before ++ t) ≡ redact_pairs before ++ redact_pairs t
unfolding redact_pairs
redact_pairs-lead before t (inl e) = rw e (unfold replace_from in refl)
redact_pairs-lead before t (inr (x, e)) = rw e (
    ap (replace_from zero) (append_assoc x (b' ' ∷ []) t)
    ∙ replace_from-blank zero x t (omega arith)
    ∙ sym (
        ap (λ r. r ++ replace_from zero t) (replace_from-blank zero x [] (omega arith))
        ∙ append_assoc (replace_from zero x) (b' ' ∷ replace_from zero []) (replace_from zero t)
        ∙ ap (λ r. replace_from zero x ++ b' ' ∷ (r ++ replace_from zero t)) nothing))

redact_pairs-trail :
    (s after : Text)
    → IsTrail after
    → redact_pairs (s ++ after) ≡ redact_pairs s ++ redact_pairs after
unfolding redact_pairs
redact_pairs-trail s after (inl e) = rw e (
    ap (replace_from zero) (append-nil s)
    ∙ sym (ap (λ r. replace_from zero s ++ r) nothing ∙ append-nil (replace_from zero s)))
redact_pairs-trail s after (inr (x, e)) = rw e (
    replace_from-blank zero s x (omega arith)
    ∙ ap (λ r. replace_from zero s ++ r) (sym (replace_none b' ' x (kv_password-space x))))

-- No URL, or one without a scheme.
abbrev pub IsNoUrl : Option Url → Type 0
IsNoUrl none = Unit
IsNoUrl (some u) = is_nil u.scheme ≡ true

redact_parsed-IsNoUrl :
    (dsn : Text) (u : Option Url) → IsNoUrl u → redact_parsed dsn u ≡ redact_pairs dsn
unfolding redact_parsed
redact_parsed-IsNoUrl dsn none h = refl
redact_parsed-IsNoUrl dsn (some u) h = rw h refl

-- Let the connection string be no URL with a scheme for the parser, and let it hold "password=", in
-- either case, and behind that a value without blanks and not empty, at its begin or behind a blank, and
-- up to a blank or its end. Then three asterisks are shown in place of the value, whatever it is, and
-- what stands before and behind is redacted by itself.
pub redact_dsn-pair :
    (parse : Text → Option Url) (before word value after : Text) (v : ℕ)
    → IsNoUrl (parse (before ++ ((word ++ v ∷ value) ++ after)))
    → IsLead before
    → IsTrail after
    → IsKeyword word
    → no_blank v ≡ true
    → All (λ c. no_blank c ≡ true) value
    → redact_dsn parse (before ++ ((word ++ v ∷ value) ++ after))
      ≡ redact_pairs before ++ ((word ++ codes "***") ++ redact_pairs after)
unfolding redact_dsn
redact_dsn-pair parse before word value after v no_url lead trail k hv hs =
    redact_parsed-IsNoUrl (before ++ ((word ++ v ∷ value) ++ after)) _ no_url
    ∙ redact_pairs-lead before ((word ++ v ∷ value) ++ after) lead
    ∙ ap (λ r. redact_pairs before ++ r)
        (redact_pairs-trail (word ++ v ∷ value) after trail
          ∙ ap (λ r. r ++ redact_pairs after) (redact_pairs-pair word value v k hv hs))
