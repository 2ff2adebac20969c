-- ===== src/Safety/Allowlist.antt =====
-- `Check`, on the query as the model wrote it.
use querylynx.Base.{
  ◌+◌, ◌<◌, Bool, true, false, not, ◌&&◌, ◌||◌, none, some, List, [], ◌∷◌, ◌++◌, ◌≡◌, refl, sym, ap,
  ◌∙◌, subst, arith, ltb, ◌==◌, is_nil, length, Bool-cases, inl, inr, All-append, ==_iff,
  append_assoc,
}
use querylynx.Strings.{Text, is_space, upper_rune, to_upper, fields}
use querylynx.Strings.Trim.{Blank, is_nil-eq}
use querylynx.Strings.Case.{to_upper-word, upper_rune-is_space}
use querylynx.Strings.Search.{IsWord, AtSpace, FirstField, fields-FirstField}
use querylynx.Safety.{
  stacked_statements, split_statements, strip, check, is_allowed, extract_first_keyword,
  first_or_empty,
}
use querylynx.Safety.Statements.{
  statements_from, statements, strip-statements, split_statements-statements,
}
use querylynx.Safety.Strip.{ends_word, IsTail, strip-splits}

strip_count : (q : Text) → length (split_statements (strip q)) ≡ statements q
strip_count q = split_statements-statements (strip q) ∙ strip-statements q

strip_filled : (q : Text) → 0 < statements q → is_nil (strip q) ≡ false
strip_filled q h = elim (Bool-cases (is_nil (strip q))) [
  | inl e ↦ absurd (omega (arith, sym (strip-statements q) ∙ ap statements (is_nil-eq (strip q) e)))
  | inr e ↦ e
]

-- A query that holds more than one statement is refused as stacked, and the error tells how many
-- statements it holds.
pub check_stacked :
    (q : Text) → 1 < statements q → check q ≡ some (stacked_statements (statements q))
unfolding check
check_stacked q h = rw (strip_filled q (omega arith), strip_count q) (ground arith)

pub statements_from-append :
    (inside : Bool) (a b : Text)
    → statements_from inside (a ++ b';' ∷ b) ≡ statements_from inside a + statements b
statements_from-append inside [] b = omega arith
statements_from-append inside (c ∷ a) b =
    omega (arith, statements_from-append (not (c == b';') && (inside || not (is_space c))) a b)

-- Two texts that each hold a statement, joined by a semicolon, are refused as stacked, and the
-- error carries the number of statements of both.
pub check-append :
    (a b : Text)
    → 0 < statements a
    → 0 < statements b
    → check (a ++ b';' ∷ b) ≡ some (stacked_statements (statements a + statements b))
check-append a b ha hb =
    let e = statements_from-append false a b in
    check_stacked (a ++ b';' ∷ b) (omega arith) ∙ ap (λ n. some (stacked_statements n)) e

-- The text ends, or goes on with white space or a semicolon.
abbrev pub AtEnd : Text → Type 0
AtEnd [] = Unit
AtEnd (c ∷ s) = ends_word c ≡ true

-- The first word of the query reads SELECT or WITH in upper case, and it holds one statement.
pub record IsSelect (q : Text) : Type 0 where
  pub lead : Text
  pub word : Text
  pub rest : Text
  pub splits : q ≡ lead ++ (word ++ rest)
  pub lead_blank : Blank lead
  pub is_word : IsWord word
  pub allowed : is_allowed (to_upper word) ≡ true
  pub rest_ends : AtEnd rest
  pub single : statements q ≡ 1

AtEnd-append : (rest tail : Text) → AtSpace rest → IsTail tail → AtEnd (rest ++ tail)
AtEnd-append [] [] h t = tt
AtEnd-append [] (c ∷ tail) h t = t.0
AtEnd-append (c ∷ rest) tail h t = rw h

to_upper-AtSpace : (s : Text) → AtSpace (to_upper s) → AtSpace s
unfolding to_upper
to_upper-AtSpace [] h = tt
to_upper-AtSpace (c ∷ s) h = sym (upper_rune-is_space c) ∙ h

-- What the branches of `Check` say about an accepted query.
check-none :
    (q : Text)
    → check q ≡ none
    → (is_nil (strip q) ≡ false)
      × (ltb 1 (statements q) ≡ false)
      × (is_allowed (extract_first_keyword (to_upper (strip q))) ≡ true)
unfolding check
check-none q h = let e = strip_count q in ground arith

first-FirstField :
    (s : Text) (fs : List Text)
    → fields s ≡ fs
    → is_allowed (first_or_empty fs) ≡ true
    → FirstField s (first_or_empty fs)
unfolding first_or_empty is_allowed
first-FirstField s [] e h = absurd (cc)
first-FirstField s (f ∷ fs) e h = fields-FirstField s f fs e

extract-FirstField :
    (s : Text)
    → is_allowed (extract_first_keyword s) ≡ true
    → FirstField s (extract_first_keyword s)
unfolding extract_first_keyword
extract-FirstField s h = first-FirstField s (fields s) refl h

statements-Blank : (lead s : Text) → Blank lead → statements (lead ++ s) ≡ statements s
statements-Blank [] s h = refl
statements-Blank (c ∷ lead) s (hc, hl) = ground (arith, statements-Blank lead s hl)

semicolon_refused : (word : Text) → is_allowed (to_upper (b';' ∷ word)) ≡ false
unfolding is_allowed to_upper upper_rune
semicolon_refused word = refl

-- An allowed word holds a rune that begins a statement.
allowed-statements :
    (word rest : Text)
    → IsWord word
    → is_allowed (to_upper word) ≡ true
    → 0 < statements (word ++ rest)
unfolding to_upper is_allowed
allowed-statements [] rest w h = absurd (cc)
allowed-statements (c ∷ word) rest (hc, hw) h = elim (Bool-cases (c == b';')) [
  | inl e ↦
      let refused = semicolon_refused word in
      let same : c ≡ b';' = (==_iff c b';').0 e in
      absurd (ground (arith, subst (λ x. is_allowed (to_upper (x ∷ word)) ≡ true) same h))
  | inr e ↦ rw (e, hc) (omega arith)
]

-- A query that the guard accepts holds exactly one statement, and its first word behind leading
-- blanks is SELECT or WITH under upper-casing.
pub check-IsSelect : (q : Text) → check q ≡ none → IsSelect q
check-IsSelect q h =
    let (filled, few, allowed) = check-none q h in
    let f = extract-FirstField (to_upper (strip q)) allowed in
    let (lead, tail, e, hl, ht) = strip-splits q in
    let (lead', word, rest, e', hl', hw, same, hr) =
      to_upper-word (strip q) f.lead (extract_first_keyword (to_upper (strip q))) f.rest f.splits
        f.lead_blank f.field_word in
    let word_allowed : is_allowed (to_upper word) ≡ true = rw same allowed in
    let split : q ≡ (lead ++ lead') ++ (word ++ (rest ++ tail)) =
      e ∙ ap (λ t. lead ++ (t ++ tail)) e' ∙ simp append_assoc in
    let blank = All-append _ lead lead' hl hl' in
    let some_statement : 0 < statements q = rw split (
      rw (statements-Blank (lead ++ lead') (word ++ (rest ++ tail)) blank)
        (allowed-statements word (rest ++ tail) hw word_allowed)) in
    record {
      lead = lead ++ lead';
      word = word;
      rest = rest ++ tail;
      splits = split;
      lead_blank = blank;
      is_word = hw;
      allowed = word_allowed;
      rest_ends =
          AtEnd-append rest tail (to_upper-AtSpace rest (subst AtSpace (sym hr) f.rest_space)) ht;
      single = ground arith;
    }
