-- ===== src/Sql/Capture.antt =====
-- What the pattern of `ValidateTables` captures of a reference with a qualifier and quotes.
use querylynx.Base.{
  ℕ, ◌-◌, true, false, some, [], ◌∷◌, ◌++◌, ◌≡◌, refl, arith, All, All-map, All-append,
  append_assoc, length, take,
}
use querylynx.Strings.{Text, codes}
use querylynx.Regex.{
  match_here, is_word_folded, is_word, is_blank, many, one_of, some_of, maybe, either, group,
  boundary, literal, folds, ◌then_match◌,
}
use querylynx.Regex.Laws.{position, some_of-run, take-append}
use querylynx.Regex.Blanks.{
  Blocks, Blocks-then_match, then_match-Blocks, then_match-Passes, one_of-Passes, boundary-Passes,
  either-Passes, literal-Passes, blanks-Blocks,
}
use querylynx.Sql.{cte_re, from_join_re, is_quote, in_reference}

pub from_join_re-Blocks : Blocks from_join_re
unfolding from_join_re
from_join_re-Blocks = then_match-Blocks boundary-Passes (
    then_match-Blocks
      (either-Passes (literal-Passes (codes "from")) (literal-Passes (codes "join")))
      (Blocks-then_match _ blanks-Blocks))

pub cte_re-Blocks : Blocks cte_re
unfolding cte_re
cte_re-Blocks =
    then_match-Blocks
      (either-Passes
        (then_match-Passes boundary-Passes
          (then_match-Passes (literal-Passes (codes "with")) boundary-Passes))
        (one_of-Passes _))
      (Blocks-then_match _ blanks-Blocks)

-- A name that needs no quotes.
abbrev pub IsPlainName : Text → Type 0
IsPlainName = All (λ c. is_word_folded c ≡ true)

pub name-not_blank : (c : ℕ) → is_word_folded c ≡ true → is_blank c ≡ false
unfolding is_word_folded is_word is_blank
name-not_blank c h = ground arith

name-in_reference : (c : ℕ) → is_word_folded c ≡ true → in_reference c ≡ true
unfolding in_reference
name-in_reference c h = rw h

quote_stops : in_reference b'"' ≡ false
unfolding in_reference is_word_folded is_word
quote_stops = refl

dot_stays : in_reference b'.' ≡ true
unfolding in_reference is_word_folded is_word
dot_stays = refl

name-not_quote : (c : ℕ) → is_word_folded c ≡ true → is_quote c ≡ false
unfolding is_word_folded is_word
name-not_quote c h = ground arith

space_blank : is_blank b' ' ≡ true
unfolding is_blank
space_blank = refl

-- The group of the pattern, at a quote and a plain name.
group_quoted :
    (c : ℕ) (name rest : Text)
    → IsPlainName (c ∷ name)
    → group
        (maybe is_quote then_match some_of in_reference then_match maybe is_quote)
        (position (some b' ') (b'"' ∷ c ∷ (name ++ b'"' ∷ rest)) [])
        (λ q. some q)
      ≡ some (position (some b'"') rest (b'"' ∷ c ∷ (name ++ b'"' ∷ [])))
unfolding group maybe one_of ◌then_match◌
group_quoted c name rest h =
    let whole = b'"' ∷ c ∷ (name ++ b'"' ∷ rest) in
    let captured : take (length whole - length rest) whole ≡ b'"' ∷ c ∷ (name ++ b'"' ∷ []) =
      rw (← append_assoc name (b'"' ∷ []) rest)
        (take-append (b'"' ∷ c ∷ (name ++ b'"' ∷ [])) rest) in
    let found =
      some_of-run in_reference c name (b'"' ∷ rest) (some b'"') []
        (λ q.
          maybe is_quote q
            (λ q'. some (record q' { captured = take (length whole - length q'.rest) whole })))
        (All-map _ _ (c ∷ name) name-in_reference h) quote_stops refl in
    rw found (rw captured)

-- The same at a plain name, a dot and a quote: the group ends behind the quote.
group_dotted :
    (c : ℕ) (name rest : Text)
    → IsPlainName (c ∷ name)
    → group
        (maybe is_quote then_match some_of in_reference then_match maybe is_quote)
        (position (some b' ') (c ∷ (name ++ b'.' ∷ b'"' ∷ rest)) [])
        (λ q. some q)
      ≡ some (position (some b'"') rest (c ∷ (name ++ b'.' ∷ b'"' ∷ [])))
unfolding group maybe one_of ◌then_match◌
group_dotted c name rest h =
    let whole = c ∷ ((name ++ b'.' ∷ []) ++ b'"' ∷ rest) in
    let captured : take (length whole - length rest) whole ≡ c ∷ (name ++ b'.' ∷ b'"' ∷ []) =
      rw (append_assoc name (b'.' ∷ []) (b'"' ∷ rest), ← append_assoc name (b'.' ∷ b'"' ∷ []) rest)
        (take-append (c ∷ (name ++ b'.' ∷ b'"' ∷ [])) rest) in
    let plain =
      All-append (λ x. in_reference x ≡ true) (c ∷ name) (b'.' ∷ [])
        (All-map _ _ (c ∷ name) name-in_reference h) (dot_stays, tt) in
    let found =
      some_of-run in_reference c (name ++ b'.' ∷ []) (b'"' ∷ rest) (some b' ') []
        (λ q.
          maybe is_quote q
            (λ q'. some (record q' { captured = take (length whole - length q'.rest) whole })))
        plain quote_stops refl in
    rw (name-not_quote c h.0, ← append_assoc name (b'.' ∷ []) (b'"' ∷ rest))
      (rw found (rw captured))

-- The pattern at FROM, a space and such a reference.
pub match_quoted :
    (c : ℕ) (name rest : Text)
    → IsPlainName (c ∷ name)
    → match_here from_join_re (some b' ') (codes "FROM " ++ (b'"' ∷ c ∷ (name ++ b'"' ∷ rest)))
      ≡ some (position (some b'"') rest (b'"' ∷ c ∷ (name ++ b'"' ∷ [])))
unfolding match_here from_join_re boundary either literal folds one_of some_of many ◌then_match◌
    is_blank is_word
match_quoted c name rest h = rw (group_quoted c name rest h)

pub match_dotted :
    (c : ℕ) (name rest : Text)
    → IsPlainName (c ∷ name)
    → match_here from_join_re (some b' ') (codes "FROM " ++ (c ∷ (name ++ b'.' ∷ b'"' ∷ rest)))
      ≡ some (position (some b'"') rest (c ∷ (name ++ b'.' ∷ b'"' ∷ [])))
unfolding match_here from_join_re boundary either literal folds one_of ◌then_match◌ is_word
match_dotted c name rest h =
    let found =
      some_of-run is_blank b' ' [] (c ∷ (name ++ b'.' ∷ b'"' ∷ rest)) (some b'M') []
        (λ q.
          group (maybe is_quote then_match some_of in_reference then_match maybe is_quote) q
            (λ q'. some q'))
        (space_blank, tt) (name-not_blank c h.0) (group_dotted c name rest h) in
    rw found
