-- ===== src/Postgres/Limit.antt =====
-- `Validate`: what it returns for a query that the guard accepts.
use querylynx.Base.{
  ℕ, suc, true, false, none, some, [], ◌∷◌, ◌++◌, ◌≡◌, ◌↔◌, ◌⊎◌, refl, sym, ap, ◌∙◌, arith, ◌==◌,
  inl, inr, ok, err, append_assoc, All, All-append, All-map,
}
use querylynx.Base.Int.{ℤ, pos, negsuc}
use querylynx.Strings.{Text, codes, print_int, decimal, is_space}
use querylynx.Strings.Decimal.{IsDigit, decimal-IsDigit}
use querylynx.Regex.{
  match_string, matches_here, boundary, literal, ◌then_match◌, one_of, folds, is_word,
}
use querylynx.Regex.Laws.{last_rune, matches_from-here, matches_from-cons, matches_from-append}
use querylynx.Safety.{Violation, stacked_statements, strip, check}
use querylynx.Safety.Statements.{statements_from, statements, strip-statements}
use querylynx.Safety.Allowlist.{check_stacked, statements_from-append, check-IsSelect}
use querylynx.Postgres.{Config, limit_re, validate}

-- The clause that `Validate` appends.
abbrev pub limit_clause : Config → Text
limit_clause cfg = codes " LIMIT " ++ print_int cfg.row_cap

limit_clause_here :
    (digits : Text) → matches_here limit_re (some b' ') (codes "LIMIT " ++ digits) ≡ true
unfolding limit_re matches_here boundary literal one_of folds is_word ◌then_match◌
limit_clause_here digits = refl

-- A text with the clause behind it has the word LIMIT.
limit_clause-match :
    (cfg : Config) (q : Text) → match_string limit_re (q ++ limit_clause cfg) ≡ true
unfolding match_string
limit_clause-match cfg q = matches_from-append limit_re none q (limit_clause cfg) (
    matches_from-cons limit_re (last_rune none q) b' ' (codes "LIMIT " ++ print_int cfg.row_cap)
      (matches_from-here limit_re (some b' ') _ (limit_clause_here (print_int cfg.row_cap))))

-- The two forms of a validated query.
pub validate_forms :
    (cfg : Config) (q : Text) {r : Text}
    → validate cfg q ≡ ok r
    → (check q ≡ none)
      × ((match_string limit_re (strip q) ≡ true) × (r ≡ strip q)
          ⊎ (match_string limit_re (strip q) ≡ false) × (r ≡ strip q ++ limit_clause cfg))
unfolding validate strip
validate_forms cfg q h = ground arith

-- If Validate returns a query, the guard accepts the input, the returned query contains the word
-- LIMIT, and it is the stripped input, or that with the clause LIMIT and the row cap appended.
pub validate-limit :
    (cfg : Config) (q : Text) {r : Text}
    → validate cfg q ≡ ok r
    → (check q ≡ none)
      × (match_string limit_re r ≡ true)
      × ((r ≡ strip q) ⊎ (r ≡ strip q ++ limit_clause cfg))
validate-limit cfg q h =
    let (checked, form) = validate_forms cfg q h in
    elim form [
      | inl (found, same) ↦ (checked, rw same found, inl same)
      | inr (missing, same) ↦ (checked, rw same (limit_clause-match cfg (strip q)), inr same)
    ]

-- `Validate` fails exactly when the guard does, and with the guard's error.
pub validate_refuses :
    (cfg : Config) (q : Text) (v : Violation) → (validate cfg q ≡ err v) ↔ (check q ≡ some v)
unfolding validate
validate_refuses cfg q v = (λ h. ground arith, λ h. rw h)

abbrev LacksSemicolon : Text → Type 0
LacksSemicolon = All (λ c. (c == b';') ≡ false)

-- A statement that is being read goes on through a text with no semicolon.
statements_inside : (s : Text) → LacksSemicolon s → statements_from true s ≡ 0
statements_inside [] h = refl
statements_inside (c ∷ s) (hc, hs) = rw hc (omega (arith, statements_inside s hs))

statements_from-lacks :
    (s t : Text) → LacksSemicolon s → statements_from true (s ++ t) ≡ statements_from true t
statements_from-lacks [] t h = refl
statements_from-lacks (c ∷ s) t (hc, hs) = rw hc (omega (arith, statements_from-lacks s t hs))

statements-append :
    (s t : Text)
    → LacksSemicolon s
    → statements s ≡ 1
    → statements (s ++ t) ≡ suc (statements_from true t)
statements-append [] t h e = absurd (omega arith)
statements-append (c ∷ s) t (hc, hs) e =
    ground (arith, statements-append s t hs, statements_from-lacks s t hs)

pub print_int-IsNumeral : (n : ℤ) → All (λ c. (c == b'-') ≡ true ⊎ IsDigit c) (print_int n)
unfolding print_int
print_int-IsNumeral (pos n) = All-map _ _ (decimal n) (λ c h. inr h) (decimal-IsDigit n)
print_int-IsNumeral (negsuc n) =
    (inl refl, All-map _ _ (decimal (suc n)) (λ c h. inr h) (decimal-IsDigit (suc n)))

numeral-ne-semicolon : (c : ℕ) → ((c == b'-') ≡ true ⊎ IsDigit c) → (c == b';') ≡ false
numeral-ne-semicolon c h = ground arith

print_int-LacksSemicolon : (n : ℤ) → LacksSemicolon (print_int n)
print_int-LacksSemicolon n = All-map _ _ (print_int n) numeral-ne-semicolon (print_int-IsNumeral n)

limit_clause-LacksSemicolon : (cfg : Config) → LacksSemicolon (limit_clause cfg)
limit_clause-LacksSemicolon cfg =
    All-append _ (codes " LIMIT ") (print_int cfg.row_cap) (ground arith)
      (print_int-LacksSemicolon cfg.row_cap)

limit_clause-statements : (cfg : Config) → statements (limit_clause cfg) ≡ 1
unfolding is_space
limit_clause-statements cfg =
    omega (arith, statements_inside (print_int cfg.row_cap) (print_int-LacksSemicolon cfg.row_cap))

-- If Validate returns a query and the stripped input has no semicolon, then the returned query
-- holds exactly one statement.
pub validate-statements :
    (cfg : Config) (q : Text) {r : Text}
    → validate cfg q ≡ ok r
    → LacksSemicolon (strip q)
    → statements r ≡ 1
validate-statements cfg q h lacks =
    let (checked, form) = validate_forms cfg q h in
    let single = strip-statements q ∙ (check-IsSelect q checked).single in
    elim form [
      | inl (found, same) ↦ rw same single
      | inr (missing, same) ↦ rw same (
          statements-append (strip q) (limit_clause cfg) lacks single
          ∙ ap suc (statements_inside (limit_clause cfg) (limit_clause-LacksSemicolon cfg)))
    ]

-- If a semicolon is still at the end of the stripped query, as after `;;`, and it has no LIMIT, then
-- the guard has accepted the query, and the clause that `Validate` appends is a second statement: the
-- guard refuses the result as stacked.
pub validate_two_semicolons :
    (cfg : Config) (q body : Text) {r : Text}
    → validate cfg q ≡ ok r
    → strip q ≡ body ++ b';' ∷ []
    → match_string limit_re (strip q) ≡ false
    → (check q ≡ none) × (check r ≡ some (stacked_statements 2))
validate_two_semicolons cfg q body h e missing =
    let (checked, form) = validate_forms cfg q h in
    let single = strip-statements q ∙ (check-IsSelect q checked).single in
    let before = statements_from-append false body [] in
    let after = statements_from-append false body (limit_clause cfg) in
    let clause = limit_clause-statements cfg in
    let body_single : statements body ≡ 1 = omega (arith, sym (ap statements e) ∙ single) in
    let two : statements (body ++ b';' ∷ limit_clause cfg) ≡ 2 = omega arith in
    elim form [
      | inl (found, same) ↦ cc
      | inr (_, same) ↦ (
        checked,
        rw (same, e, append_assoc)
            (check_stacked _ (omega arith) ∙ ap (λ n. some (stacked_statements n)) two),
      )
    ]
