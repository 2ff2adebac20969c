-- ===== src/Safety.antt =====
-- internal/safety/guard.go: the allowlist check of a generated query.
pub mod Statements
pub mod Strip
pub mod Allowlist
use querylynx.Base.{
  ℕ, Bool, not, ◌||◌, Option, none, some, List, [], ◌∷◌, ltb, if◌then◌else◌, is_nil, length,
}
use querylynx.Strings.{Text, codes, text_eq, trim_space, trim_suffix, split, fields, to_upper}

-- The errors of `Check`, with the values that their messages print.
pub data Violation : Type 0 where
  empty_query : Violation
  stacked_statements : ℕ → Violation
  statement_type : Text → Violation

-- The loop of `splitStatements` over the parts.
non_blank : List Text → List Text
non_blank [] = []
non_blank (p ∷ parts) =
    let rest = non_blank parts in
    let trimmed = trim_space p in if not (is_nil trimmed) then trimmed ∷ rest else rest

unfoldable pub split_statements : Text → List Text
unfolding non_blank
split_statements query = non_blank (split query b';')

first_or_empty : List Text → Text
first_or_empty [] = []
first_or_empty (f ∷ fs) = f

unfoldable pub extract_first_keyword : Text → Text
unfolding first_or_empty
extract_first_keyword upper = first_or_empty (fields upper)

unfoldable pub is_allowed : Text → Bool
unfolding text_eq
is_allowed keyword = text_eq keyword (codes "SELECT") || text_eq keyword (codes "WITH")

-- The query without surrounding space and without one final semicolon.
unfoldable pub strip : Text → Text
unfolding trim_space trim_suffix
strip query = trim_space (trim_suffix (trim_space query) b';')

check_stripped : Text → Option Violation
check_stripped q =
    let parts = split_statements q in
    let keyword = extract_first_keyword (to_upper q) in
    if is_nil q
    then some empty_query
    else if ltb 1 (length parts)
    then some (stacked_statements (length parts))
    else if is_allowed keyword
    then none
    else some (statement_type keyword)

-- `none` is the nil error.
unfoldable pub check : Text → Option Violation
unfolding check_stripped
check query = check_stripped (strip query)
