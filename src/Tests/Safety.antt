-- ===== src/Tests/Safety.antt =====
-- The guard and `Validate` on concrete queries.
use querylynx.Base.{none, some, ok, ◌≡◌, refl, ◌∷◌, ◌++◌, arith, ◌⊎◌, true, length}
use querylynx.Base.Int.{pos}
use querylynx.Strings.{codes}
use querylynx.Regex.{match_string}
use querylynx.Safety.{
  split_statements, check, empty_query, stacked_statements, statement_type, strip,
}
use querylynx.Safety.Statements.{statements, split_statements-statements}
use querylynx.Safety.Allowlist.{IsSelect, check-IsSelect, check-append}
use querylynx.Postgres.{Config, validate, limit_re}
use querylynx.Postgres.Limit.{
  limit_clause, validate-limit, validate-statements, validate_two_semicolons,
}
use querylynx.Postgres.Comments.{scan, visible, validate_commented}
use querylynx.Tests.Running.{run_safety}

check-select : check (codes "  select 1 ; ") ≡ none
unfolding run_safety
check-select = refl

check_blank : check (codes " ; ") ≡ some empty_query
unfolding run_safety
check_blank = refl

check_delete : check (codes "delete from t") ≡ some (statement_type (codes "DELETE"))
unfolding run_safety
check_delete = refl

-- U+017F, a long s, is upper-cased to S.
check_long_s : check (0x17f ∷ codes "elect 1") ≡ none
unfolding run_safety
check_long_s = refl

check-append_example :
    check (codes "SELECT 1" ++ b';' ∷ codes " DROP TABLE x;") ≡ some (stacked_statements 2)
unfolding run_safety
check-append_example =
    check-append (codes "SELECT 1") (codes " DROP TABLE x;") (omega arith) (omega arith)

check-IsSelect_example : IsSelect (codes "  select 1 ; ")
check-IsSelect_example = check-IsSelect (codes "  select 1 ; ") check-select

abbrev cfg : Config
cfg = record { dsn = codes "postgres://h/db"; row_cap = pos 1000 }

validate_plain : validate cfg (codes " SELECT 1;") ≡ ok (codes "SELECT 1 LIMIT 1000")
unfolding run_safety
validate_plain = refl

validate_twice : validate cfg (codes "SELECT 1;;") ≡ ok (codes "SELECT 1; LIMIT 1000")
unfolding run_safety
validate_twice = refl

-- The word LIMIT in a literal keeps the clause away.
validate_literal :
    validate cfg (codes "SELECT * FROM t WHERE a = 'limit'")
    ≡ ok (codes "SELECT * FROM t WHERE a = 'limit'")
unfolding run_safety
validate_literal = refl

validate_comment : validate cfg (codes "SELECT 1 -- all") ≡ ok (codes "SELECT 1 -- all LIMIT 1000")
unfolding run_safety
validate_comment = refl

validate-limit_example :
    (check (codes " SELECT 1;") ≡ none)
    × (match_string limit_re (codes "SELECT 1 LIMIT 1000") ≡ true)
    × ((codes "SELECT 1 LIMIT 1000" ≡ strip (codes " SELECT 1;"))
        ⊎ (codes "SELECT 1 LIMIT 1000" ≡ strip (codes " SELECT 1;") ++ limit_clause cfg))
validate-limit_example = validate-limit cfg (codes " SELECT 1;") validate_plain

split_statements-statements_example :
    length (split_statements (codes "a; ;b;")) ≡ statements (codes "a; ;b;")
split_statements-statements_example = split_statements-statements (codes "a; ;b;")

validate-statements_example : statements (codes "SELECT 1 LIMIT 1000") ≡ 1
validate-statements_example =
    validate-statements cfg (codes " SELECT 1;") validate_plain (unfold run_safety in ground arith)

validate_two_semicolons_example :
    (check (codes "SELECT 1;;") ≡ none)
    × (check (codes "SELECT 1; LIMIT 1000") ≡ some (stacked_statements 2))
validate_two_semicolons_example =
    validate_two_semicolons cfg (codes "SELECT 1;;") (codes "SELECT 1") validate_twice
      (unfold run_safety in refl) (unfold run_safety in refl)

validate_commented_example :
    (codes "SELECT 1 -- all LIMIT 1000" ≡ strip (codes "SELECT 1 -- all") ++ limit_clause cfg)
    × (visible (codes "SELECT 1 -- all LIMIT 1000") ≡ visible (strip (codes "SELECT 1 -- all")))
validate_commented_example =
    validate_commented cfg (codes "SELECT 1 -- all") validate_comment (unfold run_safety in refl)
      (unfold run_safety scan in refl)
