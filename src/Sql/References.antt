-- ===== src/Sql/References.antt =====
-- `ValidateTables`: which references pass, and what the pattern makes of a quoted reference.
use querylynx.Base.{
  Bool, true, ◌||◌, List, [], ◌∷◌, ◌++◌, map, map-append, ◌≡◌, refl, ◌∙◌, arith, is_nil,
}
use querylynx.Strings.{Text, codes, to_lower, has_prefix}
use querylynx.Strings.Names.{contains, contains-append}
use querylynx.Regex.{find_all}
use querylynx.Dict.{Dict, put, flag, flag-put, flag-nil}
use querylynx.Schema.{Schema, table_names}
use querylynx.Sql.{cte_re, normalize_table_ref, add_known, is_fine}

-- The names that a query may refer to, in lower case: those that the pattern for CTEs finds, and the
-- tables of the schema.
abbrev pub known_keys : Text → Schema → List Text
known_keys query s = map to_lower (find_all cte_re query ++ table_names s.tables)

-- A reference passes if it has no name, or a known one.
abbrev pub Passes : List Text → Text → Type 0
Passes keys ref =
    ((has_prefix ref (codes "(")
        || is_nil (normalize_table_ref ref)
        || contains keys (to_lower (normalize_table_ref ref)))
      ≡ true)

add_known-flag :
    (names : List Text) (known : Dict Bool) (key : Text)
    → flag key (add_known names known) ≡ (contains (map to_lower names) key || flag key known)
unfolding add_known contains
add_known-flag [] known key = refl
add_known-flag (n ∷ names) known key =
    add_known-flag names (put (to_lower n) true known) key ∙ rw flag-put (ground arith)

known_flag :
    (ctes tables : List Text) (key : Text)
    → flag key (add_known ctes (add_known tables [])) ≡ contains (map to_lower (ctes ++ tables)) key
known_flag ctes tables key =
    add_known-flag ctes (add_known tables []) key
    ∙ rw (add_known-flag, map-append, contains-append) (ground (arith, flag-nil key))

pub is_fine_known :
    (ctes tables : List Text) (ref : Text)
    → is_fine (add_known ctes (add_known tables [])) ref ≡ (
        has_prefix ref (codes "(")
        || is_nil (normalize_table_ref ref)
        || contains (map to_lower (ctes ++ tables)) (to_lower (normalize_table_ref ref)))
unfolding is_fine
is_fine_known ctes tables ref = rw known_flag
