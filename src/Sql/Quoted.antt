-- ===== src/Sql/Quoted.antt =====
-- What the pattern of `ValidateTables` makes of a reference with a qualifier and quotes.
use querylynx.Base.{
  ℕ, zero, suc, ◌-◌, true, false, Option, none, some, List, [], ◌∷◌, ◌++◌, map, ◌≡◌, refl, ap, ◌∙◌,
  arith, ◌==◌, is_nil, All-map, All-append, length, length-append, ◌+◌,
}
use querylynx.Strings.{Text, codes, to_lower, has_prefix}
use querylynx.Strings.Names.{contains}
use querylynx.Schema.{Schema, table_names}
use querylynx.Regex.{
  match_here, find_all, find_all_from, is_word_folded, is_word, is_blank, one_of, either, boundary,
  literal, folds, ◌then_match◌,
}
use querylynx.Regex.Laws.{position, find_all_from_match}
use querylynx.Regex.Blanks.{NoBlank, find_all_from-Blocks}
use querylynx.Sql.{
  cte_re, from_join_re, unknown_table, validate_tables, check_refs, is_fine, normalize_table_ref,
}
use querylynx.Sql.References.{is_fine_known}
use querylynx.Sql.Normalize.{normalize_table_ref_quoted, normalize_table_ref_dotted}
use querylynx.Sql.Capture.{
  from_join_re-Blocks, cte_re-Blocks, IsPlainName, name-not_blank, match_quoted, match_dotted,
}

-- SELECT * and a reference behind FROM.
abbrev pub select_from : Text → Text
select_from reference = codes "SELECT * FROM " ++ reference

select_prefix :
    (x : Text)
    → find_all from_join_re (codes "SELECT * " ++ x) ≡ find_all_from from_join_re zero (some b' ') x
unfolding find_all from_join_re boundary either literal folds one_of ◌then_match◌ is_word match_here
select_prefix x = refl

-- The matches behind a first one that leaves `rest`.
abbrev behind : Text → Text → List Text
behind reference rest =
    find_all_from from_join_re (length (codes "ROM " ++ reference) - length rest) (some b'F')
      (codes "ROM " ++ reference)

-- The first reference of such a query is the one behind FROM.
find_from :
    (reference captured rest : Text) (before : Option ℕ)
    → match_here from_join_re (some b' ') (codes "FROM " ++ reference)
      ≡ some (position before rest captured)
    → find_all from_join_re (select_from reference) ≡ captured ∷ behind reference rest
find_from reference captured rest before e =
    select_prefix (codes "FROM " ++ reference)
    ∙ find_all_from_match from_join_re (some b' ') b'F' (codes "ROM " ++ reference)
        (position before rest captured) e

cte_prefix : (x : Text) → find_all cte_re (select_from x) ≡ find_all_from cte_re zero (some b' ') x
unfolding find_all cte_re boundary either literal folds one_of ◌then_match◌ is_word match_here
cte_prefix x = refl

select_from-ctes :
    (reference : Text) → NoBlank reference → find_all cte_re (select_from reference) ≡ []
select_from-ctes reference h =
    cte_prefix reference ∙ find_all_from-Blocks cte_re zero (some b' ') reference cte_re-Blocks h

-- The verdict on a reference that is the only one.
check_first :
    (s : Schema) (query reference captured : Text) (more : List Text)
    → find_all cte_re query ≡ []
    → find_all from_join_re query ≡ captured ∷ more
    → is_nil (normalize_table_ref captured) ≡ false
    → has_prefix captured (codes "(") ≡ false
    → contains (map to_lower (table_names s.tables)) (to_lower (normalize_table_ref captured))
      ≡ false
    → validate_tables query s ≡ some (unknown_table (normalize_table_ref captured) s)
unfolding validate_tables check_refs
check_first s query reference captured more ctes refs named opens unknown =
    rw (ctes, refs)
      (rw (is_fine_known [] (table_names s.tables) captured) (rw (named, opens, unknown)))

name-ne-quote : (c : ℕ) → is_word_folded c ≡ true → (c == b'"') ≡ false
unfolding is_word_folded is_word
name-ne-quote c h = ground arith

name-ne-dot : (c : ℕ) → is_word_folded c ≡ true → (c == b'.') ≡ false
unfolding is_word_folded is_word
name-ne-dot c h = ground arith

punctuation-NoBlank : NoBlank (codes "\".\"")
unfolding is_blank
punctuation-NoBlank = (refl, (refl, (refl, tt)))

name-NoBlank : (name : Text) → IsPlainName name → NoBlank name
name-NoBlank name = All-map _ _ name name-not_blank

table_quoted-NoBlank : (table : Text) → NoBlank table → NoBlank (table ++ b'"' ∷ [])
table_quoted-NoBlank table h = All-append _ table (b'"' ∷ []) h (punctuation-NoBlank.0, tt)

-- Let a qualifier be not empty and of characters that \w matches without regard to case. Then SELECT *
-- FROM and a table with this qualifier in quotes, a dot and a quoted name without blanks is refused, with
-- the qualifier as the unknown table, whenever the qualifier is not itself the name of a table in lower
-- case, whether or not the table exists.
pub validate_tables_quoted :
    (s : Schema) (c : ℕ) (qualifier table : Text)
    → IsPlainName (c ∷ qualifier)
    → NoBlank table
    → contains (map to_lower (table_names s.tables)) (to_lower (c ∷ qualifier)) ≡ false
    → validate_tables
        (select_from (b'"' ∷ c ∷ (qualifier ++ (codes "\".\"" ++ (table ++ b'"' ∷ [])))))
        s
      ≡ some (unknown_table (c ∷ qualifier) s)
unfolding has_prefix
validate_tables_quoted s c qualifier table plain unblank unknown =
    let rest = b'.' ∷ b'"' ∷ (table ++ b'"' ∷ []) in
    let reference = b'"' ∷ c ∷ (qualifier ++ (b'"' ∷ rest)) in
    let refs =
      find_from reference (b'"' ∷ c ∷ (qualifier ++ b'"' ∷ [])) rest (some b'"')
        (match_quoted c qualifier rest plain) in
    let bare =
      normalize_table_ref_quoted (c ∷ qualifier) (All-map _ _ (c ∷ qualifier) name-ne-quote plain)
        (All-map _ _ (c ∷ qualifier) name-ne-dot plain) in
    let reference-NoBlank : NoBlank reference = (
      punctuation-NoBlank.0,
      All-append _ (c ∷ qualifier) (b'"' ∷ rest) (name-NoBlank (c ∷ qualifier) plain) (
          All-append _ (codes "\".\"") (table ++ b'"' ∷ []) punctuation-NoBlank
            (table_quoted-NoBlank table unblank)),
    ) in
    let verdict =
      check_first s (select_from reference) reference (b'"' ∷ c ∷ (qualifier ++ b'"' ∷ []))
        (behind reference rest) (select_from-ctes reference reference-NoBlank) refs (rw bare) refl
        (rw bare unknown) in
    verdict ∙ ap (λ name. some (unknown_table name s)) bare

rom_skipped :
    (reference : Text) (n : ℕ)
    → NoBlank reference
    → find_all_from from_join_re (suc (suc (suc (suc n)))) (some b'F') (codes "ROM " ++ reference)
      ≡ []
unfolding find_all_from
rom_skipped reference n h =
    find_all_from-Blocks from_join_re n (some b' ') reference from_join_re-Blocks h

behind-nil :
    (c : ℕ) (qualifier rest : Text)
    → NoBlank (c ∷ (qualifier ++ (codes ".\"" ++ rest)))
    → behind (c ∷ (qualifier ++ (codes ".\"" ++ rest))) rest ≡ []
behind-nil c qualifier rest h =
    let lengths = length-append {0} qualifier (codes ".\"" ++ rest) in
    let skip : length (codes "ROM " ++ (c ∷ (qualifier ++ (codes ".\"" ++ rest)))) - length rest
        ≡ suc (suc (suc (suc (length qualifier + 3)))) =
      omega arith in
    rw skip (rom_skipped _ (length qualifier + 3) h)

-- SELECT * FROM and a table with a plain qualifier, a dot and a quoted name without blanks is
-- accepted, whatever the schema.
pub validate_tables_dotted :
    (s : Schema) (c : ℕ) (qualifier table : Text)
    → IsPlainName (c ∷ qualifier)
    → NoBlank table
    → validate_tables (select_from (c ∷ (qualifier ++ (codes ".\"" ++ (table ++ b'"' ∷ []))))) s
      ≡ none
unfolding validate_tables check_refs is_fine
validate_tables_dotted s c qualifier table plain unblank =
    let rest = table ++ b'"' ∷ [] in
    let captured = c ∷ (qualifier ++ b'.' ∷ b'"' ∷ []) in
    let reference = c ∷ (qualifier ++ (codes ".\"" ++ rest)) in
    let reference-NoBlank : NoBlank reference =
      All-append _ (c ∷ qualifier) (codes ".\"" ++ rest) (name-NoBlank (c ∷ qualifier) plain) (
        All-append _ (codes ".\"") rest punctuation-NoBlank.1
          (table_quoted-NoBlank table unblank)) in
    let nothing_more = behind-nil c qualifier rest reference-NoBlank in
    let refs =
      find_from reference captured rest (some b'"') (match_dotted c qualifier rest plain)
      ∙ ap (◌∷◌ captured) nothing_more in
    rw refs (rw (normalize_table_ref_dotted c qualifier (name-ne-quote c plain.0)) (ground arith))
