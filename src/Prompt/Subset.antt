-- ===== src/Prompt/Subset.antt =====
-- `Subset` against membership in the list of names.
use querylynx.Base.{
  Bool, true, ◌||◌, List, [], ◌∷◌, ◌++◌, ◌≡◌, ◌≢◌, refl, sym, ap, ◌∙◌, arith, if◌then◌else◌,
  append_assoc,
}
use querylynx.Strings.{Text}
use querylynx.Strings.Equal.{text_eq-eq}
use querylynx.Strings.Names.{contains, contains_self}
use querylynx.Dict.{Dict, flag, put, flag-put, flag-nil}
use querylynx.Schema.{Schema, Table, table_names}
use querylynx.Prompt.{subset, keep_names, kept_tables}

-- The tables that a test keeps, in their order.
unfoldable pub select : (Table → Bool) → List Table → List Table
select p [] = []
select p (t ∷ ts) = let rest = select p ts in if p t then t ∷ rest else rest

keep_names-flag :
    (names : List Text) (keep : Dict Bool) (n : Text)
    → flag n (keep_names names keep) ≡ (contains names n || flag n keep)
unfolding keep_names contains
keep_names-flag [] keep n = refl
keep_names-flag (x ∷ names) keep n =
    keep_names-flag names (put x true keep) n ∙ rw flag-put (ground arith)

kept_tables-select :
    (names : List Text) (ts : List Table)
    → kept_tables (keep_names names []) ts ≡ select (λ t. contains names t.name) ts
unfolding kept_tables select
kept_tables-select names [] = refl
kept_tables-select names (t ∷ ts) =
    rw (kept_tables-select names ts)
      (ground (arith, keep_names-flag names [] t.name, flag-nil t.name))

-- `Subset` keeps exactly the tables whose name is in the list, in the order of the schema, each as it
-- stood, and the name of the database.
pub subset-select :
    (s : Schema) (names : List Text)
    → subset s names ≡ record {
      database_name = s.database_name;
      tables = select (λ t. contains names t.name) s.tables;
    }
unfolding subset
subset-select s names = rw (kept_tables-select names s.tables)

select_idem : (p : Table → Bool) (ts : List Table) → select p (select p ts) ≡ select p ts
unfolding select
select_idem p [] = refl
select_idem p (t ∷ ts) = ground (arith, select_idem p ts)

-- To take the same subset twice is to take it once.
pub subset_idem : (s : Schema) (names : List Text) → subset (subset s names) names ≡ subset s names
subset_idem s names =
    rw (subset-select s names, subset-select _ names)
      (rw (select_idem (λ t. contains names t.name) s.tables))

select_all :
    (before : List Text) (ts : List Table)
    → select (λ t. contains (before ++ table_names ts) t.name) ts ≡ ts
unfolding select
select_all before [] = refl
select_all before (t ∷ ts) = rw (contains_self before (table_names ts) t.name) (
    ap (λ names. t ∷ select (λ u. contains names u.name) ts)
      (sym (append_assoc before (t.name ∷ []) (table_names ts)))
    ∙ ap (◌∷◌ t) (select_all (before ++ t.name ∷ []) ts))

select-ne-nil :
    (names : List Text) (n : Text) (ts : List Table)
    → contains (table_names ts) n ≡ true
    → contains names n ≡ true
    → select (λ t. contains names t.name) ts ≢ []
unfolding select contains
select-ne-nil names n [] here listed = absurd (ground arith)
select-ne-nil names n (t ∷ ts) here listed =
    ground (arith, text_eq-eq t.name n, select-ne-nil names n ts)

-- Asked for all its names, a schema is returned whole.
pub subset-table_names : (s : Schema) → subset s (table_names s.tables) ≡ s
subset-table_names s = rw subset-select (rw (select_all [] s.tables))

-- If some table has a listed name, the subset has a table.
pub subset-ne-nil :
    (s : Schema) (names : List Text) (n : Text)
    → contains (table_names s.tables) n ≡ true
    → contains names n ≡ true
    → (subset s names).tables ≢ []
subset-ne-nil s names n here listed = rw subset-select (select-ne-nil names n s.tables here listed)
