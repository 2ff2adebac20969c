-- ===== src/Postgres/Introspection/Whole.antt =====
-- `Introspect` as a whole: the names of the tables and the sample values of their columns.
use querylynx.Base.{
  ℕ, zero, suc, ◌≤◌, Option, none, some, List, [], ◌∷◌, ◌≡◌, refl, sym, ap, subst, ◌∙◌, arith, All,
  length, Result, ok, err,
}
use querylynx.Base.Int.{ℤ}
use querylynx.Strings.{Text, codes}
use querylynx.Strings.Names.{IsDistinct}
use querylynx.Context.{Context}
use querylynx.Dict.{get}
use querylynx.Schema.{Column, ForeignKey, Table, Schema, table_names}
use querylynx.Postgres.Catalog.{Catalog, Listing, KeyRow, scan_rows, at_end, listed}
use querylynx.Postgres.Introspection.{
  Tables, modify_at, with_key, add_key_at, add_key, introspect_columns, introspect_foreign_keys,
  sample_values, consed, sampled_column, sample_columns, sampled_table, counted_table, fill_tables,
  filled, with_keys, with_columns, named, introspect,
}
use querylynx.Postgres.Introspection.Grouping.{introspect_columns-Groups}
use querylynx.Postgres.Introspection.Samples.{sample_values-KeepsFew}

abbrev pub HasFewSamples : Table → Type 0
HasFewSamples t = All (λ c. length c.sample_values ≤ 5) t.columns

table_names-with_key :
    (fk : ForeignKey) (i : ℕ) (ts : List Table)
    → table_names (modify_at i (with_key fk) ts) ≡ table_names ts
unfolding modify_at
table_names-with_key fk i [] = refl
table_names-with_key fk zero (t ∷ ts) = refl
table_names-with_key fk (suc i) (t ∷ ts) = rw (table_names-with_key fk i ts)

add_key_at-names :
    (r : KeyRow) (ts : Tables) (found : Option ℕ)
    → table_names (add_key_at r ts found).tables ≡ table_names ts.tables
unfolding add_key_at
add_key_at-names r ts none = refl
add_key_at-names r ts (some i) = table_names-with_key r.key i ts.tables

scan_rows-names :
    (scan iterate : Text) (ended : Option Text) (ts out : Tables) (rows : List (Result Text KeyRow))
    → scan_rows scan iterate add_key ended ts rows ≡ ok out
    → table_names out.tables ≡ table_names ts.tables
unfolding scan_rows at_end add_key
scan_rows-names scan iterate none ts out [] e =
    let same : ts ≡ out = ground arith in ap (λ x. table_names x.tables) (sym same)
scan_rows-names scan iterate (some why) ts out [] e = absurd (ground arith)
scan_rows-names scan iterate ended ts out (err why ∷ rows) e = absurd (ground arith)
scan_rows-names scan iterate ended ts out (ok r ∷ rows) e =
    scan_rows-names scan iterate ended (add_key r ts) out rows e
    ∙ add_key_at-names r ts (get r.table ts.idx)

listed-names :
    (query scan iterate : Text) (ts out : Tables) (l : Result Text (Listing KeyRow))
    → listed query scan iterate add_key ts l ≡ ok out
    → table_names out.tables ≡ table_names ts.tables
unfolding listed
listed-names query scan iterate ts out (err e) h = absurd (ground arith)
listed-names query scan iterate ts out (ok l) h =
    scan_rows-names scan iterate l.ended ts out l.rows h

consed-ok :
    {W A : Type 0} (a : A) (r : Result Text (List A) × W) (out : List A)
    → (consed a r).0 ≡ ok out
    → (more : List A) × (r.0 ≡ ok more) × (out ≡ a ∷ more)
unfolding consed
consed-ok a (err e, w) out h = absurd (ground arith)
consed-ok a (ok more, w) out h = (more, refl, ground arith)

sampled_column-few :
    {W : Type 0} (c : Column) (rest : W → Result Text (List Column) × W)
    (r : Result Text (List Text) × W) (out : List Column)
    → (sampled_column c rest r).0 ≡ ok out
    → ((vals : List Text) → r.0 ≡ ok vals → length vals ≤ 5)
    → ((more : List Column) (w : W)
        → (rest w).0 ≡ ok more
        → All (λ x. length x.sample_values ≤ 5) more)
    → All (λ x. length x.sample_values ≤ 5) out
unfolding sampled_column
sampled_column-few c rest (err e, w) out h few ih = absurd (ground arith)
sampled_column-few c rest (ok vals, w) out h few ih =
    let (more, ran, all) = consed-ok _ (rest w) out h in
    subst (All (λ x. length x.sample_values ≤ 5)) (sym all) (few vals refl, ih more w ran)

-- The names of the tables are kept, and their columns have few samples.
abbrev pub IsFilled : List Table → List Table → Type 0
IsFilled before after = (table_names after ≡ table_names before) × All HasFewSamples after

sampled_table-IsFilled :
    {W : Type 0} (t : Table) (ts : List Table) (rest : W → Result Text (List Table) × W)
    (r : Result Text (List Column) × W) (out : List Table)
    → (sampled_table t rest r).0 ≡ ok out
    → ((cs : List Column) → r.0 ≡ ok cs → All (λ c. length c.sample_values ≤ 5) cs)
    → ((more : List Table) (w : W) → (rest w).0 ≡ ok more → IsFilled ts more)
    → IsFilled (t ∷ ts) out
unfolding sampled_table
sampled_table-IsFilled t ts rest (err e, w) out h few ih = absurd (ground arith)
sampled_table-IsFilled t ts rest (ok cs, w) out h few ih =
    let (more, ran, all) = consed-ok _ (rest w) out h in
    let (names, rest_few) = ih more w ran in
    subst (IsFilled (t ∷ ts)) (sym all) (ap (λ n. t.name ∷ n) names, (few cs refl, rest_few))

-- A schema whose tables have distinct names and columns with few samples.
abbrev pub IsSound : Schema → Type 0
IsSound s = IsDistinct (table_names s.tables) × All HasFewSamples s.tables

module _ {W : Type 0} (catalog : Catalog W) (ctx : Context) where
  sample_columns-few :
      (table : Text) (cs : List Column) (w : W) (out : List Column)
      → (sample_columns catalog ctx table cs w).0 ≡ ok out
      → All (λ c. length c.sample_values ≤ 5) out
  unfolding sample_columns
  sample_columns-few table [] w out h =
      let same : [] ≡ out = ground arith in subst (All (λ c. length c.sample_values ≤ 5)) same tt
  sample_columns-few table (c ∷ cs) w out h =
      sampled_column-few c (sample_columns catalog ctx table cs)
        (sample_values catalog ctx table c.name w) out h
        (λ vals e.
          let (found, all, few) = sample_values-KeepsFew catalog ctx table c.name w e in few.2)
        (λ more w' e. sample_columns-few table cs w' more e)

  counted_table-IsFilled :
      (t : Table) (ts : List Table) (rest : W → Result Text (List Table) × W)
      (r : Result Text ℤ × W) (out : List Table)
      → (counted_table catalog ctx t rest r).0 ≡ ok out
      → ((more : List Table) (w : W) → (rest w).0 ≡ ok more → IsFilled ts more)
      → IsFilled (t ∷ ts) out
  unfolding counted_table
  counted_table-IsFilled t ts rest (err e, w) out h ih = absurd (ground arith)
  counted_table-IsFilled t ts rest (ok n, w) out h ih =
      sampled_table-IsFilled (record t { row_count = n }) ts rest
        (sample_columns catalog ctx t.name t.columns w) out h
        (λ cs e. sample_columns-few t.name t.columns w cs e) ih

  fill_tables-IsFilled :
      (ts : List Table) (w : W) (out : List Table)
      → (fill_tables catalog ctx ts w).0 ≡ ok out
      → IsFilled ts out
  unfolding fill_tables
  fill_tables-IsFilled [] w out h =
      let same : [] ≡ out = ground arith in subst (IsFilled []) same (refl, tt)
  fill_tables-IsFilled (t ∷ ts) w out h =
      counted_table-IsFilled t ts (fill_tables catalog ctx ts) (catalog.count ctx t.name w) out h
        (λ more w' e. fill_tables-IsFilled ts w' more e)

  filled-IsSound :
      (name : Text) (ts : List Table) (r : Result Text (List Table) × W) (out : Schema)
      → (filled name r).0 ≡ ok out
      → IsDistinct (table_names ts)
      → ((more : List Table) → r.0 ≡ ok more → IsFilled ts more)
      → IsSound out
  unfolding filled
  filled-IsSound name ts (err e, w) out h distinct ran = absurd (ground arith)
  filled-IsSound name ts (ok more, w) out h distinct ran =
      let same : record { database_name = name; tables = more } ≡ out = ground arith in
      let (names, few) = ran more refl in
      subst IsSound same (subst IsDistinct (sym names) distinct, few)

  with_keys-IsSound :
      (name : Text) (ts : Tables) (r : Result Text Tables × W) (out : Schema)
      → (with_keys catalog ctx name r).0 ≡ ok out
      → IsDistinct (table_names ts.tables)
      → ((keyed : Tables) → r.0 ≡ ok keyed → table_names keyed.tables ≡ table_names ts.tables)
      → IsSound out
  unfolding with_keys
  with_keys-IsSound name ts (err e, w) out h distinct kept = absurd (ground arith)
  with_keys-IsSound name ts (ok keyed, w) out h distinct kept =
      filled-IsSound name keyed.tables (fill_tables catalog ctx keyed.tables w) out h
        (subst IsDistinct (sym (kept keyed refl)) distinct) (fill_tables-IsFilled keyed.tables w)

  with_columns-IsSound :
      (name : Text) (r : Result Text Tables × W) (out : Schema)
      → (with_columns catalog ctx name r).0 ≡ ok out
      → ((ts : Tables) → r.0 ≡ ok ts → IsDistinct (table_names ts.tables))
      → IsSound out
  unfolding with_columns introspect_foreign_keys
  with_columns-IsSound name (err e, w) out h distinct = absurd (ground arith)
  with_columns-IsSound name (ok ts, w) out h distinct =
      with_keys-IsSound name ts (introspect_foreign_keys catalog ctx ts w) out h (distinct ts refl)
        (λ keyed e.
          listed-names (codes "postgres: query foreign keys: ") (codes "postgres: scan fk: ") [] ts
            keyed (catalog.foreign_keys ctx w).0 e)

  named-IsSound :
      (r : Result Text Text × W) (out : Schema) → (named catalog ctx r).0 ≡ ok out → IsSound out
  unfolding named
  named-IsSound (err e, w) out h = absurd (ground arith)
  named-IsSound (ok name, w) out h =
      with_columns-IsSound name (introspect_columns catalog ctx w) out h (λ ts e.
        let (found, same, distinct, groups) = introspect_columns-Groups catalog ctx w e in distinct)

  -- Whatever the catalog's queries return, if `Introspect` returns no error, then no two tables of its
  -- schema have the same name, and no column has more than five sample values.
  pub introspect-IsSound :
      (w : W) {out : Schema} → (introspect catalog ctx w).0 ≡ ok out → IsSound out
  unfolding introspect
  introspect-IsSound w {out} h = named-IsSound (catalog.current_database ctx w) out h
