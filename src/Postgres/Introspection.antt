-- ===== src/Postgres/Introspection.antt =====
-- internal/connector/postgres/postgres.go: `Introspect` and the functions that it calls. What the
-- catalog queries return is a parameter; their SQL text is not modelled.
pub mod Columns
pub mod Grouping
pub mod Samples
pub mod Keeps
pub mod Whole
use querylynx.Base.{
  ℕ, zero, suc, Bool, Option, none, some, List, [], ◌∷◌, ◌++◌, Result, ok, err, length, ltb,
  if◌then◌else◌, take,
}
use querylynx.Base.Int.{ℤ, pos}
use querylynx.Strings.{Text, codes}
use querylynx.Context.{Context}
use querylynx.Dict.{Dict, get, put}
use querylynx.Postgres.Catalog.{Listing, ColumnRow, KeyRow, Catalog, at_end, scan_rows, listed}
use querylynx.Schema.{Column, ForeignKey, Table, Schema}

abbrev pub sample_cardinality_max : ℕ
sample_cardinality_max = 50

abbrev pub sample_limit : ℕ
sample_limit = 5

-- The tables so far, and the index from their names.
pub record Tables : Type 0 where
  pub tables : List Table
  pub idx : Dict ℕ

-- tables[i] = f(tables[i])
unfoldable pub modify_at : ℕ → (Table → Table) → List Table → List Table
modify_at i f [] = []
modify_at zero f (t ∷ ts) = f t ∷ ts
modify_at (suc i) f (t ∷ ts) = t ∷ modify_at i f ts

abbrev pub new_table : Text → Table
new_table name = record { name = name; columns = []; row_count = pos 0; foreign_keys = [] }

abbrev pub with_column : Column → Table → Table
with_column c t = record t { columns = t.columns ++ c ∷ [] }

abbrev pub with_key : ForeignKey → Table → Table
with_key fk t = record t { foreign_keys = t.foreign_keys ++ fk ∷ [] }

-- The index of a table, which is appended if it is new.
indexed : Tables → Text → Option ℕ → ℕ × Tables
indexed ts name (some i) = (i, ts)
indexed ts name none = (
  length ts.tables,
  record { tables = ts.tables ++ new_table name ∷ []; idx = put name (length ts.tables) ts.idx },
)

placed : ColumnRow → ℕ × Tables → Tables
placed r (i, ts) = record ts { tables = modify_at i (with_column r.column) ts.tables }

unfoldable pub add_column : ColumnRow → Tables → Tables
unfolding indexed placed
add_column r ts = placed r (indexed ts r.table (get r.table ts.idx))

add_key_at : KeyRow → Tables → Option ℕ → Tables
add_key_at r ts none = ts
add_key_at r ts (some i) = record ts { tables = modify_at i (with_key r.key) ts.tables }

unfoldable pub add_key : KeyRow → Tables → Tables
unfolding add_key_at
add_key r ts = add_key_at r ts (get r.table ts.idx)

append_value : Text → List Text → List Text
append_value v vals = vals ++ v ∷ []

unfoldable pub few_samples : Result Text (List Text) → Result Text (List Text)
few_samples (err e) = err e
few_samples (ok vals) =
    if ltb sample_cardinality_max (length vals)
    then ok []
    else if ltb sample_limit (length vals)
    then ok (take sample_limit vals)
    else ok vals

of_column : Text → Text → Text
of_column table column = table ++ (codes "." ++ (column ++ codes ": "))

consed : {W A : Type 0} → A → Result Text (List A) × W → Result Text (List A) × W
consed a (err e, w) = (err e, w)
consed a (ok as', w) = (ok (a ∷ as'), w)

sampled_column :
    {W : Type 0}
    → Column
    → (W → Result Text (List Column) × W)
    → Result Text (List Text) × W
    → Result Text (List Column) × W
unfolding consed
sampled_column c rest (err e, w) = (err e, w)
sampled_column c rest (ok samples, w) = consed (record c { sample_values = samples }) (rest w)

sampled_table :
    {W : Type 0}
    → Table
    → (W → Result Text (List Table) × W)
    → Result Text (List Column) × W
    → Result Text (List Table) × W
unfolding consed
sampled_table t rest (err e, w) = (err e, w)
sampled_table t rest (ok columns, w) = consed (record t { columns = columns }) (rest w)

filled : {W : Type 0} → Text → Result Text (List Table) × W → Result Text Schema × W
filled name (err e, w) = (err e, w)
filled name (ok tables, w) = (ok (record { database_name = name; tables = tables }), w)

module _ {W : Type 0} (catalog : Catalog W) where
  unfoldable pub introspect_columns : Context → W → Result Text Tables × W
  unfolding listed
  introspect_columns ctx w =
      let (l, w') = catalog.columns ctx w in
      (
        listed (codes "postgres: query columns: ") (codes "postgres: scan column: ")
            (codes "postgres: iterate columns: ") add_column (record { tables = []; idx = [] }) l,
        w',
      )

  unfoldable pub introspect_foreign_keys : Context → Tables → W → Result Text Tables × W
  unfolding listed
  introspect_foreign_keys ctx ts w =
      let (l, w') = catalog.foreign_keys ctx w in
      (
        listed (codes "postgres: query foreign keys: ") (codes "postgres: scan fk: ") [] add_key ts
            l,
        w',
      )

  unfoldable pub sample_values : Context → Text → Text → W → Result Text (List Text) × W
  unfolding listed append_value few_samples of_column
  sample_values ctx table column w =
      let (l, w') = catalog.samples ctx table column w in
      (
        few_samples (
            listed (codes "postgres: sample " ++ of_column table column)
              (codes "postgres: scan sample " ++ of_column table column) [] append_value [] l),
        w',
      )

  sample_columns : Context → Text → List Column → W → Result Text (List Column) × W
  unfolding sampled_column
  sample_columns ctx table [] w = (ok [], w)
  sample_columns ctx table (c ∷ cs) w =
      sampled_column c (sample_columns ctx table cs) (sample_values ctx table c.name w)

  counted_table :
      Context
      → Table
      → (W → Result Text (List Table) × W)
      → Result Text ℤ × W
      → Result Text (List Table) × W
  unfolding sampled_table sample_columns
  counted_table ctx t rest (err e, w) =
      (err (codes "postgres: count " ++ (t.name ++ (codes ": " ++ e))), w)
  counted_table ctx t rest (ok n, w) =
      sampled_table (record t { row_count = n }) rest (sample_columns ctx t.name t.columns w)

  -- The loop over the tables: their row counts and the sample values of their columns.
  unfoldable pub fill_tables : Context → List Table → W → Result Text (List Table) × W
  unfolding counted_table
  fill_tables ctx [] w = (ok [], w)
  fill_tables ctx (t ∷ ts) w = counted_table ctx t (fill_tables ctx ts) (catalog.count ctx t.name w)

  with_keys : Context → Text → Result Text Tables × W → Result Text Schema × W
  unfolding filled
  with_keys ctx name (err e, w) = (err e, w)
  with_keys ctx name (ok ts, w) = filled name (fill_tables ctx ts.tables w)

  with_columns : Context → Text → Result Text Tables × W → Result Text Schema × W
  unfolding with_keys
  with_columns ctx name (err e, w) = (err e, w)
  with_columns ctx name (ok ts, w) = with_keys ctx name (introspect_foreign_keys ctx ts w)

  named : Context → Result Text Text × W → Result Text Schema × W
  unfolding with_columns
  named ctx (err e, w) = (err (codes "postgres: current_database: " ++ e), w)
  named ctx (ok name, w) = with_columns ctx name (introspect_columns ctx w)

  -- `Introspect`. The part of the schema that comes with an error is not modelled: no caller reads it.
  unfoldable pub introspect : Context → W → Result Text Schema × W
  unfolding named
  introspect ctx w = named ctx (catalog.current_database ctx w)
