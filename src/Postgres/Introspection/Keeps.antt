-- ===== src/Postgres/Introspection/Keeps.antt =====
-- What every query on the catalog keeps, an introspection keeps.
use querylynx.Base.{List, [], ◌∷◌, Result, ok, err}
use querylynx.Base.Int.{ℤ}
use querylynx.Strings.{Text}
use querylynx.Context.{Context}
use querylynx.Schema.{Column, Table}
use querylynx.Postgres.Catalog.{Catalog}
use querylynx.Postgres.Introspection.{
  Tables, consed, sampled_column, sampled_table, filled, introspect_columns,
  introspect_foreign_keys, sample_values, sample_columns, counted_table, fill_tables, with_keys,
  with_columns, named, introspect,
}

pub record CatalogKeeps {W : Type 0} (catalog : Catalog W) (P : W → Type 0) : Type 0 where
  pub current_database_keeps : (ctx : Context) (w : W) → P w → P (catalog.current_database ctx w).1
  pub columns_keeps : (ctx : Context) (w : W) → P w → P (catalog.columns ctx w).1
  pub foreign_keys_keeps : (ctx : Context) (w : W) → P w → P (catalog.foreign_keys ctx w).1
  pub count_keeps : (ctx : Context) (t : Text) (w : W) → P w → P (catalog.count ctx t w).1
  pub samples_keeps : (ctx : Context) (t c : Text) (w : W) → P w → P (catalog.samples ctx t c w).1

module _ {W : Type 0} {catalog : Catalog W} {P : W → Type 0} (keeps : CatalogKeeps catalog P) where
  consed-keeps : {A : Type 0} (a : A) (r : Result Text (List A) × W) → P r.1 → P (consed a r).1
  unfolding consed
  consed-keeps a (err e, w) h = h
  consed-keeps a (ok as', w) h = h

  sampled_column-keeps :
      (c : Column) (rest : W → Result Text (List Column) × W) (r : Result Text (List Text) × W)
      → ((w : W) → P w → P (rest w).1)
      → P r.1
      → P (sampled_column c rest r).1
  unfolding sampled_column
  sampled_column-keeps c rest (err e, w) go h = h
  sampled_column-keeps c rest (ok samples, w) go h = consed-keeps _ (rest w) (go w h)

  sample_columns-keeps :
      (ctx : Context) (table : Text) (cs : List Column) (w : W)
      → P w
      → P (sample_columns catalog ctx table cs w).1
  unfolding sample_columns sample_values
  sample_columns-keeps ctx table [] w h = h
  sample_columns-keeps ctx table (c ∷ cs) w h =
      sampled_column-keeps c (sample_columns catalog ctx table cs)
        (sample_values catalog ctx table c.name w) (sample_columns-keeps ctx table cs)
        (keeps.samples_keeps ctx table c.name w h)

  sampled_table-keeps :
      (t : Table) (rest : W → Result Text (List Table) × W) (r : Result Text (List Column) × W)
      → ((w : W) → P w → P (rest w).1)
      → P r.1
      → P (sampled_table t rest r).1
  unfolding sampled_table
  sampled_table-keeps t rest (err e, w) go h = h
  sampled_table-keeps t rest (ok columns, w) go h = consed-keeps _ (rest w) (go w h)

  counted_table-keeps :
      (ctx : Context) (t : Table) (rest : W → Result Text (List Table) × W) (r : Result Text ℤ × W)
      → ((w : W) → P w → P (rest w).1)
      → P r.1
      → P (counted_table catalog ctx t rest r).1
  unfolding counted_table
  counted_table-keeps ctx t rest (err e, w) go h = h
  counted_table-keeps ctx t rest (ok n, w) go h =
      sampled_table-keeps (record t { row_count = n }) rest
        (sample_columns catalog ctx t.name t.columns w) go
        (sample_columns-keeps ctx t.name t.columns w h)

  fill_tables-keeps :
      (ctx : Context) (ts : List Table) (w : W) → P w → P (fill_tables catalog ctx ts w).1
  unfolding fill_tables
  fill_tables-keeps ctx [] w h = h
  fill_tables-keeps ctx (t ∷ ts) w h =
      counted_table-keeps ctx t (fill_tables catalog ctx ts) (catalog.count ctx t.name w)
        (fill_tables-keeps ctx ts) (keeps.count_keeps ctx t.name w h)

  filled-keeps : (name : Text) (r : Result Text (List Table) × W) → P r.1 → P (filled name r).1
  unfolding filled
  filled-keeps name (err e, w) h = h
  filled-keeps name (ok tables, w) h = h

  with_keys-keeps :
      (ctx : Context) (name : Text) (r : Result Text Tables × W)
      → P r.1
      → P (with_keys catalog ctx name r).1
  unfolding with_keys
  with_keys-keeps ctx name (err e, w) h = h
  with_keys-keeps ctx name (ok ts, w) h =
      filled-keeps name (fill_tables catalog ctx ts.tables w) (fill_tables-keeps ctx ts.tables w h)

  with_columns-keeps :
      (ctx : Context) (name : Text) (r : Result Text Tables × W)
      → P r.1
      → P (with_columns catalog ctx name r).1
  unfolding with_columns introspect_foreign_keys
  with_columns-keeps ctx name (err e, w) h = h
  with_columns-keeps ctx name (ok ts, w) h =
      with_keys-keeps ctx name (introspect_foreign_keys catalog ctx ts w)
        (keeps.foreign_keys_keeps ctx w h)

  named-keeps : (ctx : Context) (r : Result Text Text × W) → P r.1 → P (named catalog ctx r).1
  unfolding named introspect_columns
  named-keeps ctx (err e, w) h = h
  named-keeps ctx (ok name, w) h =
      with_columns-keeps ctx name (introspect_columns catalog ctx w) (keeps.columns_keeps ctx w h)

  pub introspect-keeps : (ctx : Context) (w : W) → P w → P (introspect catalog ctx w).1
  unfolding introspect
  introspect-keeps ctx w h =
      named-keeps ctx (catalog.current_database ctx w) (keeps.current_database_keeps ctx w h)
