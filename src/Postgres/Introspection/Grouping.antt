-- ===== src/Postgres/Introspection/Grouping.antt =====
-- What `introspectColumns` makes of the rows of the catalog.
use querylynx.Base.{
  ℕ, Option, none, some, List, [], ◌∷◌, ◌++◌, ◌≡◌, refl, sym, ap, subst, ◌∙◌, arith, length,
  Bool-cases, inl, inr, Result, ok, err, append_assoc, append-nil,
}
use querylynx.Strings.{Text, text_eq, codes}
use querylynx.Strings.Names.{IsDistinct, IsDistinct-concat}
use querylynx.Dict.{get, get-put}
use querylynx.Context.{Context}
use querylynx.Schema.{Column, Table, table_names}
use querylynx.Postgres.Catalog.{Catalog, Listing, ColumnRow, scan_rows, at_end, listed}
use querylynx.Postgres.Introspection.{
  Tables, new_table, indexed, placed, add_column, introspect_columns,
}
use querylynx.Postgres.Introspection.Columns.{
  position_of, columns_of, listed_columns, column_for, columns_of-append, columns_of-modify_at,
  position_of-modify_at, table_names-modify_at, position_of-append, position_of-contains,
}

-- The index finds every table, and no two tables have the same name.
abbrev IsIndexed : Tables → Type 0
IsIndexed ts =
    ((u : Text) → get u ts.idx ≡ position_of u ts.tables) × IsDistinct (table_names ts.tables)

-- One row adds its column to its table, and to no other.
abbrev Adds : Text → Text → Column → Tables → Tables → Type 0
Adds u name c ts ts' = columns_of u ts'.tables ≡ columns_of u ts.tables ++ column_for name u c

table_names-append :
    (ts : List Table) (name : Text)
    → table_names (ts ++ new_table name ∷ []) ≡ table_names ts ++ name ∷ []
table_names-append [] name = refl
table_names-append (t ∷ ts) name = rw (table_names-append ts name)

placed-IsIndexed :
    (r : ColumnRow) (ts : Tables) (found : Option ℕ)
    → get r.table ts.idx ≡ found
    → IsIndexed ts
    → IsIndexed (placed r (indexed ts r.table found))
unfolding placed indexed
placed-IsIndexed r ts none e (finds, distinct) =
    let missing = sym (finds r.table) ∙ e in
    (
      λ u.
          get-put r.table u (length ts.tables) ts.idx
          ∙ rw (finds u) (
              sym (
                position_of-modify_at u r.column (length ts.tables)
                  (ts.tables ++ new_table r.table ∷ [])
                ∙ position_of-append u r.table ts.tables missing)),
      rw (table_names-modify_at, table_names-append)
          (IsDistinct-concat (table_names ts.tables) r.table distinct
            (position_of-contains r.table ts.tables missing)),
    )
placed-IsIndexed r ts (some i) e (finds, distinct) = (
  λ u. finds u ∙ sym (position_of-modify_at u r.column i ts.tables),
  rw table_names-modify_at distinct,
)

placed-Adds :
    (u : Text) (r : ColumnRow) (ts : Tables) (found : Option ℕ)
    → position_of r.table ts.tables ≡ found
    → Adds u r.table r.column ts (placed r (indexed ts r.table found))
unfolding placed indexed
placed-Adds u r ts none e = columns_of-append u r.table r.column ts.tables e
placed-Adds u r ts (some i) e = columns_of-modify_at u r.table r.column i ts.tables e

add_column-IsIndexed : (r : ColumnRow) (ts : Tables) → IsIndexed ts → IsIndexed (add_column r ts)
unfolding add_column
add_column-IsIndexed r ts inv = placed-IsIndexed r ts (get r.table ts.idx) refl inv

add_column-Adds :
    (u : Text) (r : ColumnRow) (ts : Tables)
    → IsIndexed ts
    → Adds u r.table r.column ts (add_column r ts)
unfolding add_column
add_column-Adds u r ts (finds, distinct) =
    placed-Adds u r ts (get r.table ts.idx) (sym (finds r.table))

-- The rows without an error.
unfoldable pub all_scanned : {A : Type 0} → List A → List (Result Text A)
all_scanned [] = []
all_scanned (a ∷ as') = ok a ∷ all_scanned as'

-- What the loop makes of rows `found`, from the tables `before` on.
abbrev pub Groups : List ColumnRow → Tables → Tables → Type 0
Groups found before after =
    IsDistinct (table_names after.tables)
    × ((u : Text)
        → columns_of u after.tables ≡ columns_of u before.tables ++ listed_columns u found)

listed_columns-cons :
    (u : Text) (r : ColumnRow) (rows : List ColumnRow) (cs : List Column)
    → (cs ++ column_for r.table u r.column) ++ listed_columns u rows
      ≡ cs ++ listed_columns u (r ∷ rows)
unfolding listed_columns
listed_columns-cons u r rows cs = elim (Bool-cases (text_eq r.table u)) [
  | inl e ↦ rw (e, append_assoc)
  | inr e ↦ rw (e, append-nil)
]

-- A loop that ends well has read rows without an error.
scan_rows-Groups :
    (scan iterate : Text) (ended : Option Text) (ts out : Tables)
    (rows : List (Result Text ColumnRow))
    → IsIndexed ts
    → scan_rows scan iterate add_column ended ts rows ≡ ok out
    → (found : List ColumnRow) × (rows ≡ all_scanned found) × Groups found ts out
unfolding scan_rows at_end all_scanned listed_columns
scan_rows-Groups scan iterate none ts out [] inv e =
    let same : ts ≡ out = ground arith in
    ([], refl, subst (Groups [] ts) same (inv.1, λ u. sym (append-nil _)))
scan_rows-Groups scan iterate (some why) ts out [] inv e = absurd (ground arith)
scan_rows-Groups scan iterate ended ts out (err why ∷ rows) inv e = absurd (ground arith)
scan_rows-Groups scan iterate ended ts out (ok r ∷ rows) inv e =
    let (found, same, groups) =
      scan_rows-Groups scan iterate ended (add_column r ts) out rows (add_column-IsIndexed r ts inv)
        e in
    (
      r ∷ found,
      ap (λ more. ok r ∷ more) same,
      (
        groups.0,
        λ u.
            groups.1 u
            ∙ rw (add_column-Adds u r ts inv)
                (listed_columns-cons u r found (columns_of u ts.tables)),
      ),
    )

-- What a listing gives that ended well.
abbrev pub Listed : {A : Type 0} → Result Text (Listing A) → List A → Type 0
Listed (ok l) found = l.rows ≡ all_scanned found
Listed (err e) found = ⊥

listed-Groups :
    (query scan iterate : Text) (l : Result Text (Listing ColumnRow)) (out : Tables)
    → listed query scan iterate add_column (record { tables = []; idx = [] }) l ≡ ok out
    → (found : List ColumnRow) × Listed l found
      × Groups found (record { tables = []; idx = [] }) out
unfolding listed get position_of
listed-Groups query scan iterate (err e) out h = absurd (ground arith)
listed-Groups query scan iterate (ok l) out h =
    scan_rows-Groups scan iterate l.ended (record { tables = []; idx = [] }) out l.rows
      (λ u. refl, tt) h

-- If `introspectColumns` returns no error, the query's rows were all scanned without one; no two of the
-- tables have the same name; and the columns of each table are those that the rows list for its name,
-- in the order of the rows, wherever among the rows they stand.
pub introspect_columns-Groups :
    {W : Type 0} (catalog : Catalog W) (ctx : Context) (w : W) {out : Tables}
    → (introspect_columns catalog ctx w).0 ≡ ok out
    → (found : List ColumnRow) × Listed (catalog.columns ctx w).0 found
      × IsDistinct (table_names out.tables)
      × ((u : Text) → columns_of u out.tables ≡ listed_columns u found)
unfolding introspect_columns columns_of
introspect_columns-Groups catalog ctx w {out} h =
    let (found, same, groups) =
      listed-Groups (codes "postgres: query columns: ") (codes "postgres: scan column: ")
        (codes "postgres: iterate columns: ") (catalog.columns ctx w).0 out h in
    (found, same, groups.0, groups.1)
