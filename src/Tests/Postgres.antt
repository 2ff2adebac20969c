-- ===== src/Tests/Postgres.antt =====
-- Execution and introspection with a driver and a catalog that answer from the text.
use querylynx.Base.{true, none, List, [], ◌∷◌, ◌≡◌, refl, ok, Result}
use querylynx.Base.Int.{pos}
use querylynx.Strings.{Text, codes}
use querylynx.Strings.Names.{IsDistinct}
use querylynx.Context.{background}
use querylynx.Connector.{shown, null}
use querylynx.Schema.{Schema, Column, table_names}
use querylynx.Postgres.Session.{Driver, nil, bytes, execute}
use querylynx.Postgres.Session.Calls.{IsReadOnlyRun, recorded_run, execute-IsReadOnlyRun}
use querylynx.Postgres.Catalog.{Catalog, Listing, ColumnRow}
use querylynx.Postgres.Introspection.Whole.{IsSound, introspect-IsSound}
use querylynx.Postgres.Introspection.{introspect, Tables, introspect_columns}
use querylynx.Postgres.Introspection.Columns.{columns_of, listed_columns}
use querylynx.Postgres.Introspection.Grouping.{Listed, introspect_columns-Groups}
use querylynx.Tests.Running.{run_postgres}

abbrev driver : Driver Unit
driver = record {
  begin_tx = λ ctx access w. (none, w);
  exec = λ ctx q w. (none, w);
  query = λ ctx q w. (
    ok (record {
      columns = codes "n" ∷ [];
      rows = ok (nil ∷ []) ∷ ok (bytes (codes "x") ∷ []) ∷ [];
      ended = none;
    }),
    w,
  );
  rollback = λ ctx w. w;
}

execute_rows :
    (execute driver background tt (codes "SELECT n FROM t")).0
    ≡ ok (record { columns = codes "n" ∷ []; rows = (null ∷ []) ∷ (shown (codes "x") ∷ []) ∷ [] })
unfolding run_postgres
execute_rows = refl

execute-IsReadOnlyRun_example :
    IsReadOnlyRun background
      (codes "SELECT n FROM t")
      (recorded_run driver background tt (codes "SELECT n FROM t")).0
      (recorded_run driver background tt (codes "SELECT n FROM t")).1.1
    × (execute driver background tt (codes "SELECT n FROM t") ≡ (
      (recorded_run driver background tt (codes "SELECT n FROM t")).0,
      (recorded_run driver background tt (codes "SELECT n FROM t")).1.0,
    ))
execute-IsReadOnlyRun_example = execute-IsReadOnlyRun driver background tt (codes "SELECT n FROM t")

abbrev column : Text → Column
column name = record { name = name; data_type = codes "text"; nullable = true; sample_values = [] }

abbrev column_rows : List ColumnRow
column_rows =
    record { table = codes "a"; column = column (codes "x") }
    ∷ record { table = codes "b"; column = column (codes "y") }
    ∷ record { table = codes "a"; column = column (codes "z") }
    ∷ []

abbrev listing : {A : Type 0} → List (Result Text A) → Listing A
listing rows = record { rows = rows; ended = none }

abbrev catalog : Catalog Unit
catalog = record {
  current_database = λ ctx w. (ok (codes "d"), w);
  columns = λ ctx w. (
    ok (
        listing (
          ok (record { table = codes "a"; column = column (codes "x") })
          ∷ ok (record { table = codes "b"; column = column (codes "y") })
          ∷ ok (record { table = codes "a"; column = column (codes "z") })
          ∷ [])),
    w,
  );
  foreign_keys = λ ctx w. (ok (listing []), w);
  count = λ ctx table w. (ok (pos 7), w);
  samples = λ ctx table column w. (
    ok (
        listing (
          ok (codes "1")
          ∷ ok (codes "2")
          ∷ ok (codes "3")
          ∷ ok (codes "4")
          ∷ ok (codes "5")
          ∷ ok (codes "6")
          ∷ [])),
    w,
  );
}

abbrev both : Tables
both = record {
  tables =
      record {
        name = codes "a";
        columns = column (codes "x") ∷ column (codes "z") ∷ [];
        row_count = pos 0;
        foreign_keys = [];
      }
      ∷ record {
        name = codes "b";
        columns = column (codes "y") ∷ [];
        row_count = pos 0;
        foreign_keys = [];
      }
      ∷ [];
  idx = (codes "b", 1) ∷ (codes "a", 0) ∷ [];
}

introspect_columns_pair : (introspect_columns catalog background tt).0 ≡ ok both
unfolding run_postgres
introspect_columns_pair = refl

introspect_columns-Groups_example :
    (found : List ColumnRow) × Listed (catalog.columns background tt).0 found
    × IsDistinct (table_names both.tables)
    × ((u : Text) → columns_of u both.tables ≡ listed_columns u found)
introspect_columns-Groups_example =
    introspect_columns-Groups catalog background tt introspect_columns_pair

abbrev first_five : List Text
first_five = codes "1" ∷ codes "2" ∷ codes "3" ∷ codes "4" ∷ codes "5" ∷ []

-- The schema of the catalog: two tables of seven rows.
abbrev sampled : Text → Column
sampled name = record {
  name = name;
  data_type = codes "text";
  nullable = true;
  sample_values = first_five;
}

abbrev described : Schema
described = record {
  database_name = codes "d";
  tables =
      record {
        name = codes "a";
        columns = sampled (codes "x") ∷ sampled (codes "z") ∷ [];
        row_count = pos 7;
        foreign_keys = [];
      }
      ∷ record {
        name = codes "b";
        columns = sampled (codes "y") ∷ [];
        row_count = pos 7;
        foreign_keys = [];
      }
      ∷ [];
}

introspect_described : (introspect catalog background tt).0 ≡ ok described
unfolding run_postgres
introspect_described = refl

introspect-IsSound_example : IsSound described
introspect-IsSound_example = introspect-IsSound catalog background tt introspect_described
