-- ===== src/Tests/Sql.antt =====
-- The text2sql stage on concrete answers and queries.
use querylynx.Base.{none, some, ok, ◌≡◌, refl, arith, [], ◌∷◌, ◌++◌}
use querylynx.Strings.{codes, trim_space}
use querylynx.Strings.Names.{contains}
use querylynx.Sql.{extract_sql, unknown_table, validate_tables, generate}
use querylynx.Context.{background}
use querylynx.Sql.Extract.{fence, extract_sql-fenced}
use querylynx.Sql.Quoted.{select_from, validate_tables_quoted, validate_tables_dotted}
use querylynx.Tests.Fleet.{fleet, scripted}
use querylynx.Tests.Running.{run_sql}

validate_tables_cte :
    validate_tables
      (codes "WITH x AS (SELECT * FROM public.vehicles) SELECT * FROM x JOIN TRIPS t")
      fleet
    ≡ none
unfolding run_sql
validate_tables_cte = refl

validate_tables_ghost :
    validate_tables (codes "select * from ghost") fleet
    ≡ some (codes "table \"ghost\" does not exist; known tables: Trips, vehicles")
unfolding run_sql
validate_tables_ghost = refl

generate_fenced :
    generate scripted background
      (ok (codes "```sql\nSELECT 1\n```") ∷ [])
      (codes "postgres")
      (codes "one")
      fleet
      []
    ≡ (ok (codes "SELECT 1"), [])
unfolding run_sql
generate_fenced = refl

extract_sql-fenced_example :
    extract_sql (
      codes "Here: "
      ++ (fence
          ++ (codes "sql" ++ b'\n' ∷ (codes "SELECT 1" ++ (b'\n' ∷ (fence ++ codes " done"))))))
    ≡ trim_space (codes "SELECT 1")
extract_sql-fenced_example =
    extract_sql-fenced (codes "Here: ") (codes "sql") (codes "SELECT 1") (codes " done")
      (unfold run_sql in ground arith) (unfold run_sql in ground arith)
      (unfold run_sql in ground arith)

validate_tables_quoted_example :
    validate_tables (select_from (codes "\"public\".\"vehicles\"")) fleet
    ≡ some (unknown_table (codes "public") fleet)
validate_tables_quoted_example =
    validate_tables_quoted fleet b'p' (codes "ublic") (codes "vehicles")
      (unfold run_sql in ground arith) (unfold run_sql in ground arith)
      (unfold run_sql contains in refl)

validate_tables_dotted_example :
    validate_tables (select_from (codes "public.\"ghost\"")) fleet ≡ none
validate_tables_dotted_example =
    validate_tables_dotted fleet b'p' (codes "ublic") (codes "ghost")
      (unfold run_sql in ground arith) (unfold run_sql in ground arith)
