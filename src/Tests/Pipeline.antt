-- ===== src/Tests/Pipeline.antt =====
-- Whole runs with a scripted model.
use querylynx.Base.{none, some, ok, ◌≡◌, refl, [], ◌∷◌}
use querylynx.Strings.{codes}
use querylynx.Context.{background}
use querylynx.Intent.{stub}
use querylynx.Pipeline.{Runtime, Pipeline, run}
use querylynx.Pipeline.Shape.{IsTrace}
use querylynx.Pipeline.Trace.{run-IsTrace}
use querylynx.Pipeline.Success.{Answers, run-answered}
use querylynx.Tests.Fleet.{fleet, Script, scripted, one_row}
use querylynx.Tests.Running.{run_pipeline}

abbrev pub runtime : Runtime Script
runtime = record { now = λ script. 5; random_bytes = λ n script. (0 ∷ 171 ∷ 16 ∷ [], script) }

abbrev pub pipeline : Pipeline Script
pipeline = record {
  connection_id = codes "conn_1";
  dialect = codes "postgres";
  schema = fleet;
  intent = stub;
  router = record { route = λ ctx script question s. ((codes "vehicles" ∷ [], none), script) };
  generator = scripted;
  executor = record { validate_and_execute = λ ctx script id query. (ok one_row, script) };
}

-- The first query names a table that was not routed.
abbrev pub replies : Script
replies = ok (codes "SELECT count(*) FROM trips") ∷ ok (codes "SELECT count(*) FROM vehicles") ∷ []

run-replies : (run runtime pipeline background replies (codes "how many?")).0 ≡ none
unfolding run_pipeline
run-replies = refl

run-replies_sql :
    (run runtime pipeline background replies (codes "how many?")).1.ans.sql
    ≡ codes "SELECT count(*) FROM vehicles"
unfolding run_pipeline
run-replies_sql = refl

run-replies_attempts :
    (run runtime pipeline background replies (codes "how many?")).1.ans.attempts ≡ 2
unfolding run_pipeline
run-replies_attempts = refl

run-replies_trace_id :
    (run runtime pipeline background replies (codes "how many?")).1.ans.trace_id
    ≡ codes "qry_00ab10"
unfolding run_pipeline
run-replies_trace_id = refl

run_silent :
    (run runtime pipeline background [] (codes "how many?")).0
    ≡ some (codes "text2sql: generate: no more answers")
unfolding run_pipeline
run_silent = refl

run-IsTrace_example :
    IsTrace
      (run runtime pipeline background replies (codes "how many?")).0
      (run runtime pipeline background replies (codes "how many?")).1.ans.stages
run-IsTrace_example = run-IsTrace runtime pipeline background replies (codes "how many?")

run-answered_example :
    Answers runtime pipeline
      (codes "how many?")
      (run runtime pipeline background replies (codes "how many?")).1.ans
run-answered_example =
    run-answered runtime pipeline background replies (codes "how many?") run-replies
