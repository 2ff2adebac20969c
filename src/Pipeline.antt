-- ===== src/Pipeline.antt =====
-- internal/agent/pipeline.go: intent, routing, then generation, validation and execution with
-- self-correction. The world `W` is all that stands outside the process: the model, the executor, the
-- clock and the source of random bytes.
pub mod Shape
pub mod Trace
pub mod Success
use querylynx.Base.{
  ℕ, zero, suc, ◌+◌, ◌-◌, ◌*◌, ◌/◌, ◌%◌, Bool, true, false, Option, none, some, List, [], ◌∷◌, ◌++◌,
  ltb, if◌then◌else◌, length, Result, ok, err,
}
use querylynx.Strings.{Text, codes}
use querylynx.Context.{Context, with_timeout, second}
use querylynx.Schema.{Schema}
use querylynx.Explain.{
  Output, StageName, Status, Stage, Answer, stage_status, stage_error, record_stage, millis_since,
  hex, intent_output, routing_output, generation_output, validation_output, execution_output,
  intent, routing, generation, validation, execution, ok_status, error_status,
}
use querylynx.Connector.{Rows}
use querylynx.Intent.{Modality, Classification, Classifier}
use querylynx.Rag.{Provider}
use querylynx.Prompt
use querylynx.Sql

abbrev pub total_sla : ℕ
total_sla = 30 * second

abbrev pub route_timeout : ℕ
route_timeout = 15 * second

abbrev pub gen_timeout : ℕ
gen_timeout = 15 * second

abbrev pub exec_timeout : ℕ
exec_timeout = 10 * second

abbrev pub max_attempts : ℕ
max_attempts = 3

-- The router's interface. Go returns both the tables and the error.
pub record TableRouter (W : Type 0) : Type 0 where
  pub route : Context → W → Text → Schema → (List Text × Option Text) × W

pub record QueryExecutor (W : Type 0) : Type 0 where
  pub validate_and_execute : Context → W → Text → Text → Result Text Rows × W

-- The clock in nanoseconds, and random bytes.
pub record Runtime (W : Type 0) : Type 0 where
  pub now : W → ℕ
  pub random_bytes : ℕ → W → List ℕ × W

pub record Pipeline (W : Type 0) : Type 0 where
  pub connection_id : Text
  pub dialect : Text
  pub schema : Schema
  pub intent : Classifier W
  pub router : TableRouter W
  pub generator : Provider W
  pub executor : QueryExecutor W

-- An answer in the making, and the world.
pub record State (W : Type 0) : Type 0 where
  pub ans : Answer
  pub world : W

-- How one round of the loop ends: with an answer, with an error that is not corrected, or with an
-- error for the next round.
pub data Round : Type 0 where
  answered : Round
  stopped again : Text → Round

error_of : {A : Type 0} → Result Text A → Option Text
error_of (ok a) = none
error_of (err e) = some e

text_or_empty : Result Text Text → Text
text_or_empty (ok q) = q
text_or_empty (err e) = []

-- The branches on what a call gave.
routed : List Text → Option Text → Result Text (List Text)
routed tables none = ok tables
routed tables (some why) = err why

module _ {W : Type 0} where
  -- What `Run` records of an execution.
  executed : Answer → ℕ → ℕ → W → Result Text Rows → Round × State W
  executed ans attempt lat w (err e) = (
    again e,
    record {
      ans = record_stage ans execution (execution_output attempt none) lat (some e);
      world = w;
    },
  )
  executed ans attempt lat w (ok rows) = (
    answered,
    record {
      ans =
          record (record_stage ans execution (execution_output attempt (some (length rows.rows)))
            lat none) { result = rows };
      world = w;
    },
  )

  -- How the loop goes on behind a round; the next round is passed in.
  go_on : (Text → State W → Option Text × State W) → Round → State W → Option Text × State W
  go_on next answered st = (none, st)
  go_on next (stopped e) st = (some e, st)
  go_on next (again e) st = next e st

module _ {W : Type 0} (rt : Runtime W) (p : Pipeline W) where
  -- `route`, with what it recorded.
  route_stage : Context → Text → State W → Result Text (List Text) × State W
  unfolding routed
  route_stage ctx question st =
      let start = rt.now st.world in
      let ((tables, e), w) =
        p.router.route (with_timeout ctx start route_timeout) st.world question p.schema in
      (
        routed tables e,
        record {
          ans =
              record_stage st.ans routing (routing_output tables) (millis_since start (rt.now w)) e;
          world = w;
        },
      )

  generate_stage : Context → Text → Schema → Text → ℕ → State W → Result Text Text × State W
  unfolding error_of text_or_empty
  generate_stage ctx question s prior attempt st =
      let start = rt.now st.world in
      let (query, w) =
        Sql.generate p.generator (with_timeout ctx start gen_timeout) st.world p.dialect question s
          prior in
      (
        query,
        record {
          ans =
              record_stage st.ans generation (generation_output attempt (text_or_empty query))
                (millis_since start (rt.now w)) (error_of query);
          world = w;
        },
      )

  -- `execute`, and what `Run` records of it.
  execute_stage : Context → Text → ℕ → State W → Round × State W
  unfolding executed
  execute_stage ctx query attempt st =
      let start = rt.now st.world in
      let (res, w) =
        p.executor.validate_and_execute (with_timeout ctx start exec_timeout) st.world
          p.connection_id query in
      executed st.ans attempt (millis_since start (rt.now w)) w res

  validated : Context → Text → ℕ → State W → Option Text → Round × State W
  unfolding execute_stage
  validated ctx query attempt st (some e) = (
    again e,
    record st { ans = record_stage st.ans validation (validation_output attempt false) 0 (some e) },
  )
  validated ctx query attempt st none = execute_stage ctx query attempt st

  -- What follows a generated query.
  generated : Context → Schema → ℕ → Result Text Text × State W → Round × State W
  unfolding validated
  generated ctx selected attempt (err e, st) = (stopped e, st)
  generated ctx selected attempt (ok query, st) =
      validated ctx query attempt (record st { ans = record st.ans { sql = query } })
        (Sql.validate_tables query selected)

  -- One round of the loop.
  attempt_round : Context → Text → Schema → Text → ℕ → State W → Round × State W
  unfolding generate_stage generated
  attempt_round ctx question selected prior attempt st = generated ctx selected attempt (
      generate_stage ctx question selected prior attempt
        (record st { ans = record st.ans { attempts = attempt } }))

  exhausted : Text → Text
  exhausted prior = codes "agent: no valid query after 3 attempts: " ++ prior

  -- The loop, by the rounds that are left.
  unfoldable pub correct : ℕ → Context → Text → Schema → Text → ℕ → State W → Option Text × State W
  unfolding attempt_round exhausted go_on
  correct zero ctx question selected prior attempt st = (some (exhausted prior), st)
  correct (suc rounds) ctx question selected prior attempt st =
      let (how, st') = attempt_round ctx question selected prior attempt st in
      go_on (λ e st''. correct rounds ctx question selected e (attempt + 1) st'') how st'

  run_routed : Context → Text → Result Text (List Text) × State W → Option Text × State W
  run_routed ctx question (err e, st) = (some e, st)
  run_routed ctx question (ok tables, st) =
      correct max_attempts ctx question (Prompt.subset p.schema tables) [] 1 st

  run_classified : Context → Text → Classification → Option Text → State W → Option Text × State W
  unfolding run_routed route_stage
  run_classified ctx question c (some e) st = (some e, st)
  run_classified ctx question c none st =
      if c.in_scope
      then run_routed ctx question (route_stage ctx question st)
      else (some (codes "agent: question is out of scope"), st)

  new_answer : Text → Answer
  new_answer id = record {
    sql = [];
    result = record { columns = []; rows = [] };
    attempts = 0;
    trace_id = codes "qry_" ++ id;
    stages = [];
  }

  -- The gate's part of `Run`.
  classify_stage : Context → W → Text → (Classification × Option Text) × State W
  unfolding new_answer
  classify_stage ctx w question =
      let (bytes, w₁) = rt.random_bytes 6 w in
      let ((c, e), w₂) = p.intent.classify ctx w₁ question in
      let out = intent_output c.modality c.in_scope in
      ((c, e), record { ans = record_stage (new_answer (hex bytes)) intent out 0 e; world = w₂ })

  -- `Run`: the error, if any, the answer, and the world that is left.
  unfoldable pub run : Context → W → Text → Option Text × State W
  unfolding run_classified classify_stage
  run parent w question =
      let ctx = with_timeout parent (rt.now w) total_sla in
      let ((c, e), st) = classify_stage ctx w question in run_classified ctx question c e st
