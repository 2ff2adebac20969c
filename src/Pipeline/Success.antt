-- ===== src/Pipeline/Success.antt =====
-- Runs that end without an error.
use querylynx.Base.{
  ℕ, zero, suc, ◌+◌, ◌≤◌, Option, none, some, List, [], ◌≡◌, refl, arith, Bool-cases, inl, inr,
  Result, ok, err,
}
use querylynx.Strings.{Text}
use querylynx.Context.{Context, with_timeout}
use querylynx.Schema.{Schema}
use querylynx.Connector.{Rows}
use querylynx.Intent.{Classification}
use querylynx.Prompt
use querylynx.Sql
use querylynx.Explain.{Answer, record_stage}
use querylynx.Pipeline.{
  Runtime, Pipeline, State, Round, answered, stopped, again, generate_stage, executed,
  execute_stage, validated, generated, attempt_round, go_on, correct, route_stage, routed,
  run_routed, run_classified, run, max_attempts, total_sla, classify_stage,
}

-- The answer holds rows that the executor gave for its own query, and this query names no table outside
-- `selected`. The executor was called in some state of the world.
abbrev pub Delivered : {W : Type 0} → Pipeline W → Schema → Answer → Type 0
Delivered p selected ans =
    (Sql.validate_tables ans.sql selected ≡ none)
    × ((ctx : Context) × (w : _) × ((p.executor.validate_and_execute ctx w p.connection_id
            ans.sql).0
          ≡ ok ans.result))

abbrev RoundDelivers : {W : Type 0} → Pipeline W → Schema → ℕ → Round × State W → Type 0
RoundDelivers p selected attempt (answered, st) =
    Delivered p selected st.ans × (st.ans.attempts ≡ attempt)
RoundDelivers p selected attempt (stopped e, st) = Unit
RoundDelivers p selected attempt (again e, st) = Unit

module _ {W : Type 0} (rt : Runtime W) (p : Pipeline W) where
  executed-RoundDelivers :
      (selected : Schema) (ans : Answer) (attempt lat : ℕ) (ctx : Context) (w w' : W)
      (res : Result Text Rows)
      → Sql.validate_tables ans.sql selected ≡ none
      → (p.executor.validate_and_execute ctx w p.connection_id ans.sql).0 ≡ res
      → ans.attempts ≡ attempt
      → RoundDelivers p selected attempt (executed ans attempt lat w' res)
  unfolding executed record_stage
  executed-RoundDelivers selected ans attempt lat ctx w w' (err e) valid gave at = tt
  executed-RoundDelivers selected ans attempt lat ctx w w' (ok rows) valid gave at =
      ((valid, (ctx, w, gave)), at)

  validated-RoundDelivers :
      (selected : Schema) (ctx : Context) (attempt : ℕ) (st : State W) (v : Option Text)
      → Sql.validate_tables st.ans.sql selected ≡ v
      → st.ans.attempts ≡ attempt
      → RoundDelivers p selected attempt (validated rt p ctx st.ans.sql attempt st v)
  unfolding validated execute_stage
  validated-RoundDelivers selected ctx attempt st (some e) valid at = tt
  validated-RoundDelivers selected ctx attempt st none valid at =
      executed-RoundDelivers selected st.ans attempt _ _ st.world _ _ valid refl at

  generated-RoundDelivers :
      (selected : Schema) (ctx : Context) (attempt : ℕ) (r : Result Text Text × State W)
      → r.1.ans.attempts ≡ attempt
      → RoundDelivers p selected attempt (generated rt p ctx selected attempt r)
  unfolding generated
  generated-RoundDelivers selected ctx attempt (err e, st) at = tt
  generated-RoundDelivers selected ctx attempt (ok query, st) at =
      validated-RoundDelivers selected ctx attempt
        (record st { ans = record st.ans { sql = query } }) _ refl at

  attempt_round-RoundDelivers :
      (ctx : Context) (question : Text) (selected : Schema) (prior : Text) (attempt : ℕ)
      (st : State W)
      → RoundDelivers p selected attempt (attempt_round rt p ctx question selected prior attempt st)
  unfolding attempt_round generate_stage record_stage
  attempt_round-RoundDelivers ctx question selected prior attempt st =
      generated-RoundDelivers selected ctx attempt _ refl

  -- What the loop ends with.
  abbrev Ends : Schema → ℕ → ℕ → Option Text × State W → Type 0
  Ends selected rounds attempt (some e, st) = Unit
  Ends selected rounds attempt (none, st) =
      Delivered p selected st.ans
      × (attempt ≤ st.ans.attempts)
      × (suc st.ans.attempts ≤ attempt + rounds)

  widen-Ends :
      (selected : Schema) (rounds attempt : ℕ) (r : Option Text × State W)
      → Ends selected rounds (attempt + 1) r
      → Ends selected (suc rounds) attempt r
  widen-Ends selected rounds attempt (some e, st) h = tt
  widen-Ends selected rounds attempt (none, st) (given, low, high) =
      (given, omega arith, omega arith)

  go_on-Ends :
      (selected : Schema) (rounds attempt : ℕ) (next : Text → State W → Option Text × State W)
      (how : Round) (st : State W)
      → RoundDelivers p selected attempt (how, st)
      → ((e : Text) → Ends selected rounds (attempt + 1) (next e st))
      → Ends selected (suc rounds) attempt (go_on next how st)
  unfolding go_on
  go_on-Ends selected rounds attempt next answered st (given, at) ih =
      (given, omega arith, omega arith)
  go_on-Ends selected rounds attempt next (stopped why) st h ih = tt
  go_on-Ends selected rounds attempt next (again why) st h ih =
      widen-Ends selected rounds attempt (next why st) (ih why)

  correct-Ends :
      (rounds : ℕ) (ctx : Context) (question : Text) (selected : Schema) (prior : Text)
      (attempt : ℕ) (st : State W)
      → Ends selected rounds attempt (correct rt p rounds ctx question selected prior attempt st)
  unfolding correct
  correct-Ends zero ctx question selected prior attempt st = tt
  correct-Ends (suc rounds) ctx question selected prior attempt st =
      go_on-Ends selected rounds attempt _ _ _
        (attempt_round-RoundDelivers ctx question selected prior attempt st)
        (λ e. correct-Ends rounds ctx question selected e (attempt + 1) _)

  -- The router gave these tables and no error.
  abbrev pub IsRouted : Text → List Text → Type 0
  IsRouted question tables =
      (ctx : Context) × (w : W) × ((p.router.route ctx w question p.schema).0.0 ≡ tables)
      × ((p.router.route ctx w question p.schema).0.1 ≡ none)

  -- An answer's tables, query, rows and attempts.
  abbrev pub Answers : Text → Answer → Type 0
  Answers question ans =
      ((tables : List Text) × IsRouted question tables
        × Delivered p (Prompt.subset p.schema tables) ans)
      × (1 ≤ ans.attempts)
      × (ans.attempts ≤ 3)

  abbrev IsAnswered : Text → Option Text × State W → Type 0
  IsAnswered question (some e, st) = Unit
  IsAnswered question (none, st) = Answers question st.ans

  Ends-IsAnswered :
      (question : Text) (tables : List Text) (r : Option Text × State W)
      → IsRouted question tables
      → Ends (Prompt.subset p.schema tables) 3 1 r
      → IsAnswered question r
  Ends-IsAnswered question tables (some e, st) from h = tt
  Ends-IsAnswered question tables (none, st) from (given, low, high) =
      ((tables, from, given), omega arith, omega arith)

  run_routed-IsAnswered :
      (ctx : Context) (question : Text) (r : Result Text (List Text) × State W)
      → ((tables : List Text) → r.0 ≡ ok tables → IsRouted question tables)
      → IsAnswered question (run_routed rt p ctx question r)
  unfolding run_routed
  run_routed-IsAnswered ctx question (err e, st) from = tt
  run_routed-IsAnswered ctx question (ok tables, st) from =
      Ends-IsAnswered question tables _ (from tables refl)
        (correct-Ends max_attempts ctx question (Prompt.subset p.schema tables) [] 1 st)

  routed-ok :
      (found : List Text) (e : Option Text) (tables : List Text)
      → routed found e ≡ ok tables
      → (found ≡ tables) × (e ≡ none)
  unfolding routed
  routed-ok found none tables same = (cc, refl)
  routed-ok found (some why) tables same = (cc, cc)

  route_stage-IsRouted :
      (ctx : Context) (question : Text) (st : State W) (tables : List Text)
      → (route_stage rt p ctx question st).0 ≡ ok tables
      → IsRouted question tables
  unfolding route_stage
  route_stage-IsRouted ctx question st tables same =
      let (found, fine) = routed-ok _ _ tables same in (_, st.world, found, fine)

  run_classified-IsAnswered :
      (ctx : Context) (question : Text) (c : Classification) (e : Option Text) (st : State W)
      → IsAnswered question (run_classified rt p ctx question c e st)
  unfolding run_classified
  run_classified-IsAnswered ctx question c (some e) st = tt
  run_classified-IsAnswered ctx question c none st = elim (Bool-cases c.in_scope) [
    | inl e ↦ rw e (
        run_routed-IsAnswered ctx question (route_stage rt p ctx question st)
          (route_stage-IsRouted ctx question st))
    | inr e ↦ rw e tt
  ]

  IsAnswered-none :
      (question : Text) (o : Option Text) (st : State W)
      → o ≡ none
      → IsAnswered question (o, st)
      → Answers question st.ans
  IsAnswered-none question (some e) st never h = cc
  IsAnswered-none question none st never h = h

-- If `Run` returns no error, there are tables that the router gave without an error; the answer's query
-- has passed `ValidateTables` against the schema's subset for these tables; the executor has given the
-- answer's rows for this very query; and the number of attempts is from 1 to 3.
pub run-answered :
    {W : Type 0} (rt : Runtime W) (p : Pipeline W) (parent : Context) (w : W) (question : Text)
    → (run rt p parent w question).0 ≡ none
    → Answers rt p question (run rt p parent w question).1.ans
unfolding run
run-answered rt p parent w question good =
    let ctx = with_timeout parent (rt.now w) total_sla in
    let (ce, st) = classify_stage rt p ctx w question in
    IsAnswered-none rt p question _ (run rt p parent w question).1 good
      (run_classified-IsAnswered rt p ctx question ce.0 ce.1 st)
