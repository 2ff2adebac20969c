-- ===== src/Pipeline/Trace.antt =====
-- The explainability trace: which stages a run records, and how they tell what happened.
use querylynx.Base.{
  ℕ, zero, suc, ◌+◌, Option, none, some, List, [], ◌∷◌, ◌++◌, ◌≡◌, refl, sym, ap, subst, ◌∙◌,
  append_assoc, append-nil, Bool-cases, inl, inr, Result, ok, err,
}
use querylynx.Strings.{Text}
use querylynx.Context.{Context, with_timeout}
use querylynx.Schema.{Schema}
use querylynx.Connector.{Rows}
use querylynx.Prompt
use querylynx.Sql
use querylynx.Intent.{Classification}
use querylynx.Explain.{
  StageName, intent, routing, generation, validation, execution, ok_status, Stage, Answer, Output,
  routing_output, record_stage, stage_status, stage_error,
}
use querylynx.Pipeline.{
  Runtime, Pipeline, State, Round, answered, stopped, again, routed, generate_stage, executed,
  validated, generated, error_of, go_on, correct, exhausted, route_stage, total_sla, classify_stage,
  run_routed, run_classified, run, max_attempts,
}
use querylynx.Pipeline.Shape.{
  IsStage, Tries, none_left, no_query, retried, succeeded, IsTrace, not_classified, out_of_scope,
  stopped_at_routing, tried, FailedWith, RoundAdds, QueryAdds,
}

-- A stage with the status and the error that `record` writes.
abbrev Tells : Option Text → Stage → Type 0
Tells e s = (s.status ≡ stage_status e) × (s.error ≡ stage_error e)

record_ok :
    (ans : Answer) (name : StageName) (out : Output) (lat : ℕ)
    → (s : Stage) × ((record_stage ans name out lat none).stages ≡ ans.stages ++ s ∷ [])
      × IsStage name ok_status s
unfolding record_stage
record_ok ans name out lat = (_, refl, (refl, refl))

record_error :
    (ans : Answer) (name : StageName) (out : Output) (lat : ℕ) (e : Text)
    → (s : Stage) × ((record_stage ans name out lat (some e)).stages ≡ ans.stages ++ s ∷ [])
      × FailedWith name e s
unfolding record_stage
record_error ans name out lat e = (_, refl, ((refl, refl), refl))

QueryAdds-RoundAdds :
    (how : Round) (g b : Stage)
    → IsStage generation ok_status g
    → QueryAdds how b
    → RoundAdds how (g ∷ b ∷ [])
QueryAdds-RoundAdds answered g b hg hb = (g, b, refl, hg, hb)
QueryAdds-RoundAdds (stopped e) g b hg hb = absurd hb
QueryAdds-RoundAdds (again e) g b hg hb = (g, b, refl, hg, hb)

abbrev AddsOne : {W : Type 0} → Answer → Round × State W → Type 0
AddsOne ans r = (b : Stage) × (r.1.ans.stages ≡ ans.stages ++ b ∷ []) × QueryAdds r.0 b

executed-AddsOne :
    {W : Type 0} (ans : Answer) (attempt lat : ℕ) (w : W) (res : Result Text Rows)
    → AddsOne ans (executed ans attempt lat w res)
unfolding executed
executed-AddsOne ans attempt lat w (err e) =
    let (b, same, is) = record_error ans execution _ lat e in (b, same, inr is)
executed-AddsOne ans attempt lat w (ok rows) = record_ok ans execution _ lat

module _ {W : Type 0} (rt : Runtime W) (p : Pipeline W) where
  validated-AddsOne :
      (ctx : Context) (query : Text) (attempt : ℕ) (st : State W) (v : Option Text)
      → AddsOne st.ans (validated rt p ctx query attempt st v)
  unfolding validated
  validated-AddsOne ctx query attempt st (some e) =
      let (b, same, is) = record_error st.ans validation _ 0 e in (b, same, inl is)
  validated-AddsOne ctx query attempt st none = executed-AddsOne st.ans attempt _ _ _

  generate_stage-adds :
      (ctx : Context) (question : Text) (s : Schema) (prior : Text) (attempt : ℕ) (st : State W)
      → (g : Stage) × ((generate_stage rt p ctx question s prior attempt st).1.ans.stages
          ≡ st.ans.stages ++ g ∷ [])
        × (g.name ≡ generation)
        × Tells (error_of (generate_stage rt p ctx question s prior attempt st).0) g
  unfolding generate_stage record_stage
  generate_stage-adds ctx question s prior attempt st = (_, refl, refl, (refl, refl))

  RoundAdds-generated :
      (ctx : Context) (s : Schema) (attempt : ℕ) (r : Result Text Text × State W)
      (before : List Stage) (g : Stage)
      → r.1.ans.stages ≡ before ++ g ∷ []
      → g.name ≡ generation
      → Tells (error_of r.0) g
      → (new : List Stage) × ((generated rt p ctx s attempt r).1.ans.stages ≡ before ++ new)
        × RoundAdds (generated rt p ctx s attempt r).0 new
  unfolding generated stage_status stage_error error_of
  RoundAdds-generated ctx s attempt (err e, st) before g same name (status, error) =
      (g ∷ [], same, (g, refl, ((name, status), error)))
  RoundAdds-generated ctx s attempt (ok query, st) before g same name (status, error) =
      let (b, adds, how) =
        validated-AddsOne ctx query attempt (record st { ans = record st.ans { sql = query } })
          (Sql.validate_tables query s) in
      (
        g ∷ b ∷ [],
        adds ∙ ap (λ t. t ++ b ∷ []) same ∙ append_assoc before (g ∷ []) (b ∷ []),
        QueryAdds-RoundAdds _ g b (name, status) how,
      )

  -- The loop's trace behind the stages so far.
  abbrev AddsTries : ℕ → Text → List Stage → Option Text × State W → Type 0
  AddsTries rounds prior before r =
      (new : List Stage) × (r.1.ans.stages ≡ before ++ new) × Tries rounds prior r.0 new

  go_on-AddsTries :
      (rounds : ℕ) (next : Text → State W → Option Text × State W) (how : Round) (st : State W)
      (prior : Text) (before new : List Stage)
      → st.ans.stages ≡ before ++ new
      → RoundAdds how new
      → ((e : Text) → AddsTries rounds e st.ans.stages (next e st))
      → AddsTries (suc rounds) prior before (go_on next how st)
  unfolding go_on
  go_on-AddsTries rounds next answered st prior before new same (g, b, e, hg, hb) ih =
      (g ∷ b ∷ [], same ∙ ap (λ t. before ++ t) e, succeeded hg hb)
  go_on-AddsTries rounds next (stopped why) st prior before new same (g, e, hg) ih =
      (g ∷ [], same ∙ ap (λ t. before ++ t) e, no_query hg)
  go_on-AddsTries rounds next (again why) st prior before new same (g, b, e, hg, hb) ih =
      let (more, rest, tries) = ih why in
      (
        g ∷ b ∷ more,
        rest
            ∙ ap (λ t. t ++ more) (same ∙ ap (λ t. before ++ t) e)
            ∙ append_assoc before (g ∷ b ∷ []) more,
        retried hg hb tries,
      )

  correct-AddsTries :
      (rounds : ℕ) (ctx : Context) (question : Text) (s : Schema) (prior : Text) (attempt : ℕ)
      (st : State W)
      → AddsTries rounds prior st.ans.stages (correct rt p rounds ctx question s prior attempt st)
  unfolding correct exhausted
  correct-AddsTries zero ctx question s prior attempt st =
      ([], sym (append-nil st.ans.stages), none_left)
  correct-AddsTries (suc rounds) ctx question s prior attempt st =
      let st' = record st { ans = record st.ans { attempts = attempt } } in
      let (g, same, name, status) = generate_stage-adds ctx question s prior attempt st' in
      let (new, same', adds) =
        RoundAdds-generated ctx s attempt (generate_stage rt p ctx question s prior attempt st')
          st.ans.stages g same name status in
      go_on-AddsTries rounds _ _ _ prior st.ans.stages new same' adds
        (λ e. correct-AddsTries rounds ctx question s e (attempt + 1) _)

  routed-error_of : (tables : List Text) (e : Option Text) → error_of (routed tables e) ≡ e
  unfolding routed error_of
  routed-error_of tables none = refl
  routed-error_of tables (some why) = refl

  run_routed-IsTrace :
      (ctx : Context) (question : Text) (r : Result Text (List Text) × State W) (i t : Stage)
      → r.1.ans.stages ≡ i ∷ t ∷ []
      → IsStage intent ok_status i
      → t.name ≡ routing
      → Tells (error_of r.0) t
      → IsTrace (run_routed rt p ctx question r).0 (run_routed rt p ctx question r).1.ans.stages
  unfolding run_routed stage_status stage_error error_of
  run_routed-IsTrace ctx question (err e, st) i t same hi name (status, error) =
      rw same (stopped_at_routing hi ((name, status), error))
  run_routed-IsTrace ctx question (ok tables, st) i t same hi name (status, error) =
      let (new, adds, tries) =
        correct-AddsTries max_attempts ctx question (Prompt.subset p.schema tables) [] 1 st in
      subst (λ stages. IsTrace (run_routed rt p ctx question (ok tables, st)).0 stages)
        (sym (adds ∙ ap (λ t. t ++ new) same)) (tried hi (name, status) tries)

  route_stage-adds :
      (ctx : Context) (question : Text) (st : State W)
      → (t : Stage) × ((route_stage rt p ctx question st).1.ans.stages ≡ st.ans.stages ++ t ∷ [])
        × (t.name ≡ routing)
        × Tells (error_of (route_stage rt p ctx question st).0) t
  unfolding route_stage record_stage
  route_stage-adds ctx question st =
      (_, refl, refl, (rw routed-error_of refl, rw routed-error_of refl))

  run_classified-IsTrace :
      (ctx : Context) (question : Text) (c : Classification) (e : Option Text) (st : State W)
      (i : Stage)
      → st.ans.stages ≡ i ∷ []
      → i.name ≡ intent
      → Tells e i
      → IsTrace
          (run_classified rt p ctx question c e st).0
          (run_classified rt p ctx question c e st).1.ans.stages
  unfolding run_classified stage_status stage_error
  run_classified-IsTrace ctx question c (some e) st i same name (status, error) =
      rw same (not_classified ((name, status), error))
  run_classified-IsTrace ctx question c none st i same name (status, error) =
      elim (Bool-cases c.in_scope) [
        | inl e ↦
            let (t, adds, name', status') = route_stage-adds ctx question st in
            rw e (
              run_routed-IsTrace ctx question (route_stage rt p ctx question st) i t
                (adds ∙ ap (λ s. s ++ t ∷ []) same) (name, status) name' status')
        | inr e ↦ rw (e, same) (out_of_scope (name, status))
      ]

first_stage : List Stage → Stage
first_stage [] = record {
  name = intent;
  status = ok_status;
  output = routing_output [];
  latency_ms = 0;
  error = [];
}
first_stage (s ∷ stages) = s

-- Whatever the stages, the router, the model and the executor do, `Run` ends, and its trace is of one
-- of these forms. The intent stage alone: it failed, and its error is the run's, or it is good and the
-- run's error is that the question is out of scope. A good intent and a failed routing, whose error is
-- the run's. Or both good and then at most three rounds, each of which generates a query. A round whose
-- generation fails ends the run with the error of this stage; one that fails at validation or execution
-- is followed by the next or, as the third, ends the run with the message that no query was valid, which
-- carries the error of this stage; and one whose execution is good ends the run with no error.
pub run-IsTrace :
    {W : Type 0} (rt : Runtime W) (p : Pipeline W) (parent : Context) (w : W) (question : Text)
    → IsTrace (run rt p parent w question).0 (run rt p parent w question).1.ans.stages
unfolding run classify_stage record_stage first_stage
run-IsTrace rt p parent w question =
    let ctx = with_timeout parent (rt.now w) total_sla in
    let (ce, st) = classify_stage rt p ctx w question in
    run_classified-IsTrace rt p ctx question ce.0 ce.1 st (first_stage st.ans.stages) refl refl
      (refl, refl)
