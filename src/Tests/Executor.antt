-- ===== src/Tests/Executor.antt =====
-- The executor and the registry over a backend that counts its connections.
use querylynx.Base.{
  ℕ, suc, Bool, false, not, ◌&&◌, ◌||◌, ◌==◌, ltb, none, List, [], ◌∷◌, ◌++◌, ◌≡◌, refl, arith, ok,
  err,
}
use querylynx.Strings.{Text, codes}
use querylynx.Context.{background}
use querylynx.Connector.{Ref, Backend}
use querylynx.Explain.{hex}
use querylynx.Rag.{Provider}
use querylynx.Executor.{
  Service, new_service, connector_failed, validate_and_execute, ServiceError, Call, open_call,
  execute_call, close_call, serve_all,
}
use querylynx.Executor.Leaks.{Pools, IsTight, serve_all-IsTight}
use querylynx.Client.{Remote}
use querylynx.Llm.{Settings}
use querylynx.Session.{new_registry, RegisterParams, register}
use querylynx.Session.Register.{Leaves, outside, register-Leaves}
use querylynx.Tests.Fleet.{fleet, one_row}
use querylynx.Tests.Running.{run_executor, run_safety}
use querylynx.Base.Int.{pos}
use querylynx.Postgres
use querylynx.Safety.{Violation, statement_type}
use querylynx.Executor.Gate.{guarded, validate_and_execute-refuses}

-- How many were opened, and which of them are.
pub record Counting : Type 0 where
  pub next : ℕ
  pub live : ℕ → Bool

abbrev pub counting : Backend Counting
counting = record {
  new =
      λ ctx w cfg. (ok w.next, record { next = suc w.next; live = λ r. (w.next == r) || w.live r });
  introspect = λ ctx c w. (ok fleet, w);
  validate = λ ctx c w q. (ok (q ++ codes " LIMIT 1"), w);
  execute = λ ctx c w q. (ok one_row, w);
  close = λ c w. (none, record { next = w.next; live = λ r. w.live r && not (c == r) });
}

abbrev pub none_live : Counting
none_live = record { next = 0; live = λ r. false }

abbrev pub counting_pools : Pools counting
counting_pools = record {
  is_open = λ w r. ltb r w.next && w.live r;
  new_ok = λ ctx w cfg c e. (ground arith, λ r. ground arith);
  new_err = λ ctx w cfg e h r. absurd (ground arith);
  introspect_same = λ ctx c w r. refl;
  validate_same = λ ctx c w q r. refl;
  execute_same = λ ctx c w q r. refl;
  close_closes = λ c w r. ground arith;
}

-- Two databases under one id, a query, a dialect that is not there, and one close.
abbrev calls : List Call
calls =
    open_call background (codes "a") (codes "postgres") (codes "x")
    ∷ open_call background (codes "a") (codes "postgresql") (codes "y")
    ∷ open_call background (codes "b") (codes "oracle") (codes "z")
    ∷ execute_call background (codes "a") (codes "SELECT 1")
    ∷ open_call background (codes "c") (codes "postgres") (codes "z")
    ∷ close_call (codes "c")
    ∷ []

serve_all-calls : (serve_all counting calls (new_service, none_live)).0.conns ≡ (codes "a", 1) ∷ []
unfolding run_executor
serve_all-calls = refl

pub none_is_open : (r : Ref) → (ltb r 0 && false) ≡ false
none_is_open r = ground arith

serve_all-IsTight_example :
    IsTight counting_pools (serve_all counting calls (new_service, none_live))
serve_all-IsTight_example = serve_all-IsTight counting_pools none_live calls none_is_open

abbrev one_open : Service
one_open = record { conns = (codes "a", 1) ∷ [] }

abbrev message : ServiceError → Text
message e = codes "executor failed"

abbrev silent : Settings → Provider (Remote Counting)
silent settings = record { generate = λ ctx at prompt. (err (codes "silent"), at) }

abbrev bytes : ℕ → Counting → List ℕ × Counting
bytes n w = (0 ∷ 255 ∷ [], w)

abbrev params : RegisterParams
params = record {
  provider = codes "openai";
  api_key = codes "key";
  model_id = [];
  dialect = codes "postgres";
  dsn = codes "x";
}

register-Leaves_example :
    Leaves counting background
      (codes "conn_" ++ hex (bytes 8 none_live).0)
      params.dialect
      new_registry
      one_open
      (register
        (outside counting message silent bytes [])
        background
        new_registry
        params
        (record { service = one_open; world = none_live }))
register-Leaves_example =
    register-Leaves counting message silent bytes [] background new_registry params one_open
      none_live (unfold run_executor in refl)

abbrev config : Ref → Postgres.Config
config c = record { dsn = []; row_cap = pos 10 }

abbrev violation_text : Violation → Text
violation_text v = codes "refused"

validate_and_execute-refuses_example :
    validate_and_execute
      (guarded counting config violation_text)
      background
      one_open
      none_live
      (codes "a")
      (codes "DROP TABLE t")
    ≡ (err (connector_failed (codes "refused")), one_open, none_live)
validate_and_execute-refuses_example =
    validate_and_execute-refuses counting config violation_text background one_open none_live
      (codes "a") (codes "DROP TABLE t") 1 (statement_type (codes "DROP"))
      (unfold run_executor in refl) (unfold run_safety in refl)
