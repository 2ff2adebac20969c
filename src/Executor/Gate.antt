-- ===== src/Executor/Gate.antt =====
-- The service over connectors whose Validate is that of internal/connector/postgres/postgres.go.
use querylynx.Base.{some, ◌++◌, ◌≡◌, ◌⊎◌, true, arith, Result, ok, err}
use querylynx.Strings.{Text}
use querylynx.Context.{Context}
use querylynx.Dict.{get}
use querylynx.Regex.{match_string}
use querylynx.Safety.{Violation, check, strip}
use querylynx.Safety.Allowlist.{IsSelect, check-IsSelect}
use querylynx.Postgres
use querylynx.Postgres.{validate, limit_re, validated_text}
use querylynx.Postgres.Limit.{limit_clause, validate-limit, validate_refuses}
use querylynx.Connector.{Ref, Rows, Backend}
use querylynx.Executor.{
  Service, connector_failed, execute_found, execute_validated, validate_and_execute,
}
use querylynx.Executor.Effects.{validate_and_execute-IsGated}

-- A backend with this Validate: each connector has its configuration.
unfoldable pub guarded :
    {W : Type 0} → Backend W → (Ref → Postgres.Config) → (Violation → Text) → Backend W
unfolding validated_text
guarded b config message = record b {
  validate = λ ctx c w q. (validated_text message (validate (config c) q), w);
}

-- What is known of a query that came back with rows.
abbrev pub PassesGate :
    {W : Type 0}
    → Backend W
    → (Ref → Postgres.Config)
    → Context
    → Service
    → W
    → Text
    → Text
    → Rows
    → Type 0
PassesGate b config ctx s w id query rows =
    (c : Ref) × (safe : Text) × (get id s.conns ≡ some c)
    × IsSelect query
    × (match_string limit_re safe ≡ true)
    × ((safe ≡ strip query) ⊎ (safe ≡ strip query ++ limit_clause (config c)))
    × ((b.execute ctx c w safe).0 ≡ ok rows)

pub validated_text-ok :
    (message : Violation → Text) (r : Result Violation Text) (safe : Text)
    → validated_text message r ≡ ok safe
    → r ≡ ok safe
unfolding validated_text
validated_text-ok message (ok q) safe e = ground arith
validated_text-ok message (err v) safe e = absurd (ground arith)

-- Over such a backend, a query comes back with rows only if the guard accepts it, so that it is a single
-- SELECT or WITH statement; and the text that was executed has the word LIMIT and is the stripped query,
-- or that with the connector's row cap appended.
pub validate_and_execute-PassesGate :
    {W : Type 0} (b : Backend W) (config : Ref → Postgres.Config) (message : Violation → Text)
    (ctx : Context) (s : Service) (w : W) (id query : Text) {rows : Rows}
    → (validate_and_execute (guarded b config message) ctx s w id query).0 ≡ ok rows
    → PassesGate b config ctx s w id query rows
unfolding guarded
validate_and_execute-PassesGate b config message ctx s w id query h =
    let (c, safe, found, valid, ran) =
      validate_and_execute-IsGated (guarded b config message) ctx s w id query h in
    let (accepted, limited, form) =
      validate-limit (config c) query (validated_text-ok message _ safe valid) in
    (c, safe, found, check-IsSelect query accepted, limited, form, ran)

-- Over connectors with the Validate of the Postgres backend, a query that the guard refuses never reaches
-- the database: the answer is the guard's error, and neither the service nor the world has changed.
pub validate_and_execute-refuses :
    {W : Type 0} (b : Backend W) (config : Ref → Postgres.Config) (message : Violation → Text)
    (ctx : Context) (s : Service) (w : W) (id query : Text) (c : Ref) (v : Violation)
    → get id s.conns ≡ some c
    → check query ≡ some v
    → validate_and_execute (guarded b config message) ctx s w id query
      ≡ (err (connector_failed (message v)), s, w)
unfolding validate_and_execute execute_found execute_validated guarded validated_text
validate_and_execute-refuses b config message ctx s w id query c v found refused =
    rw (found, (validate_refuses (config c) query v).1 refused)
