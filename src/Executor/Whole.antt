-- ===== src/Executor/Whole.antt =====
-- A query on its whole way: from the executor's service (internal/executor/service.go) through the
-- Postgres backend (internal/connector/postgres/postgres.go) to the driver.
use querylynx.Base.{Option, none, some, ◌++◌, ◌≡◌, refl, ◌⊎◌, true, arith, subst, ok, ap, sym, ◌∙◌}
use querylynx.Strings.{Text}
use querylynx.Context.{Context}
use querylynx.Dict.{get}
use querylynx.Regex.{match_string}
use querylynx.Safety.{Violation, strip}
use querylynx.Safety.Allowlist.{IsSelect, check-IsSelect}
use querylynx.Connector.{Ref, Rows}
use querylynx.Postgres.{Config, limit_re, validate}
use querylynx.Postgres.Limit.{limit_clause, validate-limit}
use querylynx.Postgres.Session.{execute}
use querylynx.Postgres.Session.Calls.{recorded_run, IsReadOnlyRun, execute-IsReadOnlyRun}
use querylynx.Postgres.Backend.{PoolDriver, Heap, config_of, validated_by, in_heap, backend}
use querylynx.Executor.{Service, validate_and_execute}
use querylynx.Executor.Gate.{validated_text-ok}
use querylynx.Executor.Effects.{validate_and_execute-IsGated}

-- How a query came to be executed, that came back with rows: on the connector of its connection, after
-- the guard had accepted it as a single SELECT or WITH statement, as a text that has the word LIMIT and is
-- the stripped query, or that with the connector's row cap appended, and in a run of the driver that is
-- read-only, bounded in time and rolled back.
pub record IsSafeRun {V : Type 0} (driver : PoolDriver V) (ctx : Context) (s : Service) (h : Heap V)
    (id query : Text) (rows : Rows) : Type 0 where
  pub connector : Ref
  pub config : Config
  pub executed : Text
  pub known : get id s.conns ≡ some connector
  pub configured : config_of connector h.configs ≡ some config
  pub single : IsSelect query
  pub limited : match_string limit_re executed ≡ true
  pub form : (executed ≡ strip query) ⊎ (executed ≡ strip query ++ limit_clause config)
  pub result : (execute (driver.session connector) ctx h.pools executed).0 ≡ ok rows
  pub read_only_run :
      IsReadOnlyRun ctx executed
        (ok rows)
        (recorded_run (driver.session connector) ctx h.pools executed).1.1

module _ {V : Type 0} (driver : PoolDriver V) (message : Violation → Text) where
  validated_by-ok :
      (q safe : Text) (cfg : Option Config)
      → validated_by driver message q cfg ≡ ok safe
      → (c : Config) × (cfg ≡ some c) × (validate c q ≡ ok safe)
  unfolding validated_by
  validated_by-ok q safe none e = absurd (ground arith)
  validated_by-ok q safe (some c) e = (c, refl, validated_text-ok message (validate c q) safe e)

  -- If a query comes back from the executor with rows, then its connection is known to the service and its
  -- connector has a configuration; the guard accepts the query as a single SELECT or WITH statement; the
  -- text that the driver executed has the word LIMIT and is the stripped query, or that with the
  -- connector's row cap appended; the rows are what Execute gave for it on the driver's session of this
  -- connector; and the calls that this execution makes of a driver that writes them down are the beginning
  -- of a read-only transaction, the statement timeout, this text once, and the rollback, the rows being all
  -- that the driver answered to this text, normalised and in order.
  pub validate_and_execute-IsSafeRun :
      (ctx : Context) (s : Service) (h : Heap V) (id query : Text) {rows : Rows}
      → (validate_and_execute (backend driver message) ctx s h id query).0 ≡ ok rows
      → IsSafeRun driver ctx s h id query rows
  unfolding backend in_heap
  validate_and_execute-IsSafeRun ctx s h id query {rows} e =
      let (c, safe, found, valid, ran) =
        validate_and_execute-IsGated (backend driver message) ctx s h id query e in
      let (cfg, configured, checked) = validated_by-ok query safe (config_of c h.configs) valid in
      let (accepted, limited, form) = validate-limit cfg query checked in
      record {
        connector = c;
        config = cfg;
        executed = safe;
        known = found;
        configured = configured;
        single = check-IsSelect query accepted;
        limited = limited;
        form = form;
        result = ran;
        read_only_run =
            let (run, same) = execute-IsReadOnlyRun (driver.session c) ctx h.pools safe in
            subst
              (λ r. IsReadOnlyRun ctx safe r (recorded_run (driver.session c) ctx h.pools safe).1.1)
              (sym (ap (λ r. r.0) same) ∙ ran) run;
      }
