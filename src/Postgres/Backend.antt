-- ===== src/Postgres/Backend.antt =====
-- internal/connector/postgres/postgres.go: the connectors of the backend, as the interface
-- (internal/connector/connector.go) sees them. A connector is known by the handle of its pool, since
-- each has one of its own.
pub mod Opening
use querylynx.Base.{
  ℕ, ◌==◌, Option, none, some, List, [], ◌∷◌, ◌++◌, if◌then◌else◌, is_nil, Result, ok, err,
}
use querylynx.Strings.{Text, codes}
use querylynx.Context.{Context}
use querylynx.Schema.{Schema}
use querylynx.Safety.{Violation}
use querylynx.Connector
use querylynx.Connector.{Ref, Rows, Backend}
use querylynx.Postgres.{Config, with_defaults, validate, validated_text}
use querylynx.Postgres.Session.{Driver, execute}
use querylynx.Postgres.Catalog.{Catalog}
use querylynx.Postgres.Introspection.{introspect}

-- The driver's pools, and what goes through one: transactions, and the queries on the catalog.
pub record PoolDriver (V : Type 0) : Type 0 where
  pub open_pool : Context → Text → V → Result Text ℕ × V
  pub ping : Context → ℕ → V → Option Text × V
  pub close_pool : ℕ → V → V
  pub session : ℕ → Driver V
  pub catalog : ℕ → Catalog V

-- The configuration that each connector keeps, and what the driver works on.
pub record Heap (V : Type 0) : Type 0 where
  pub configs : List (ℕ × Config)
  pub pools : V

unfoldable pub config_of : Ref → List (ℕ × Config) → Option Config
config_of c [] = none
config_of c ((p, cfg) ∷ configs) =
    let rest = config_of c configs in if c == p then some cfg else rest

-- The conversion of the registry.
abbrev pub from_common : Connector.Config → Config
from_common cfg = record { dsn = cfg.dsn; row_cap = cfg.row_cap }

module _ {V : Type 0} (driver : PoolDriver V) (message : Violation → Text) where
  -- `New` behind Ping.
  unfoldable pub pinged :
      List (ℕ × Config) → Config → ℕ → Option Text × V → Result Text Ref × Heap V
  pinged configs cfg pool (some e, v) = (
    err (codes "postgres: ping: " ++ e),
    record { configs = configs; pools = driver.close_pool pool v },
  )
  pinged configs cfg pool (none, v) =
      (ok pool, record { configs = (pool, cfg) ∷ configs; pools = v })

  unfoldable pub pool_opened :
      Context → List (ℕ × Config) → Config → Result Text ℕ × V → Result Text Ref × Heap V
  unfolding pinged
  pool_opened ctx configs cfg (err e, v) =
      (err (codes "postgres: open pool: " ++ e), record { configs = configs; pools = v })
  pool_opened ctx configs cfg (ok pool, v) = pinged configs cfg pool (driver.ping ctx pool v)

  unfoldable pub new : Context → Heap V → Config → Result Text Ref × Heap V
  unfolding with_defaults pool_opened
  new ctx h cfg =
      if is_nil cfg.dsn
      then (err (codes "postgres: DSN is required"), h)
      else pool_opened ctx h.configs (with_defaults cfg) (driver.open_pool ctx cfg.dsn h.pools)

  -- A reference that `new` did not return would be a nil pointer.
  unfoldable pub validated_by : Text → Option Config → Result Text Text
  unfolding validated_text validate
  validated_by q none = err (codes "nil connector")
  validated_by q (some cfg) = validated_text message (validate cfg q)

  unfoldable pub in_heap : {A : Type 0} → List (ℕ × Config) → A × V → A × Heap V
  in_heap configs (a, v) = (a, record { configs = configs; pools = v })

  unfoldable pub backend : Backend (Heap V)
  unfolding new validated_by in_heap execute introspect config_of
  backend = record {
    new = λ ctx h cfg. new ctx h (from_common cfg);
    introspect = λ ctx c h. in_heap h.configs (introspect (driver.catalog c) ctx h.pools);
    validate = λ ctx c h q. (validated_by q (config_of c h.configs), h);
    execute = λ ctx c h q. in_heap h.configs (execute (driver.session c) ctx h.pools q);
    close = λ c h. (none, record h { pools = driver.close_pool c h.pools });
  }
