-- ===== src/Connector.antt =====
-- internal/connector/connector.go and internal/connector/registry/registry.go: what every backend shares,
-- the interface that it offers, and the choice of the backend.
pub mod Redact
use querylynx.Base.{ℕ, ◌||◌, Option, List, Result, ok, err, if◌then◌else◌}
use querylynx.Base.Int.{ℤ}
use querylynx.Strings.{Text, codes, text_eq}
use querylynx.Context.{Context}
use querylynx.Schema.{Schema}

-- A cell of a result row, as far as the program tells cells apart.
pub data Cell : Type 0 where
  null : Cell
  shown : Text → Cell

pub record Rows : Type 0 where
  pub columns : List Text
  pub rows : List (List Cell)

pub record Config : Type 0 where
  pub dsn : Text
  pub row_cap : ℤ

-- A connector that was opened: Go's interface value, which points to it.
abbrev pub Ref : Type 0
Ref = ℕ

-- The interface's operations on the connectors of a backend, and its constructor.
pub record Backend (W : Type 0) : Type 0 where
  pub new : Context → W → Config → Result Text Ref × W
  pub introspect : Context → Ref → W → Result Text Schema × W
  pub validate : Context → Ref → W → Text → Result Text Text × W
  pub execute : Context → Ref → W → Text → Result Text Rows × W
  pub close : Ref → W → Option Text × W

-- The errors of `New`, with the dialect that their messages print.
pub data DialectError : Type 0 where
  coming_soon unknown_dialect : Text → DialectError
  open_failed : Text → DialectError

unfoldable pub opened : {W : Type 0} → Result Text Ref × W → Result DialectError Ref × W
opened (ok r, w) = (ok r, w)
opened (err e, w) = (err (open_failed e), w)

-- The registry's `New`; the backend is that of Postgres, the only one there is.
unfoldable pub new_connector :
    {W : Type 0} → Backend W → Context → W → Text → Config → Result DialectError Ref × W
unfolding text_eq opened
new_connector postgres ctx w dialect cfg =
    if text_eq dialect (codes "postgres") || text_eq dialect (codes "postgresql")
    then opened (postgres.new ctx w cfg)
    else if text_eq dialect (codes "mysql") || text_eq dialect (codes "mariadb")
    then (err (coming_soon dialect), w)
    else if text_eq dialect (codes "mongodb")
    then (err (coming_soon dialect), w)
    else (err (unknown_dialect dialect), w)
