-- ===== src/Postgres/Session.antt =====
-- internal/connector/postgres/postgres.go: `Execute` and `normalize`. The driver is a parameter.
pub mod Calls
pub mod Keeps
pub mod Reading
use querylynx.Base.{
  Option, none, some, List, [], ◌∷◌, ◌++◌, ◌≡◌, Result, ok, err, append_assoc, append-nil,
}
use querylynx.Strings.{Text, codes}
use querylynx.Context.{Context, background}
use querylynx.Connector.{Cell, null, shown, Rows}

pub data Access : Type 0 where
  read_only read_write : Access

-- A value that the driver decodes, as far as `normalize` tells them apart. A time comes with its
-- RFC 3339 form, a number with its value as a float and with its driver value, where it has them.
pub data Value : Type 0 where
  nil : Value
  bytes time other : Text → Value
  numeric : Option Text → Result Text Cell → Value

-- The rows of a query: their columns, each row or the error on reading it, and the error at the end.
pub record Fetched : Type 0 where
  pub columns : List Text
  pub rows : List (Result Text (List Value))
  pub ended : Option Text

pub record Driver (W : Type 0) : Type 0 where
  pub begin_tx : Context → Access → W → Option Text × W
  pub exec : Context → Text → W → Option Text × W
  pub query : Context → Text → W → Result Text Fetched × W
  pub rollback : Context → W → W

driver_value : Result Text Cell → Cell
driver_value (ok dv) = dv
driver_value (err e) = null

unfoldable pub normalize : Value → Cell
unfolding driver_value
normalize nil = null
normalize (bytes x) = shown x
normalize (time x) = shown x
normalize (other x) = shown x
normalize (numeric (some f) v) = shown f
normalize (numeric none v) = driver_value v

unfoldable pub normalize_row : List Value → List Cell
unfolding normalize
normalize_row [] = []
normalize_row (v ∷ vs) = normalize v ∷ normalize_row vs

unfoldable pub ended_well : List Text → List (List Cell) → Option Text → Result Text Rows
ended_well columns rows none = ok (record { columns = columns; rows = rows })
ended_well columns rows (some e) = err (codes "postgres: iterate rows: " ++ e)

-- The loop over the rows, with those that were read. The rows that come with an error are not
-- modelled: no caller reads them.
unfoldable pub read_rows :
    List Text → Option Text → List (List Cell) → List (Result Text (List Value)) → Result Text Rows
unfolding ended_well normalize_row
read_rows columns ended rows [] = ended_well columns rows ended
read_rows columns ended rows (err e ∷ more) = err (codes "postgres: read row: " ++ e)
read_rows columns ended rows (ok vals ∷ more) =
    read_rows columns ended (rows ++ normalize_row vals ∷ []) more

abbrev pub set_timeout : Text
set_timeout = codes "set local statement_timeout = 10000"

unfoldable pub fetched : Result Text Fetched → Result Text Rows
unfolding read_rows
fetched (err e) = err (codes "postgres: execute: " ++ e)
fetched (ok f) = read_rows f.columns f.ended [] f.rows

-- The result and the world.
abbrev pub Ran : Type 0 → Type 0
Ran W = Result Text Rows × W

module _ {W : Type 0} (driver : Driver W) where
  -- The deferred rollback, under a context of its own.
  unfoldable pub rolled_back : Ran W → Ran W
  rolled_back (res, w) = (res, driver.rollback background w)

  unfoldable pub with_timeout_set : Context → Text → Option Text × W → Ran W
  unfolding rolled_back fetched
  with_timeout_set ctx q (some e, w) =
      rolled_back (err (codes "postgres: set statement_timeout: " ++ e), w)
  with_timeout_set ctx q (none, w) =
      let (res, w') = driver.query ctx q w in rolled_back (fetched res, w')

  unfoldable pub begun : Context → Text → Option Text × W → Ran W
  unfolding with_timeout_set
  begun ctx q (some e, w) = (err (codes "postgres: begin read-only tx: " ++ e), w)
  begun ctx q (none, w) = with_timeout_set ctx q (driver.exec ctx set_timeout w)

  unfoldable pub execute : Context → W → Text → Ran W
  unfolding begun
  execute ctx w q = begun ctx q (driver.begin_tx ctx read_only w)
