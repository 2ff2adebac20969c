-- ===== src/Executor.antt =====
-- internal/executor/service.go: the open connections, and the gate that a query passes. An operation
-- takes and returns the service and the world; its critical section is atomic, as under the mutex.
pub mod Connections
pub mod Leaks
pub mod Effects
pub mod Gate
pub mod Pools
pub mod Interleaving
pub mod Whole
use querylynx.Base.{Option, none, some, List, [], ◌∷◌, Result, ok, err, if◌then◌else◌, is_nil}
use querylynx.Base.Int.{pos}
use querylynx.Strings.{Text}
use querylynx.Context.{Context}
use querylynx.Dict.{Dict, get, put, remove}
use querylynx.Schema.{Schema}
use querylynx.Connector.{Ref, Rows, Config, Backend, DialectError, new_connector}

pub record Service : Type 0 where
  pub conns : Dict Ref

unfoldable pub new_service : Service
new_service = record { conns = [] }

pub data ServiceError : Type 0 where
  id_required : ServiceError
  unknown_connection : Text → ServiceError
  not_opened : DialectError → ServiceError
  connector_failed : Text → ServiceError

-- What an operation returns.
abbrev pub Outcome : Type 0 → Type 0 → Type 0
Outcome W A = Result ServiceError A × Service × W

-- The service and the world that an operation leaves.
abbrev pub left : {W A : Type 0} → Outcome W A → Service × W
left (r, s, w) = (s, w)

from_connector : {W A : Type 0} → Service → Result Text A × W → Outcome W A
from_connector s (ok a, w) = (ok a, s, w)
from_connector s (err e, w) = (err (connector_failed e), s, w)

closed : {W : Type 0} → Option Text × W → Service → Outcome W Unit
closed (none, w) s = (ok tt, s, w)
closed (some e, w) s = (err (connector_failed e), s, w)

-- The tools of the server, by the calls that it serves: internal/executor/mcpserver.go.
pub data Call : Type 0 where
  open_call : Context → Text → Text → Text → Call
  introspect_call : Context → Text → Call
  execute_call : Context → Text → Text → Call
  close_call : Text → Call

module _ {W : Type 0} (postgres : Backend W) where
  -- The critical section of `OpenConnection`: the connection that it replaces is closed, and the error
  -- of that is dropped.
  unfoldable pub close_old : Option Ref → W → W
  close_old none w = w
  close_old (some old) w = (postgres.close old w).1

  unfoldable pub register_connection : Service → Text → Result DialectError Ref × W → Outcome W Unit
  unfolding close_old
  register_connection s connection_id (err e, w) = (err (not_opened e), s, w)
  register_connection s connection_id (ok c, w) = (
    ok tt,
    record { conns = put connection_id c s.conns },
    close_old (get connection_id s.conns) w,
  )

  unfoldable pub open_connection : Context → Service → W → Text → Text → Text → Outcome W Unit
  unfolding register_connection
  open_connection ctx s w connection_id dialect dsn =
      if is_nil connection_id
      then (err id_required, s, w)
      else register_connection s connection_id
          (new_connector postgres ctx w dialect (record { dsn = dsn; row_cap = pos 0 }))

  introspect_found : Context → Service → W → Text → Option Ref → Outcome W Schema
  unfolding from_connector
  introspect_found ctx s w connection_id none = (err (unknown_connection connection_id), s, w)
  introspect_found ctx s w connection_id (some c) = from_connector s (postgres.introspect ctx c w)

  unfoldable pub introspect : Context → Service → W → Text → Outcome W Schema
  unfolding introspect_found
  introspect ctx s w connection_id =
      introspect_found ctx s w connection_id (get connection_id s.conns)

  execute_validated : Context → Service → Ref → Result Text Text × W → Outcome W Rows
  unfolding from_connector
  execute_validated ctx s c (err e, w) = (err (connector_failed e), s, w)
  execute_validated ctx s c (ok safe, w) = from_connector s (postgres.execute ctx c w safe)

  execute_found : Context → Service → W → Text → Text → Option Ref → Outcome W Rows
  unfolding execute_validated
  execute_found ctx s w connection_id query none = (err (unknown_connection connection_id), s, w)
  execute_found ctx s w connection_id query (some c) =
      execute_validated ctx s c (postgres.validate ctx c w query)

  unfoldable pub validate_and_execute : Context → Service → W → Text → Text → Outcome W Rows
  unfolding execute_found
  validate_and_execute ctx s w connection_id query =
      execute_found ctx s w connection_id query (get connection_id s.conns)

  close_found : Service → W → Text → Option Ref → Outcome W Unit
  unfolding closed
  close_found s w connection_id none = (ok tt, s, w)
  close_found s w connection_id (some c) =
      closed (postgres.close c w) (record { conns = remove connection_id s.conns })

  unfoldable pub close_connection : Service → W → Text → Outcome W Unit
  unfolding close_found
  close_connection s w connection_id = close_found s w connection_id (get connection_id s.conns)

  -- What a call leaves behind.
  unfoldable pub serve : Call → Service × W → Service × W
  serve (open_call ctx id dialect dsn) (s, w) = left (open_connection ctx s w id dialect dsn)
  serve (introspect_call ctx id) (s, w) = left (introspect ctx s w id)
  serve (execute_call ctx id query) (s, w) = left (validate_and_execute ctx s w id query)
  serve (close_call id) (s, w) = left (close_connection s w id)

  unfoldable pub serve_all : List Call → Service × W → Service × W
  serve_all [] sw = sw
  serve_all (c ∷ calls) sw = serve_all calls (serve c sw)
