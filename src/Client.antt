-- ===== src/Client.antt =====
-- internal/executorclient/client.go: the executor's client, and what it is when each of its methods
-- reaches the tool of the server (internal/executor/mcpserver.go) and its result comes back.
pub mod Decode
use querylynx.Base.{Option, none, some, Result, ok, err}
use querylynx.Strings.{Text}
use querylynx.Context.{Context}
use querylynx.Schema.{Schema}
use querylynx.Connector.{Rows, Backend}
use querylynx.Executor.{
  Service, ServiceError, Outcome, open_connection, introspect, validate_and_execute,
  close_connection,
}

pub record Client (W : Type 0) : Type 0 where
  pub open_connection : Context → W → Text → Text → Text → Option Text × W
  pub introspect : Context → W → Text → Result Text Schema × W
  pub validate_and_execute : Context → W → Text → Text → Result Text Rows × W
  pub close_connection : Context → W → Text → Option Text × W

-- The executor's state and what lies behind it.
pub record Remote (W : Type 0) : Type 0 where
  pub service : Service
  pub world : W

-- The error, if any, of a call without a result; `message` prints the executor's errors.
unfoldable pub error_text :
    {W : Type 0} → (ServiceError → Text) → Outcome W Unit → Option Text × Remote W
error_text message (ok u, s, w) = (none, record { service = s; world = w })
error_text message (err e, s, w) = (some (message e), record { service = s; world = w })

unfoldable pub result_text :
    {W A : Type 0} → (ServiceError → Text) → Outcome W A → Result Text A × Remote W
result_text message (ok a, s, w) = (ok a, record { service = s; world = w })
result_text message (err e, s, w) = (err (message e), record { service = s; world = w })

unfoldable pub direct_client : {W : Type 0} → Backend W → (ServiceError → Text) → Client (Remote W)
unfolding error_text result_text
direct_client postgres message = record {
  open_connection = λ ctx at id dialect dsn.
      error_text message (open_connection postgres ctx at.service at.world id dialect dsn);
  introspect = λ ctx at id. result_text message (introspect postgres ctx at.service at.world id);
  validate_and_execute = λ ctx at id query.
      result_text message (validate_and_execute postgres ctx at.service at.world id query);
  close_connection =
      λ ctx at id. error_text message (close_connection postgres at.service at.world id);
}
