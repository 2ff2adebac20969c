-- ===== src/Session.antt =====
-- internal/session/session.go: the registered sessions, over a client of the executor. The critical
-- sections are atomic, as under the mutex.
pub mod Register
use querylynx.Base.{ℕ, Option, none, some, List, [], ◌∷◌, ◌++◌, Result, ok, err}
use querylynx.Strings.{Text, codes}
use querylynx.Context.{Context}
use querylynx.Dict.{Dict, get, put, remove}
use querylynx.Schema.{Schema}
use querylynx.Client.{Client}
use querylynx.Intent.{stub}
use querylynx.Rag.{Provider, RouteError, no_tables, no_array, parse_failed, generate_failed, route}
use querylynx.Explain.{hex}
use querylynx.Pipeline.{Pipeline, TableRouter, QueryExecutor}
use querylynx.Llm.{Config, Settings, ProviderError, new_provider}

pub record Session (W : Type 0) : Type 0 where
  pub connection_id : Text
  pub dialect : Text
  pub schema : Schema
  pub pipeline : Pipeline W

pub record Registry (W : Type 0) : Type 0 where
  pub sessions : Dict (Session W)

unfoldable pub new_registry : {W : Type 0} → Registry W
new_registry = record { sessions = [] }

pub record RegisterParams : Type 0 where
  pub provider : Text
  pub api_key : Text
  pub model_id : Text
  pub dialect : Text
  pub dsn : Text

-- The error is the provider's, or that of a call of the client.
pub data RegisterError : Type 0 where
  no_provider : ProviderError → RegisterError
  client_failed : Text → RegisterError

-- What the session is made with: the providers' HTTP exchange, the source of random bytes, the text of
-- a JSON error, and the client.
pub record Outside (W : Type 0) : Type 0 where
  pub connect : Settings → Provider W
  pub random_bytes : ℕ → W → List ℕ × W
  pub json_error : Text
  pub exec : Client W

-- The router's error as a text.
route_message : Text → RouteError → Text
route_message json_error no_tables = codes "rag: schema has no tables"
route_message json_error no_array = codes "rag: no JSON array in routing response"
route_message json_error parse_failed = codes "rag: parse routing response: " ++ json_error
route_message json_error (generate_failed e) = codes "rag: routing generate: " ++ e

tables_or_error : Text → Result RouteError (List Text) → List Text × Option Text
unfolding route_message
tables_or_error json_error (ok tables) = (tables, none)
tables_or_error json_error (err e) = ([], some (route_message json_error e))

-- LLMRouter as a TableRouter.
unfoldable pub llm_router : {W : Type 0} → Text → Provider W → TableRouter W
unfolding tables_or_error
llm_router json_error provider = record {
  route = λ ctx w question s.
      let (found, w') = route provider ctx w question s in (tables_or_error json_error found, w');
}

-- What the registry and the world are after `Register`, with its result.
abbrev pub Registered : Type 0 → Type 0
Registered W = Result RegisterError (Session W) × Registry W × W

module _ {W : Type 0} (out : Outside W) where
  new_connection_id : W → Text × W
  new_connection_id w = let (bytes, w') = out.random_bytes 8 w in (codes "conn_" ++ hex bytes, w')

  new_session : Provider W → Text → Text → Schema → Session W
  unfolding llm_router
  new_session provider connection_id dialect schema = record {
    connection_id = connection_id;
    dialect = dialect;
    schema = schema;
    pipeline = record {
      connection_id = connection_id;
      dialect = dialect;
      schema = schema;
      intent = stub;
      router = llm_router out.json_error provider;
      generator = provider;
      executor = record { validate_and_execute = out.exec.validate_and_execute };
    };
  }

  introspected :
      Context → Registry W → Text → Text → Provider W → Result Text Schema × W → Registered W
  unfolding new_session
  introspected ctx r connection_id dialect provider (err e, w) =
      (err (client_failed e), r, (out.exec.close_connection ctx w connection_id).1)
  introspected ctx r connection_id dialect provider (ok schema, w) =
      let session = new_session provider connection_id dialect schema in
      (ok session, record { sessions = put connection_id session r.sessions }, w)

  opened_connection :
      Context → Registry W → Text → Text → Provider W → Option Text × W → Registered W
  unfolding introspected
  opened_connection ctx r connection_id dialect provider (some e, w) = (err (client_failed e), r, w)
  opened_connection ctx r connection_id dialect provider (none, w) =
      introspected ctx r connection_id dialect provider (out.exec.introspect ctx w connection_id)

  with_provider :
      Context → Registry W → RegisterParams → W → Result ProviderError Settings → Registered W
  unfolding opened_connection
  with_provider ctx r p w (err e) = (err (no_provider e), r, w)
  with_provider ctx r p w (ok settings) =
      let (connection_id, w') = new_connection_id w in
      opened_connection ctx r connection_id p.dialect (out.connect settings)
        (out.exec.open_connection ctx w' connection_id p.dialect p.dsn)

  unfoldable pub register : Context → Registry W → RegisterParams → W → Registered W
  unfolding with_provider new_connection_id
  register ctx r p w =
      with_provider ctx r p w
        (new_provider p.provider (record { api_key = p.api_key; model_id = p.model_id }))

  unfoldable pub get_session : Registry W → Text → Option (Session W)
  get_session r id = get id r.sessions

  unfoldable pub close_session : Context → Registry W → W → Text → Option Text × Registry W × W
  close_session ctx r w id =
      let (e, w') = out.exec.close_connection ctx w id in
      (e, record { sessions = remove id r.sessions }, w')
