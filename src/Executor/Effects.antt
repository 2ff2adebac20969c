-- ===== src/Executor/Effects.antt =====
-- What each operation does to the map of the open connections.
use querylynx.Base.{
  Option, none, some, ◌≡◌, refl, arith, Result, ok, err, Bool-cases, inl, inr, is_nil,
}
use querylynx.Strings.{Text}
use querylynx.Context.{Context}
use querylynx.Dict.{get, put, remove}
use querylynx.Schema.{Schema}
use querylynx.Connector.{Ref, Rows, Backend, DialectError}
use querylynx.Executor.{
  Service, Outcome, from_connector, register_connection, open_connection, introspect_found,
  introspect, execute_validated, execute_found, validate_and_execute, closed, close_found,
  close_connection,
}
use querylynx.Executor.Connections.{remove-missing}

-- Opening puts a connector under the id, or fails and changes nothing.
abbrev pub Puts : {W : Type 0} → Text → Service → Outcome W Unit → Type 0
Puts id s (err e, s', w) = s' ≡ s
Puts id s (ok u, s', w) = (c : Ref) × (s' ≡ record { conns = put id c s.conns })

module _ {W : Type 0} (postgres : Backend W) where
  register_connection-Puts :
      (s : Service) (id : Text) (new : Result DialectError Ref × W)
      → Puts id s (register_connection postgres s id new)
  unfolding register_connection
  register_connection-Puts s id (err e, w) = refl
  register_connection-Puts s id (ok c, w) = (c, refl)

  pub open_connection-Puts :
      (ctx : Context) (s : Service) (w : W) (id dialect dsn : Text)
      → Puts id s (open_connection postgres ctx s w id dialect dsn)
  unfolding open_connection
  open_connection-Puts ctx s w id dialect dsn = elim (Bool-cases (is_nil id)) [
    | inl e ↦ rw e refl
    | inr e ↦ rw e (register_connection-Puts s id _)
  ]

  from_connector-service :
      {A : Type 0} (s : Service) (r : Result Text A × W) → (from_connector s r).1 ≡ s
  unfolding from_connector
  from_connector-service s (ok a, w) = refl
  from_connector-service s (err e, w) = refl

  introspect_found-service :
      (ctx : Context) (s : Service) (w : W) (id : Text) (found : Option Ref)
      → (introspect_found postgres ctx s w id found).1 ≡ s
  unfolding introspect_found
  introspect_found-service ctx s w id none = refl
  introspect_found-service ctx s w id (some c) =
      from_connector-service s (postgres.introspect ctx c w)

  pub introspect-service :
      (ctx : Context) (s : Service) (w : W) (id : Text) → (introspect postgres ctx s w id).1 ≡ s
  unfolding introspect
  introspect-service ctx s w id = introspect_found-service ctx s w id (get id s.conns)

  -- A schema that an operation returns is the connector's, and so is the world that it leaves.
  abbrev pub Reads : Context → Ref → W → Outcome W Schema → Type 0
  Reads ctx c w (err e, s, w') = Unit
  Reads ctx c w (ok schema, s, w') = postgres.introspect ctx c w ≡ (ok schema, w')

  from_connector-Reads :
      (ctx : Context) (s : Service) (c : Ref) (w : W) (r : Result Text Schema × W)
      → postgres.introspect ctx c w ≡ r
      → Reads ctx c w (from_connector s r)
  unfolding from_connector
  from_connector-Reads ctx s c w (ok schema, w') e = e
  from_connector-Reads ctx s c w (err why, w') e = tt

  pub introspect-Reads :
      (ctx : Context) (s : Service) (w : W) (id : Text) (c : Ref)
      → get id s.conns ≡ some c
      → Reads ctx c w (introspect postgres ctx s w id)
  unfolding introspect introspect_found
  introspect-Reads ctx s w id c e =
      rw e (from_connector-Reads ctx s c w (postgres.introspect ctx c w) refl)

  closed-service : (s : Service) (r : Option Text × W) → (closed r s).1 ≡ s
  unfolding closed
  closed-service s (none, w) = refl
  closed-service s (some e, w) = refl

  close_found-service :
      (s : Service) (w : W) (id : Text) (found : Option Ref)
      → get id s.conns ≡ found
      → (close_found postgres s w id found).1 ≡ record { conns = remove id s.conns }
  unfolding close_found
  close_found-service s w id none e = rw (remove-missing id s.conns e)
  close_found-service s w id (some c) e = closed-service _ (postgres.close c w)

  -- Closing removes the id, known or not.
  pub close_connection-service :
      (s : Service) (w : W) (id : Text)
      → (close_connection postgres s w id).1 ≡ record { conns = remove id s.conns }
  unfolding close_connection
  close_connection-service s w id = close_found-service s w id (get id s.conns) refl

-- A query that was executed: its connection is known, what `Validate` returned for it was executed, and
-- neither failed.
abbrev pub IsGated : {W : Type 0} → Backend W → Context → Service → W → Text → Text → Rows → Type 0
IsGated postgres ctx s w id query rows =
    (c : Ref) × (safe : Text) × (get id s.conns ≡ some c)
    × ((postgres.validate ctx c w query).0 ≡ ok safe)
    × ((postgres.execute ctx c (postgres.validate ctx c w query).1 safe).0 ≡ ok rows)

module _ {W : Type 0} (postgres : Backend W) where
  from_connector-ok :
      {A : Type 0} (s : Service) (r : Result Text A × W) (a : A)
      → (from_connector s r).0 ≡ ok a
      → r.0 ≡ ok a
  unfolding from_connector
  from_connector-ok s (ok b, w) a e = ground arith
  from_connector-ok s (err e, w) a h = absurd (ground arith)

  execute_validated-ok :
      (ctx : Context) (s : Service) (c : Ref) (v : Result Text Text × W) (rows : Rows)
      → (execute_validated postgres ctx s c v).0 ≡ ok rows
      → (safe : Text) × (v.0 ≡ ok safe) × ((postgres.execute ctx c v.1 safe).0 ≡ ok rows)
  unfolding execute_validated
  execute_validated-ok ctx s c (err e, w) rows h = absurd (ground arith)
  execute_validated-ok ctx s c (ok safe, w) rows h =
      (safe, refl, from_connector-ok s (postgres.execute ctx c w safe) rows h)

  execute_found-IsGated :
      (ctx : Context) (s : Service) (w : W) (id query : Text) (found : Option Ref) (rows : Rows)
      → get id s.conns ≡ found
      → (execute_found postgres ctx s w id query found).0 ≡ ok rows
      → IsGated postgres ctx s w id query rows
  unfolding execute_found
  execute_found-IsGated ctx s w id query none rows e h = absurd (ground arith)
  execute_found-IsGated ctx s w id query (some c) rows e h =
      let (safe, valid, ran) =
        execute_validated-ok ctx s c (postgres.validate ctx c w query) rows h in
      (c, safe, e, valid, ran)

-- If a query comes back with rows, then its connection is known, and the rows are what the connector's
-- execution gave for the query that the connector's validation had returned for it.
pub validate_and_execute-IsGated :
    {W : Type 0} (postgres : Backend W) (ctx : Context) (s : Service) (w : W) (id query : Text)
    {rows : Rows}
    → (validate_and_execute postgres ctx s w id query).0 ≡ ok rows
    → IsGated postgres ctx s w id query rows
unfolding validate_and_execute
validate_and_execute-IsGated postgres ctx s w id query {rows} h =
    execute_found-IsGated postgres ctx s w id query (get id s.conns) rows refl h
