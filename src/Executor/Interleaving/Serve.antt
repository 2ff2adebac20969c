-- ===== src/Executor/Interleaving/Serve.antt =====
-- A call that runs alone is a run of its steps.
use querylynx.Base.{
  false, Option, none, some, [], ◌≡◌, refl, ap, Bool-cases, inl, inr, Result, ok, err, is_nil,
}
use querylynx.Base.Int.{pos}
use querylynx.Strings.{Text}
use querylynx.Context.{Context}
use querylynx.Dict.{get}
use querylynx.Connector.{Ref, Backend, DialectError, new_connector}
use querylynx.Executor.{
  Service, Call, open_call, introspect_call, execute_call, close_call, left, from_connector,
  register_connection, open_connection, introspect_found, execute_validated, execute_found,
  validate_and_execute, close_connection, serve,
}
use querylynx.Executor
use querylynx.Executor.Interleaving.{
  idle, here, make_connector, fail_connector, register, close, look_up, introspect, validate,
  execute, give_up, Runs, stay, then,
}

module _ {W : Type 0} (postgres : Backend W) where
  abbrev Ends : Service → W → Service × W → Type 0
  Ends s w (s', w') = Runs postgres (idle s w) (idle s' w')

  from_connector-Ends :
      {A : Type 0} (s : Service) (w : W) (r : Result Text A × W)
      → Ends s w (s, r.1)
      → Ends s w (left (from_connector s r))
  unfolding from_connector
  from_connector-Ends s w (ok a, w') runs = runs
  from_connector-Ends s w (err e, w') runs = runs

  opened-Ends :
      (ctx : Context) (s : Service) (w : W) (id dialect dsn : Text)
      (new : Result DialectError Ref × W)
      → is_nil id ≡ false
      → new_connector postgres ctx w dialect (record { dsn = dsn; row_cap = pos 0 }) ≡ new
      → Ends s w (left (register_connection postgres s id new))
  unfolding register_connection
  opened-Ends ctx s w id dialect dsn (err e, w') given made =
      then (fail_connector e w' ctx dialect dsn made) stay
  opened-Ends ctx s w id dialect dsn (ok c, w') given made =
      then (make_connector id c w' ctx dialect dsn given made) (then (register id c [] here) stay)

  open_connection-Ends :
      (ctx : Context) (s : Service) (w : W) (id dialect dsn : Text)
      → Ends s w (left (open_connection postgres ctx s w id dialect dsn))
  unfolding open_connection
  open_connection-Ends ctx s w id dialect dsn = elim (Bool-cases (is_nil id)) [
    | inl e ↦ rw e stay
    | inr e ↦ rw e (opened-Ends ctx s w id dialect dsn _ e refl)
  ]

  introspect_found-Ends :
      (ctx : Context) (s : Service) (w : W) (id : Text) (found : Option Ref)
      → get id s.conns ≡ found
      → Ends s w (left (introspect_found postgres ctx s w id found))
  unfolding introspect_found
  introspect_found-Ends ctx s w id none e = stay
  introspect_found-Ends ctx s w id (some c) e =
      from_connector-Ends s w (postgres.introspect ctx c w)
        (then (look_up id c e) (then (introspect c [] ctx here) stay))

  executed-Ends :
      (ctx : Context) (s : Service) (w : W) (id query : Text) (c : Ref) (v : Result Text Text × W)
      → get id s.conns ≡ some c
      → postgres.validate ctx c w query ≡ v
      → Ends s w (left (execute_validated postgres ctx s c v))
  unfolding execute_validated
  executed-Ends ctx s w id query c (err e', w') e checked = then (look_up id c e) (
      rw (← ap (λ v. v.1) checked)
        (then (validate c [] ctx query here) (then (give_up c [] here) stay)))
  executed-Ends ctx s w id query c (ok safe, w') e checked =
      from_connector-Ends s w (postgres.execute ctx c w' safe) (
        then (look_up id c e) (
          rw (← ap (λ v. v.1) checked)
            (then (validate c [] ctx query here) (then (execute c [] ctx safe here) stay))))

  execute_found-Ends :
      (ctx : Context) (s : Service) (w : W) (id query : Text) (found : Option Ref)
      → get id s.conns ≡ found
      → Ends s w (left (execute_found postgres ctx s w id query found))
  unfolding execute_found
  execute_found-Ends ctx s w id query none e = stay
  execute_found-Ends ctx s w id query (some c) e = executed-Ends ctx s w id query c _ e refl

  -- What a call does that runs alone, its steps do, from no call under way to none.
  pub serve-Ends : (c : Call) (s : Service) (w : W) → Ends s w (serve postgres c (s, w))
  unfolding serve
  serve-Ends (open_call ctx id dialect dsn) s w = open_connection-Ends ctx s w id dialect dsn
  serve-Ends (introspect_call ctx id) s w =
      unfold Executor.introspect in introspect_found-Ends ctx s w id (get id s.conns) refl
  serve-Ends (execute_call ctx id query) s w =
      unfold validate_and_execute in execute_found-Ends ctx s w id query (get id s.conns) refl
  serve-Ends (close_call id) s w = then (close id) stay
