-- ===== src/Session/Register.antt =====
-- `Register` over the executor's service.
use querylynx.Base.{ℕ, none, some, List, ◌++◌, ◌≡◌, refl, ap, ◌∙◌, Result, ok, err}
use querylynx.Strings.{Text, codes}
use querylynx.Strings.Equal.{text_eq_refl}
use querylynx.Context.{Context}
use querylynx.Dict.{Dict, get, put, remove, get-put_self}
use querylynx.Schema.{Schema}
use querylynx.Rag.{Provider}
use querylynx.Explain.{hex}
use querylynx.Connector.{Ref, Backend}
use querylynx.Llm.{Settings, ProviderError}
use querylynx.Executor.{
  Service, ServiceError, Outcome, open_connection, introspect, close_connection,
}
use querylynx.Executor.Connections.{remove-missing}
use querylynx.Executor.Effects.{
  Puts, open_connection-Puts, introspect-service, introspect-Reads, Reads, close_connection-service,
}
use querylynx.Client.{Remote, error_text, result_text, direct_client}
use querylynx.Session.{
  Registry, RegisterParams, Outside, new_session, Registered, introspected, opened_connection,
  with_provider, new_connection_id, register,
}

-- A random number leaves the executor's service alone.
unfoldable pub outside :
    {W : Type 0}
    → Backend W
    → (ServiceError → Text)
    → (Settings → Provider (Remote W))
    → (ℕ → W → List ℕ × W)
    → Text
    → Outside (Remote W)
outside postgres message connect random json_error = record {
  connect = connect;
  random_bytes = λ n at.
      let (bytes, w) = random n at.world in (bytes, record { service = at.service; world = w });
  json_error = json_error;
  exec = direct_client postgres message;
}

remove-put :
    (id : Text) (c : Ref) (conns : Dict Ref)
    → get id conns ≡ none
    → remove id (put id c conns) ≡ conns
unfolding remove put
remove-put id c conns e =
    rw (text_eq_refl id) (rw (remove-missing id conns e) (remove-missing id conns e))

error_text-service :
    {W : Type 0} (message : ServiceError → Text) (o : Outcome W Unit)
    → (error_text message o).1.service ≡ o.1
unfolding error_text
error_text-service message (ok u, s, w) = refl
error_text-service message (err e, s, w) = refl

result_text-service :
    {W A : Type 0} (message : ServiceError → Text) (o : Outcome W A)
    → (result_text message o).1.service ≡ o.1
unfolding result_text
result_text-service message (ok u, s, w) = refl
result_text-service message (err e, s, w) = refl

-- What a registration leaves: a failed one nothing, and a good one its session, under an id that both
-- the registry and the executor know, with the schema that the new connector's introspection returned.
abbrev pub Leaves :
    {W : Type 0}
    → Backend W
    → Context
    → Text
    → Text
    → Registry (Remote W)
    → Service
    → Registered (Remote W)
    → Type 0
Leaves postgres ctx id dialect r s (err e, r', at) = (r' ≡ r) × (at.service.conns ≡ s.conns)
Leaves {W = W} postgres ctx id dialect r s (ok session, r', at) =
    (get id r'.sessions ≡ some session)
    × (session.connection_id ≡ id)
    × (session.pipeline.connection_id ≡ id)
    × (session.dialect ≡ dialect)
    × (session.pipeline.dialect ≡ dialect)
    × (session.pipeline.schema ≡ session.schema)
    × ((c : Ref) × (w : W) × (at.service.conns ≡ put id c s.conns)
        × (postgres.introspect ctx c w ≡ (ok session.schema, at.world)))

module _ {W : Type 0} (postgres : Backend W) (message : ServiceError → Text)
    (connect : Settings → Provider (Remote W)) (random : ℕ → W → List ℕ × W)
    (json_error : Text) where
  abbrev out : Outside (Remote W)
  out = outside postgres message connect random json_error

  -- A schema that the client returns is the connector's.
  abbrev Returns : Context → Ref → W → Result Text Schema × Remote W → Type 0
  Returns ctx c w (err e, at) = Unit
  Returns ctx c w (ok schema, at) = postgres.introspect ctx c w ≡ (ok schema, at.world)

  result_text-Returns :
      (ctx : Context) (c : Ref) (w : W) (o : Outcome W Schema)
      → Reads postgres ctx c w o
      → Returns ctx c w (result_text message o)
  unfolding result_text
  result_text-Returns ctx c w (err e, s, w') h = tt
  result_text-Returns ctx c w (ok schema, s, w') h = h

  introspected-Leaves :
      (ctx : Context) (r : Registry (Remote W)) (id dialect : Text) (provider : Provider (Remote W))
      (s : Service) (c : Ref) (w : W) (res : Result Text Schema × Remote W)
      → get id s.conns ≡ none
      → res.1.service.conns ≡ put id c s.conns
      → Returns ctx c w res
      → Leaves postgres ctx id dialect r s (introspected out ctx r id dialect provider res)
  unfolding introspected outside direct_client new_session
  introspected-Leaves ctx r id dialect provider s c w (err e, at) fresh put_there reads = (
    refl,
    ap (λ x. x.conns)
          (error_text-service message (close_connection postgres at.service at.world id)
            ∙ close_connection-service postgres at.service at.world id)
        ∙ ap (remove id) put_there
        ∙ remove-put id c s.conns fresh,
  )
  introspected-Leaves ctx r id dialect provider s c w (ok schema, at) fresh put_there reads =
      (get-put_self id _ r.sessions, refl, refl, refl, refl, refl, (c, w, put_there, reads))

  opened_connection-Leaves :
      (ctx : Context) (r : Registry (Remote W)) (id dialect : Text) (provider : Provider (Remote W))
      (s : Service) (o : Outcome W Unit)
      → get id s.conns ≡ none
      → Puts id s o
      → Leaves postgres ctx id dialect r s
          (opened_connection out ctx r id dialect provider (error_text message o))
  unfolding opened_connection error_text outside direct_client
  opened_connection-Leaves ctx r id dialect provider s (err e, s', w) fresh same =
      (refl, ap (λ x. x.conns) same)
  opened_connection-Leaves ctx r id dialect provider s (ok u, s', w) fresh (c, same) =
      let there : s'.conns ≡ put id c s.conns = ap (λ x. x.conns) same in
      let found : get id s'.conns ≡ some c = ap (get id) there ∙ get-put_self id c s.conns in
      introspected-Leaves ctx r id dialect provider s c w _ fresh
        (ap (λ x. x.conns)
            (result_text-service message (introspect postgres ctx s' w id)
              ∙ introspect-service postgres ctx s' w id)
          ∙ there)
        (result_text-Returns ctx c w (introspect postgres ctx s' w id)
          (introspect-Reads postgres ctx s' w id c found))

  with_provider-Leaves :
      (ctx : Context) (r : Registry (Remote W)) (p : RegisterParams) (s : Service) (w : W)
      (settings : Result ProviderError Settings)
      → get (codes "conn_" ++ hex (random 8 w).0) s.conns ≡ none
      → Leaves postgres ctx
          (codes "conn_" ++ hex (random 8 w).0)
          p.dialect
          r
          s
          (with_provider out ctx r p (record { service = s; world = w }) settings)
  unfolding with_provider new_connection_id outside direct_client
  with_provider-Leaves ctx r p s w (err e) fresh = (refl, refl)
  with_provider-Leaves ctx r p s w (ok settings) fresh =
      let id = codes "conn_" ++ hex (random 8 w).0 in
      opened_connection-Leaves ctx r id p.dialect (connect settings) s
        (open_connection postgres ctx s (random 8 w).1 id p.dialect p.dsn) fresh
        (open_connection-Puts postgres ctx s (random 8 w).1 id p.dialect p.dsn)

  -- Let the random id be new to the executor, and the transport lose no result. If `Register` fails, at
  -- any step, then the registry is as before and so is the executor's map of connections. If it returns
  -- a session, then the registry finds it under the id, the executor has one connection more, under this
  -- id, and the session and its pipeline carry the id, the dialect that was asked for and the schema
  -- that the introspection of this new connection, the last that touched the world, returned.
  pub register-Leaves :
      (ctx : Context) (r : Registry (Remote W)) (p : RegisterParams) (s : Service) (w : W)
      → get (codes "conn_" ++ hex (random 8 w).0) s.conns ≡ none
      → Leaves postgres ctx
          (codes "conn_" ++ hex (random 8 w).0)
          p.dialect
          r
          s
          (register out ctx r p (record { service = s; world = w }))
  unfolding register
  register-Leaves ctx r p s w fresh = with_provider-Leaves ctx r p s w _ fresh
