-- ===== src/Executor/Leaks.antt =====
-- The connections that are open in the world, and the service's map of them.
use querylynx.Base.{
  Bool, false, not, ◌&&◌, ◌||◌, Option, none, some, List, [], ◌∷◌, ◌≡◌, refl, sym, ◌∙◌, arith, ◌==◌,
  Bool-cases, inl, inr, Result, ok, err, is_nil,
}
use querylynx.Strings.{Text, text_eq, codes}
use querylynx.Strings.Equal.{text_eq_refl}
use querylynx.Context.{Context}
use querylynx.Dict.{get, put, get-remove}
use querylynx.Connector.{Ref, Config, Backend, DialectError, new_connector, opened}
use querylynx.Executor.{
  Service, new_service, left, from_connector, close_old, register_connection, open_connection,
  introspect_found, introspect, execute_validated, execute_found, validate_and_execute, closed,
  close_found, close_connection, Call, open_call, introspect_call, execute_call, close_call, serve,
  serve_all,
}
use querylynx.Executor.Connections.{
  holds, IsOneToOne, get-holds, remove-missing, IsOneToOne-remove, holds-remove,
}

-- Which connections the backend has open in a world, and what its operations do to them: a new one is
-- none of those that are open, a failed one leaves nothing open, and only `close` closes.
pub record Pools {W : Type 0} (postgres : Backend W) : Type 0 where
  pub is_open : W → Ref → Bool
  pub new_ok :
      (ctx : Context) (w : W) (cfg : Config) (c : Ref)
      → (postgres.new ctx w cfg).0 ≡ ok c
      → (is_open w c ≡ false)
        × ((r : Ref) → is_open (postgres.new ctx w cfg).1 r ≡ (c == r || is_open w r))
  pub new_err :
      (ctx : Context) (w : W) (cfg : Config) (e : Text)
      → (postgres.new ctx w cfg).0 ≡ err e
      → (r : Ref) → is_open (postgres.new ctx w cfg).1 r ≡ is_open w r
  pub introspect_same :
      (ctx : Context) (c : Ref) (w : W) (r : Ref)
      → is_open (postgres.introspect ctx c w).1 r ≡ is_open w r
  pub validate_same :
      (ctx : Context) (c : Ref) (w : W) (q : Text) (r : Ref)
      → is_open (postgres.validate ctx c w q).1 r ≡ is_open w r
  pub execute_same :
      (ctx : Context) (c : Ref) (w : W) (q : Text) (r : Ref)
      → is_open (postgres.execute ctx c w q).1 r ≡ is_open w r
  pub close_closes :
      (c : Ref) (w : W) (r : Ref) → is_open (postgres.close c w).1 r ≡ (is_open w r && not (c == r))

module _ {W : Type 0} {postgres : Backend W} (pools : Pools postgres) where
  -- Exactly the connectors of the map are open, and none stands there twice.
  abbrev pub IsTight : Service × W → Type 0
  IsTight (s, w) = IsOneToOne s.conns × ((r : Ref) → pools.is_open w r ≡ holds s.conns r)

  -- A world in which the same is open.
  same-IsTight :
      (s : Service) (w w' : W)
      → ((r : Ref) → pools.is_open w' r ≡ pools.is_open w r)
      → IsTight (s, w)
      → IsTight (s, w')
  same-IsTight s w w' same (once, tight) = (once, λ r. same r ∙ tight r)

  -- A connector that is open besides those of the map is taken into it.
  register_connection-IsTight :
      (s : Service) (id : Text) (c : Ref) (w : W) (old : Option Ref)
      → get id s.conns ≡ old
      → IsOneToOne s.conns
      → holds s.conns c ≡ false
      → ((r : Ref) → pools.is_open w r ≡ (c == r || holds s.conns r))
      → IsTight (record { conns = put id c s.conns }, close_old postgres old w)
  unfolding close_old put holds
  register_connection-IsTight s id c w none e once fresh now = (
    (
      get-remove id id s.conns ∙ rw (text_eq_refl id),
      rw (remove-missing id s.conns e) fresh,
      IsOneToOne-remove id s.conns once,
    ),
    λ r. now r ∙ rw (remove-missing id s.conns e),
  )
  register_connection-IsTight s id c w (some old) e once fresh now =
      let gone = holds-remove id s.conns old in
      let there = get-holds id s.conns old e in
      (
        (
          get-remove id id s.conns ∙ rw (text_eq_refl id),
          gone c once e ∙ ground arith,
          IsOneToOne-remove id s.conns once,
        ),
        λ r. pools.close_closes old w r ∙ rw (now r, gone r once e) (ground arith),
      )

  -- What the registry's `New` does to the open connections.
  abbrev pub Opens : W → Result DialectError Ref × W → Type 0
  Opens w (ok c, w') =
      (pools.is_open w c ≡ false) × ((r : Ref) → pools.is_open w' r ≡ (c == r || pools.is_open w r))
  Opens w (err e, w') = (r : Ref) → pools.is_open w' r ≡ pools.is_open w r

  opened-Opens :
      (w : W) (new : Result Text Ref × W)
      → ((c : Ref) → new.0 ≡ ok c → Opens w (ok c, new.1))
      → ((e : Text) → new.0 ≡ err e → (r : Ref) → pools.is_open new.1 r ≡ pools.is_open w r)
      → Opens w (opened new)
  unfolding opened
  opened-Opens w (ok c, w') good bad = good c refl
  opened-Opens w (err e, w') good bad = bad e refl

  pub new_connector-Opens :
      (ctx : Context) (w : W) (dialect : Text) (cfg : Config)
      → Opens w (new_connector postgres ctx w dialect cfg)
  unfolding new_connector
  new_connector-Opens ctx w dialect cfg =
      elim (Bool-cases
        (text_eq dialect (codes "postgres") || text_eq dialect (codes "postgresql"))) [
          | inl e ↦ rw e (opened-Opens w _ (pools.new_ok ctx w cfg) (pools.new_err ctx w cfg))
          | inr e ↦
              rw e
                (elim (Bool-cases
                  (text_eq dialect (codes "mysql") || text_eq dialect (codes "mariadb"))) [
                    | inl e' ↦ rw e' (λ r. refl)
                    | inr e' ↦ rw e' (elim (Bool-cases (text_eq dialect (codes "mongodb"))) [
                      | inl e'' ↦ rw e'' (λ r. refl)
                      | inr e'' ↦ rw e'' (λ r. refl)
                    ])
                  ])
        ]

  open_connection-IsTight :
      (s : Service) (w : W) (id : Text) (new : Result DialectError Ref × W)
      → Opens w new
      → IsTight (s, w)
      → IsTight (left (register_connection postgres s id new))
  unfolding register_connection
  open_connection-IsTight s w id (err e, w') same tight = same-IsTight s w w' same tight
  open_connection-IsTight s w id (ok c, w') (fresh, now) (once, tight) =
      register_connection-IsTight s id c w' (get id s.conns) refl once (sym (tight c) ∙ fresh)
        (λ r. now r ∙ rw (tight r))

  from_connector-IsTight :
      {A : Type 0} (s : Service) (r : Result Text A × W)
      → IsTight (s, r.1)
      → IsTight (left (from_connector s r))
  unfolding from_connector
  from_connector-IsTight s (ok a, w) tight = tight
  from_connector-IsTight s (err e, w) tight = tight

  introspect_found-IsTight :
      (ctx : Context) (s : Service) (w : W) (id : Text) (found : Option Ref)
      → IsTight (s, w)
      → IsTight (left (introspect_found postgres ctx s w id found))
  unfolding introspect_found
  introspect_found-IsTight ctx s w id none tight = tight
  introspect_found-IsTight ctx s w id (some c) tight =
      from_connector-IsTight s _ (same-IsTight s w _ (pools.introspect_same ctx c w) tight)

  execute_validated-IsTight :
      (ctx : Context) (s : Service) (c : Ref) (safe : Result Text Text × W)
      → IsTight (s, safe.1)
      → IsTight (left (execute_validated postgres ctx s c safe))
  unfolding execute_validated
  execute_validated-IsTight ctx s c (err e, w) tight = tight
  execute_validated-IsTight ctx s c (ok q, w) tight =
      from_connector-IsTight s _ (same-IsTight s w _ (pools.execute_same ctx c w q) tight)

  execute_found-IsTight :
      (ctx : Context) (s : Service) (w : W) (id query : Text) (found : Option Ref)
      → IsTight (s, w)
      → IsTight (left (execute_found postgres ctx s w id query found))
  unfolding execute_found
  execute_found-IsTight ctx s w id query none tight = tight
  execute_found-IsTight ctx s w id query (some c) tight =
      execute_validated-IsTight ctx s c (postgres.validate ctx c w query)
        (same-IsTight s w _ (pools.validate_same ctx c w query) tight)

  closed-IsTight :
      (s : Service) (r : Option Text × W) → IsTight (s, r.1) → IsTight (left (closed r s))
  unfolding closed
  closed-IsTight s (none, w) tight = tight
  closed-IsTight s (some e, w) tight = tight

  close_found-IsTight :
      (s : Service) (w : W) (id : Text) (found : Option Ref)
      → get id s.conns ≡ found
      → IsTight (s, w)
      → IsTight (left (close_found postgres s w id found))
  unfolding close_found
  close_found-IsTight s w id none e tight = tight
  close_found-IsTight s w id (some c) e (once, tight) = closed-IsTight _ (postgres.close c w) (
    IsOneToOne-remove id s.conns once,
    λ r. pools.close_closes c w r ∙ rw (holds-remove id s.conns c r once e, tight r),
  )

  serve-IsTight :
      (call : Call) (s : Service) (w : W) → IsTight (s, w) → IsTight (serve postgres call (s, w))
  unfolding serve open_connection introspect validate_and_execute close_connection
  serve-IsTight (open_call ctx id dialect dsn) s w tight = elim (Bool-cases (is_nil id)) [
    | inl e ↦ rw e tight
    | inr e ↦ rw e (open_connection-IsTight s w id _ (new_connector-Opens ctx w dialect _) tight)
  ]
  serve-IsTight (introspect_call ctx id) s w tight = introspect_found-IsTight ctx s w id _ tight
  serve-IsTight (execute_call ctx id query) s w tight =
      execute_found-IsTight ctx s w id query _ tight
  serve-IsTight (close_call id) s w tight = close_found-IsTight s w id _ refl tight

  serve_all_from-IsTight :
      (calls : List Call) (s : Service) (w : W)
      → IsTight (s, w)
      → IsTight (serve_all postgres calls (s, w))
  unfolding serve_all
  serve_all_from-IsTight [] s w tight = tight
  serve_all_from-IsTight (c ∷ calls) s w tight =
      serve_all_from-IsTight calls _ _ (serve-IsTight c s w tight)

-- Let the backend open, close and keep its connections as `Pools` says, and let none be open in `w`.
-- Whatever calls the executor serves from there, and whichever of them fail, exactly the connectors in
-- its map are open afterwards, each stands there under one id, and each id stands there once.
pub serve_all-IsTight :
    {W : Type 0} {postgres : Backend W} (pools : Pools postgres) (w : W) (calls : List Call)
    → ((r : Ref) → pools.is_open w r ≡ false)
    → IsTight pools (serve_all postgres calls (new_service, w))
unfolding new_service holds
serve_all-IsTight pools w calls empty = serve_all_from-IsTight pools calls new_service w (tt, empty)
