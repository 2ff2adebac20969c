-- ===== src/Executor/Interleaving.antt =====
-- internal/executor/service.go: calls that run at the same time. Only the critical sections under the
-- mutex are atomic. OpenConnection makes its connector before it takes the mutex, and a query looks its
-- connector up under the mutex and uses it afterwards.
pub mod Leaks
pub mod Serve
use querylynx.Base.{ℕ, false, Option, none, some, List, [], ◌∷◌, ◌≡◌, is_nil, Result, ok, err}
use querylynx.Base.Int.{pos}
use querylynx.Strings.{Text}
use querylynx.Context.{Context}
use querylynx.Dict.{get, put}
use querylynx.Connector.{Ref, Backend, DialectError, new_connector}
use querylynx.Executor.{Service, register_connection, close_connection}

-- The service, the world, the connectors that were made for an id and are not registered yet, and those
-- that were looked up and may still be used.
pub record Calls (W : Type 0) : Type 0 where
  pub service : Service
  pub world : W
  pub opening : List (Text × Ref)
  pub in_use : List Ref

-- One element taken out of a list, and the others in their order.
pub data Take {A : Type 0} : A → List A → List A → Type 0 where
  here : {x : A} {xs : List A} → Take x (x ∷ xs) xs
  there : {x y : A} {xs ys : List A} → Take x xs ys → Take x (y ∷ xs) (y ∷ ys)

abbrev pub idle : {W : Type 0} → Service → W → Calls W
idle s w = record { service = s; world = w; opening = []; in_use = [] }

module _ {W : Type 0} (postgres : Backend W) where
  -- The step of one of the calls that are running.
  pub data Step : Calls W → Calls W → Type 0 where
    -- OpenConnection, up to the mutex.
    make_connector :
        {f : Calls W} (id : Text) (c : Ref) (w : W) (ctx : Context) (dialect dsn : Text)
        → is_nil id ≡ false
        → new_connector postgres ctx f.world dialect (record { dsn = dsn; row_cap = pos 0 })
          ≡ (ok c, w)
        → Step f (record f { world = w; opening = (id, c) ∷ f.opening })
    fail_connector :
        {f : Calls W} (e : DialectError) (w : W) (ctx : Context) (dialect dsn : Text)
        → new_connector postgres ctx f.world dialect (record { dsn = dsn; row_cap = pos 0 })
          ≡ (err e, w)
        → Step f (record f { world = w })
    -- Under the mutex: any of the connectors that wait.
    register :
        {f : Calls W} (id : Text) (c : Ref) (rest : List (Text × Ref))
        → Take (id, c) f.opening rest
        → Step f (record f {
          service = (register_connection postgres f.service id (ok c, f.world)).1;
          world = (register_connection postgres f.service id (ok c, f.world)).2;
          opening = rest;
        })
    close :
        {f : Calls W} (id : Text)
        → Step f (record f {
          service = (close_connection postgres f.service f.world id).1;
          world = (close_connection postgres f.service f.world id).2;
        })
    look_up :
        {f : Calls W} (id : Text) (c : Ref)
        → get id f.service.conns ≡ some c
        → Step f (record f { in_use = c ∷ f.in_use })
    -- A connector that was looked up, whether or not it was closed since.
    introspect :
        {f : Calls W} (c : Ref) (rest : List Ref) (ctx : Context)
        → Take c f.in_use rest
        → Step f (record f { world = (postgres.introspect ctx c f.world).1; in_use = rest })
    validate :
        {f : Calls W} (c : Ref) (rest : List Ref) (ctx : Context) (query : Text)
        → Take c f.in_use rest
        → Step f (record f { world = (postgres.validate ctx c f.world query).1 })
    execute :
        {f : Calls W} (c : Ref) (rest : List Ref) (ctx : Context) (safe : Text)
        → Take c f.in_use rest
        → Step f (record f { world = (postgres.execute ctx c f.world safe).1; in_use = rest })
    -- A query that was refused is not executed.
    give_up :
        {f : Calls W} (c : Ref) (rest : List Ref)
        → Take c f.in_use rest
        → Step f (record f { in_use = rest })

  pub data Runs : Calls W → Calls W → Type 0 where
    stay : {f : Calls W} → Runs f f
    then : {f g h : Calls W} → Step f g → Runs g h → Runs f h
