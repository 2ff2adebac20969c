-- ===== src/Executor/Pools.antt =====
-- The service over the connectors of internal/connector/postgres/postgres.go: the driver's pools that are
-- open, and the service's map of connections.
use querylynx.Base.{
  ℕ, Bool, true, false, subst, not, ◌&&◌, ◌||◌, Option, none, some, List, [], ◌≡◌, refl, sym, ◌∙◌,
  arith, ◌==◌, Bool-cases, inl, inr, Result, ok, err, is_nil,
}
use querylynx.Strings.{Text}
use querylynx.Context.{Context}
use querylynx.Safety.{Violation}
use querylynx.Connector.{Ref}
use querylynx.Postgres.{Config, with_defaults}
use querylynx.Postgres.Session.Keeps.{DriverKeeps, execute-keeps}
use querylynx.Postgres.Introspection.Keeps.{CatalogKeeps, introspect-keeps}
use querylynx.Postgres.Backend.{PoolDriver, Heap, from_common, pinged, pool_opened, new, backend}
use querylynx.Executor.{new_service, Call, serve_all}
use querylynx.Executor.Leaks.{Pools, IsTight, serve_all-IsTight}

and_kept : (b : Bool) → (b && true) ≡ b
and_kept b = ground arith

ok_same : (c' c : Ref) → ◌≡◌ {A = Result Text Ref} (ok c') (ok c) → c' ≡ c
ok_same c' c e = ground arith

-- The world in which the same pools are open as in `v`.
abbrev Same : {V : Type 0} → (V → ℕ → Bool) → V → V → Type 0
Same live v v' = (p : ℕ) → live v' p ≡ live v p

-- Which pools of the driver are open, and what its operations do to them: opening gives one that is not
-- open, closing closes one, and no other operation opens or closes any.
pub record PoolLaws {V : Type 0} (driver : PoolDriver V) : Type 0 where
  pub live : V → ℕ → Bool
  pub open_ok :
      (ctx : Context) (dsn : Text) (v : V) (p : ℕ)
      → (driver.open_pool ctx dsn v).0 ≡ ok p
      → (live v p ≡ false)
        × ((r : ℕ) → live (driver.open_pool ctx dsn v).1 r ≡ (p == r || live v r))
  pub open_err :
      (ctx : Context) (dsn : Text) (v : V) (e : Text)
      → (driver.open_pool ctx dsn v).0 ≡ err e
      → Same live v (driver.open_pool ctx dsn v).1
  pub ping_same : (ctx : Context) (p : ℕ) (v : V) → Same live v (driver.ping ctx p v).1
  pub close_closes :
      (p : ℕ) (v : V) (r : ℕ) → live (driver.close_pool p v) r ≡ (live v r && not (p == r))
  pub session_keeps : (p : ℕ) (v : V) → DriverKeeps (driver.session p) (Same live v)
  pub catalog_keeps : (p : ℕ) (v : V) → CatalogKeeps (driver.catalog p) (Same live v)

module _ {V : Type 0} {driver : PoolDriver V} (laws : PoolLaws driver)
    (message : Violation → Text) where
  -- What `New` does to the open pools.
  abbrev Opened : V → Result Text Ref × Heap V → Type 0
  Opened v (ok c, h) =
      (laws.live v c ≡ false) × ((r : ℕ) → laws.live h.pools r ≡ (c == r || laws.live v r))
  Opened v (err e, h) = Same laws.live v h.pools

  pinged-Opened :
      (v v' : V) (configs : List (ℕ × Config)) (cfg : Config) (p : ℕ) (r : Option Text × V)
      → laws.live v p ≡ false
      → ((q : ℕ) → laws.live v' q ≡ (p == q || laws.live v q))
      → Same laws.live v' r.1
      → Opened v (pinged driver message configs cfg p r)
  unfolding pinged
  pinged-Opened v v' configs cfg p (some e, w) fresh now same =
      λ q. laws.close_closes p w q ∙ rw (same q, now q) (closed_again q)
    where
      equal : (q : ℕ) → (p == q) ≡ true → p ≡ q
      equal q h = ground arith

      closed_again : (q : ℕ) → ((p == q || laws.live v q) && not (p == q)) ≡ laws.live v q
      closed_again q = elim (Bool-cases (p == q)) [
        | inl e' ↦ rw e' (sym (subst (λ x. laws.live v x ≡ false) (equal q e') fresh))
        | inr e' ↦ rw e' (and_kept (laws.live v q))
      ]
  pinged-Opened v v' configs cfg p (none, w) fresh now same = (fresh, λ q. same q ∙ now q)

  pool_opened-Opened :
      (ctx : Context) (v : V) (configs : List (ℕ × Config)) (cfg : Config) (r : Result Text ℕ × V)
      → ((p : ℕ)
          → r.0 ≡ ok p
          → (laws.live v p ≡ false) × ((q : ℕ) → laws.live r.1 q ≡ (p == q || laws.live v q)))
      → ((e : Text) → r.0 ≡ err e → Same laws.live v r.1)
      → Opened v (pool_opened driver message ctx configs cfg r)
  unfolding pool_opened
  pool_opened-Opened ctx v configs cfg (err e, w) good bad = bad e refl
  pool_opened-Opened ctx v configs cfg (ok p, w) good bad =
      let (fresh, now) = good p refl in
      pinged-Opened v w configs cfg p (driver.ping ctx p w) fresh now (laws.ping_same ctx p w)

  new-Opened :
      (ctx : Context) (h : Heap V) (cfg : Config) → Opened h.pools (new driver message ctx h cfg)
  unfolding new
  new-Opened ctx h cfg = elim (Bool-cases (is_nil cfg.dsn)) [
    | inl e ↦ rw e (λ r. refl)
    | inr e ↦ rw e (
        pool_opened-Opened ctx h.pools h.configs (with_defaults cfg)
          (driver.open_pool ctx cfg.dsn h.pools) (laws.open_ok ctx cfg.dsn h.pools)
          (laws.open_err ctx cfg.dsn h.pools))
  ]

  Opened-ok :
      (v : V) (r : Result Text Ref × Heap V) (c : Ref)
      → Opened v r
      → r.0 ≡ ok c
      → (laws.live v c ≡ false) × ((q : ℕ) → laws.live r.1.pools q ≡ (c == q || laws.live v q))
  Opened-ok v (ok c', h) c o e =
      subst
        (λ x. (laws.live v x ≡ false) × ((q : ℕ) → laws.live h.pools q ≡ (x == q || laws.live v q)))
        (ok_same c' c e) o
  Opened-ok v (err e', h) c o e = absurd (ground arith)

  Opened-err :
      (v : V) (r : Result Text Ref × Heap V) (e : Text)
      → Opened v r
      → r.0 ≡ err e
      → Same laws.live v r.1.pools
  Opened-err v (ok c, h) e o f = absurd (ground arith)
  Opened-err v (err e', h) e o f = o

  -- The backend's connectors are open exactly while their pools are.
  pub backend_pools : Pools (backend driver message)
  unfolding backend
  backend_pools = record {
    is_open = λ h r. laws.live h.pools r;
    new_ok = λ ctx h cfg c e.
        Opened-ok h.pools (new driver message ctx h (from_common cfg)) c
          (new-Opened ctx h (from_common cfg)) e;
    new_err = λ ctx h cfg e' e.
        Opened-err h.pools (new driver message ctx h (from_common cfg)) e'
          (new-Opened ctx h (from_common cfg)) e;
    introspect_same =
        λ ctx c h. introspect-keeps (laws.catalog_keeps c h.pools) ctx h.pools (λ r. refl);
    validate_same = λ ctx c h q r. refl;
    execute_same =
        λ ctx c h q. execute-keeps (laws.session_keeps c h.pools) ctx h.pools q (λ r. refl);
    close_closes = λ c h r. laws.close_closes c h.pools r;
  }

  -- Let the driver open and close its pools as PoolLaws says, and let none be open at first. Whatever
  -- calls the executor serves over the Postgres backend, and whichever of them fail, the pools that are
  -- open afterwards are exactly those of the connectors in its map, each of which stands there once. A
  -- failed Ping, a second connection under an id and a closed connection leave no pool behind.
  pub serve_all-pools :
      (v : V) (calls : List Call)
      → ((p : ℕ) → laws.live v p ≡ false)
      → IsTight backend_pools (
          serve_all
            (backend driver message)
            calls
            (new_service, record { configs = []; pools = v }))
  unfolding backend_pools
  serve_all-pools v calls none_open =
      serve_all-IsTight backend_pools (record { configs = []; pools = v }) calls none_open
