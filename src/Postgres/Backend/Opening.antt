-- ===== src/Postgres/Backend/Opening.antt =====
-- What `New` of internal/connector/postgres/postgres.go makes.
use querylynx.Base.{
  ℕ, zero, suc, false, Option, none, some, ◌∷◌, ◌≡◌, refl, arith, Bool-cases, inl, inr, Result, ok,
  err, is_nil,
}
use querylynx.Base.Int.{ℤ, pos, negsuc, is_not_positive}
use querylynx.Strings.{Text}
use querylynx.Context.{Context}
use querylynx.Safety.{Violation}
use querylynx.Connector.{Ref}
use querylynx.Postgres.{Config, with_defaults}
use querylynx.Postgres.Backend.{PoolDriver, Heap, pinged, pool_opened, new}

-- The row cap in force: a given one that is positive, else a thousand rows.
abbrev pub cap_in_force : ℤ → ℤ
cap_in_force (pos zero) = pos 1000
cap_in_force (pos (suc n)) = pos (suc n)
cap_in_force (negsuc n) = pos 1000

-- The configuration that is kept of a given one.
abbrev pub IsKept : Config → Config → Type 0
IsKept given kept = (kept.dsn ≡ given.dsn) × (kept.row_cap ≡ cap_in_force given.row_cap)

suc-positive : (n : ℕ) → is_not_positive (pos (suc n)) ≡ false
suc-positive n = ground arith

with_defaults-IsKept :
    (dsn : Text) (cap : ℤ)
    → IsKept
        (record { dsn = dsn; row_cap = cap })
        (with_defaults (record { dsn = dsn; row_cap = cap }))
unfolding with_defaults
with_defaults-IsKept dsn (pos zero) = (refl, refl)
with_defaults-IsKept dsn (pos (suc n)) = rw suc-positive (refl, refl)
with_defaults-IsKept dsn (negsuc n) = (refl, refl)

module _ {V : Type 0} (driver : PoolDriver V) (message : Violation → Text) (ctx : Context) where
  abbrev pub IsNew : Heap V → Config → Result Text Ref × Heap V → Type 0
  IsNew h cfg (err e, h') = h'.configs ≡ h.configs
  IsNew h cfg (ok c, h') =
      (is_nil cfg.dsn ≡ false)
      × ((driver.open_pool ctx cfg.dsn h.pools).0 ≡ ok c)
      × ((driver.ping ctx c (driver.open_pool ctx cfg.dsn h.pools).1).0 ≡ none)
      × ((kept : Config) × (h'.configs ≡ (c, kept) ∷ h.configs) × IsKept cfg kept)

  pinged-IsNew :
      (h : Heap V) (cfg : Config) (c : ℕ) (r : Option Text × V)
      → is_nil cfg.dsn ≡ false
      → (driver.open_pool ctx cfg.dsn h.pools).0 ≡ ok c
      → (driver.ping ctx c (driver.open_pool ctx cfg.dsn h.pools).1).0 ≡ r.0
      → IsNew h cfg (pinged driver message h.configs (with_defaults cfg) c r)
  unfolding pinged
  pinged-IsNew h cfg c (some e, v) d o p = refl
  pinged-IsNew h cfg c (none, v) d o p =
      (d, o, p, (with_defaults cfg, refl, with_defaults-IsKept cfg.dsn cfg.row_cap))

  pool_opened-IsNew :
      (h : Heap V) (cfg : Config) (r : Result Text ℕ × V)
      → is_nil cfg.dsn ≡ false
      → driver.open_pool ctx cfg.dsn h.pools ≡ r
      → IsNew h cfg (pool_opened driver message ctx h.configs (with_defaults cfg) r)
  unfolding pool_opened
  pool_opened-IsNew h cfg (err e, v) d o = refl
  pool_opened-IsNew h cfg (ok c, v) d o =
      pinged-IsNew h cfg c (driver.ping ctx c v) d (rw o refl) (rw o refl)

  -- If New returns a connector, the DSN is not empty, the driver opened a pool for it which answered to
  -- Ping, and one configuration more is kept, the connector's: its DSN is the given one, and its row cap
  -- the given one if that is positive, else a thousand. If it fails, no configuration is kept.
  pub new-IsNew : (h : Heap V) (cfg : Config) → IsNew h cfg (new driver message ctx h cfg)
  unfolding new
  new-IsNew h cfg = elim (Bool-cases (is_nil cfg.dsn)) [
    | inl e ↦ rw e refl
    | inr e ↦ rw e (pool_opened-IsNew h cfg (driver.open_pool ctx cfg.dsn h.pools) e refl)
  ]
