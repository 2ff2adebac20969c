-- ===== src/Postgres/Session/Keeps.antt =====
-- What every call of the driver keeps, an execution keeps.
use querylynx.Base.{Option, none, some}
use querylynx.Strings.{Text}
use querylynx.Context.{Context, background}
use querylynx.Postgres.Session.{
  Access, read_only, Driver, set_timeout, rolled_back, with_timeout_set, begun, execute,
}

pub record DriverKeeps {W : Type 0} (driver : Driver W) (P : W → Type 0) : Type 0 where
  pub begin_keeps :
      (ctx : Context) (access : Access) (w : W) → P w → P (driver.begin_tx ctx access w).1
  pub exec_keeps : (ctx : Context) (q : Text) (w : W) → P w → P (driver.exec ctx q w).1
  pub query_keeps : (ctx : Context) (q : Text) (w : W) → P w → P (driver.query ctx q w).1
  pub rollback_keeps : (ctx : Context) (w : W) → P w → P (driver.rollback ctx w)

module _ {W : Type 0} {driver : Driver W} {P : W → Type 0} (keeps : DriverKeeps driver P) where
  with_timeout_set-keeps :
      (ctx : Context) (q : Text) (r : Option Text × W)
      → P r.1
      → P (with_timeout_set driver ctx q r).1
  unfolding with_timeout_set rolled_back
  with_timeout_set-keeps ctx q (some e, w) h = keeps.rollback_keeps background w h
  with_timeout_set-keeps ctx q (none, w) h =
      keeps.rollback_keeps background _ (keeps.query_keeps ctx q w h)

  begun-keeps :
      (ctx : Context) (q : Text) (r : Option Text × W) → P r.1 → P (begun driver ctx q r).1
  unfolding begun
  begun-keeps ctx q (some e, w) h = h
  begun-keeps ctx q (none, w) h =
      with_timeout_set-keeps ctx q _ (keeps.exec_keeps ctx set_timeout w h)

  pub execute-keeps : (ctx : Context) (w : W) (q : Text) → P w → P (execute driver ctx w q).1
  unfolding execute
  execute-keeps ctx w q h = begun-keeps ctx q _ (keeps.begin_keeps ctx read_only w h)
