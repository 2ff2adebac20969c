-- ===== src/Tests/Whole.antt =====
-- The executor over the Postgres backend, with a driver that counts its pools.
use querylynx.Base.{
  ℕ, suc, Bool, false, not, ◌&&◌, ◌||◌, ◌==◌, ltb, none, List, [], ◌∷◌, ◌≡◌, refl, arith, ok,
}
use querylynx.Base.Int.{pos}
use querylynx.Strings.{Text, codes}
use querylynx.Context.{background}
use querylynx.Connector.{Rows, shown}
use querylynx.Safety.{Violation}
use querylynx.Postgres.{Config}
use querylynx.Postgres.Session.{Driver, other}
use querylynx.Postgres.Catalog.{Catalog}
use querylynx.Postgres.Backend.{PoolDriver, Heap, new, backend}
use querylynx.Postgres.Backend.Opening.{IsNew, new-IsNew}
use querylynx.Executor.{Service, new_service, Call, open_call, close_call, serve_all}
use querylynx.Executor.Leaks.{IsTight}
use querylynx.Executor.Pools.{PoolLaws, backend_pools, serve_all-pools}
use querylynx.Executor.Whole.{IsSafeRun, validate_and_execute-IsSafeRun}
use querylynx.Tests.Running.{run_whole}

-- How many pools were opened, and which of them are open.
pub record Counted : Type 0 where
  pub next : ℕ
  pub live : ℕ → Bool

abbrev one_value : Driver Counted
one_value = record {
  begin_tx = λ ctx access v. (none, v);
  exec = λ ctx q v. (none, v);
  query = λ ctx q v. (
    ok (record { columns = codes "n" ∷ []; rows = ok (other (codes "1") ∷ []) ∷ []; ended = none }),
    v,
  );
  rollback = λ ctx v. v;
}

abbrev no_tables : Catalog Counted
no_tables = record {
  current_database = λ ctx v. (ok (codes "db"), v);
  columns = λ ctx v. (ok (record { rows = []; ended = none }), v);
  foreign_keys = λ ctx v. (ok (record { rows = []; ended = none }), v);
  count = λ ctx t v. (ok (pos 0), v);
  samples = λ ctx t c v. (ok (record { rows = []; ended = none }), v);
}

abbrev driver : PoolDriver Counted
driver = record {
  open_pool =
      λ ctx dsn v. (ok v.next, record { next = suc v.next; live = λ r. (v.next == r) || v.live r });
  ping = λ ctx p v. (none, v);
  close_pool = λ p v. record { next = v.next; live = λ r. v.live r && not (p == r) };
  session = λ p. one_value;
  catalog = λ p. no_tables;
}

abbrev laws : PoolLaws driver
laws = record {
  live = λ v r. ltb r v.next && v.live r;
  open_ok = λ ctx dsn v p e. (ground arith, λ r. ground arith);
  open_err = λ ctx dsn v e h r. absurd (ground arith);
  ping_same = λ ctx p v r. refl;
  close_closes = λ p v r. ground arith;
  session_keeps = λ p v. record {
    begin_keeps = λ ctx access w h. h;
    exec_keeps = λ ctx q w h. h;
    query_keeps = λ ctx q w h. h;
    rollback_keeps = λ ctx w h. h;
  };
  catalog_keeps = λ p v. record {
    current_database_keeps = λ ctx w h. h;
    columns_keeps = λ ctx w h. h;
    foreign_keys_keeps = λ ctx w h. h;
    count_keeps = λ ctx t w h. h;
    samples_keeps = λ ctx t c w h. h;
  };
}

abbrev none_live : Counted
none_live = record { next = 0; live = λ r. false }

abbrev message : Violation → Text
message v = codes "refused"

none_is_live : (p : ℕ) → (ltb p 0 && false) ≡ false
none_is_live p = ground arith

abbrev calls : List Call
calls =
    open_call background (codes "a") (codes "postgres") (codes "x")
    ∷ open_call background (codes "a") (codes "postgres") (codes "y")
    ∷ open_call background (codes "b") (codes "postgres") []
    ∷ close_call (codes "a")
    ∷ []

serve_all-pools_example : IsTight (backend_pools laws message) (
    serve_all
      (backend driver message)
      calls
      (new_service, record { configs = []; pools = none_live }))
serve_all-pools_example = serve_all-pools laws message none_live calls none_is_live

abbrev empty_heap : Heap Counted
empty_heap = record { configs = []; pools = none_live }

abbrev uncapped : Config
uncapped = record { dsn = codes "x"; row_cap = pos 0 }

new-IsNew_example :
    IsNew driver message background empty_heap uncapped
      (new driver message background empty_heap uncapped)
new-IsNew_example = new-IsNew driver message background empty_heap uncapped

abbrev one_open : Service
one_open = record { conns = (codes "a", 0) ∷ [] }

abbrev one_heap : Heap Counted
one_heap = record {
  configs = (0, record { dsn = codes "x"; row_cap = pos 5 }) ∷ [];
  pools = record { next = 1; live = λ r. r == 0 };
}

abbrev one_value_rows : Rows
one_value_rows = record { columns = codes "n" ∷ []; rows = (shown (codes "1") ∷ []) ∷ [] }

validate_and_execute-IsSafeRun_example :
    IsSafeRun driver background one_open one_heap (codes "a") (codes "SELECT 1") one_value_rows
validate_and_execute-IsSafeRun_example =
    validate_and_execute-IsSafeRun driver message background one_open one_heap (codes "a")
      (codes "SELECT 1") (unfold run_whole in refl)
