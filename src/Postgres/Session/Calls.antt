-- ===== src/Postgres/Session/Calls.antt =====
-- What `Execute` of internal/connector/postgres/postgres.go calls of its driver: it runs on a driver
-- that is the given one and writes down each call with what it was given and what it answered.
use querylynx.Base.{Option, none, some, List, [], ◌∷◌, ◌++◌, ◌≡◌, refl, Result, err}
use querylynx.Strings.{Text, codes}
use querylynx.Context.{Context, background}
use querylynx.Connector.{Rows}
use querylynx.Postgres.Session.Reading.{Answers, fetched-Answers}
use querylynx.Postgres.Session.{
  Access, read_only, Driver, Fetched, set_timeout, rolled_back, with_timeout_set, begun, execute,
  Ran,
}

pub data Command : Type 0 where
  begin_call : Context → Access → Option Text → Command
  exec_call : Context → Text → Option Text → Command
  query_call : Context → Text → Result Text Fetched → Command
  rollback_call : Context → Command

-- A world with the calls so far.
abbrev pub Logged : Type 0 → Type 0
Logged W = W × List Command

module _ {W : Type 0} (driver : Driver W) where
  unfoldable pub recorded : Driver (Logged W)
  recorded = record {
    begin_tx = λ ctx access at.
        let (res, w) = driver.begin_tx ctx access at.0 in
        (res, (w, at.1 ++ begin_call ctx access res ∷ []));
    exec = λ ctx q at.
        let (res, w) = driver.exec ctx q at.0 in (res, (w, at.1 ++ exec_call ctx q res ∷ []));
    query = λ ctx q at.
        let (res, w) = driver.query ctx q at.0 in (res, (w, at.1 ++ query_call ctx q res ∷ []));
    rollback = λ ctx at. (driver.rollback ctx at.0, at.1 ++ rollback_call ctx ∷ []);
  }

  -- An execution on the recording driver, that has no calls before.
  unfoldable pub recorded_run : Context → W → Text → Ran (Logged W)
  unfolding recorded
  recorded_run ctx w q = execute recorded ctx (w, []) q

-- What an execution calls, by its result: nothing but the beginning of a read-only transaction, if
-- that fails; else the statement timeout, the query once and only if the timeout is set, and the
-- rollback, under a context that no deadline bounds. What the query answered gives the result.
pub data IsReadOnlyRun (ctx : Context) (q : Text) : Result Text Rows → List Command → Type 0 where
  not_begun :
      {e : Text}
      → IsReadOnlyRun ctx q
          (err (codes "postgres: begin read-only tx: " ++ e))
          (begin_call ctx read_only (some e) ∷ [])
  no_timeout :
      {e : Text}
      → IsReadOnlyRun ctx q (err (codes "postgres: set statement_timeout: " ++ e)) (
          begin_call ctx read_only none
          ∷ exec_call ctx set_timeout (some e)
          ∷ rollback_call background
          ∷ [])
  queried :
      {answer : Result Text Fetched} {res : Result Text Rows}
      → Answers answer res
      → IsReadOnlyRun ctx q res (
          begin_call ctx read_only none
          ∷ exec_call ctx set_timeout none
          ∷ query_call ctx q answer
          ∷ rollback_call background
          ∷ [])

module _ {W : Type 0} (driver : Driver W) where
  -- A recorded run is read-only, and it is the run `plain` but for the calls.
  abbrev Records : Context → Text → Ran W → Ran (Logged W) → Type 0
  Records ctx q plain (res, (w, calls)) = IsReadOnlyRun ctx q res calls × (plain ≡ (res, w))

  with_timeout_set-Records :
      (ctx : Context) (q : Text) (r : Option Text × W)
      → Records ctx q (with_timeout_set driver ctx q r) (
          with_timeout_set
            (recorded driver)
            ctx
            q
            (r.0, (r.1, begin_call ctx read_only none ∷ exec_call ctx set_timeout r.0 ∷ [])))
  unfolding with_timeout_set rolled_back recorded
  with_timeout_set-Records ctx q (some e, w) = (no_timeout, refl)
  with_timeout_set-Records ctx q (none, w) =
      (queried (fetched-Answers (driver.query ctx q w).0), refl)

  begun-Records :
      (ctx : Context) (q : Text) (r : Option Text × W)
      → Records ctx q
          (begun driver ctx q r)
          (begun (recorded driver) ctx q (r.0, (r.1, begin_call ctx read_only r.0 ∷ [])))
  unfolding begun recorded
  begun-Records ctx q (some e, w) = (not_begun, refl)
  begun-Records ctx q (none, w) = with_timeout_set-Records ctx q (driver.exec ctx set_timeout w)

-- Whatever the driver does, `Execute` calls only this of it: it begins a read-only transaction; if this
-- fails, nothing more. Else it sets the statement timeout and, if that is done, sends the query once
-- and as it is; and then it rolls back, whether an error came or not. An error of the first two calls is
-- the result's, behind its prefix. If the query is sent, its error, or all its rows, normalised and in
-- order, are the result's, and an answer with an error in it gives an error. To write the calls down
-- changes neither the result nor the world.
pub execute-IsReadOnlyRun :
    {W : Type 0} (driver : Driver W) (ctx : Context) (w : W) (q : Text)
    → IsReadOnlyRun ctx q (recorded_run driver ctx w q).0 (recorded_run driver ctx w q).1.1
      × (execute driver ctx w q
          ≡ ((recorded_run driver ctx w q).0, (recorded_run driver ctx w q).1.0))
unfolding execute recorded_run recorded
execute-IsReadOnlyRun driver ctx w q = begun-Records driver ctx q (driver.begin_tx ctx read_only w)
