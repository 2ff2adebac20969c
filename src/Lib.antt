-- ===== src/Lib.antt =====
-- QueryLynx: a gateway from questions in plain language to read-only database queries.
--
-- The agent (internal/agent) turns a question into an answer in stages: an intent gate, the routing to
-- the tables that matter, the generation of a query by a language model, a check of the tables that it
-- names, and its execution by the executor. A query that fails the check or the execution goes back to
-- the model with the error, three rounds at most. The executor's side holds the database connections;
-- its guard and the Postgres backend's Validate decide which queries reach the database.
--
-- Base, with the modules below it: lists over the native numbers, results, integers.
-- Strings: Go's strings as lists of code points, and the functions of the packages strings, strconv and
--   unicode that the code calls. Upper and lower case use the simple case mappings of Unicode 15.
-- Regex: regular expressions as leftmost-first matchers, with the word boundary of ASCII.
-- Dict: Go's maps with string keys. Json: encoding/json as far as it reads an array of strings
--   and writes a string.
-- Context: a context's deadline.
-- Schema, Prompt: internal/schema/schema.go and internal/prompt/schema.go. `subset` is Subset.
-- Safety: internal/safety/guard.go. `check` is Guard.Check, `none` being the nil error.
-- Connector: internal/connector/connector.go and internal/connector/registry/registry.go. A connector is a
--   reference (Ref), the interface's methods are operations of a Backend, `new_connector` is New. Connector.Redact has RedactDSN.
-- Postgres: internal/connector/postgres/postgres.go. `validate` is Validate; Postgres.Session has
--   `execute`, Execute, and Postgres.Session.Calls a driver that writes down what is called of it; Postgres.Catalog and Postgres.Introspection have `introspect`, Introspect.
-- Postgres.Backend: New and Close, and the backend's operations joined to a Backend, over a PoolDriver.
-- Executor: internal/executor/service.go, and the tools of internal/executor/mcpserver.go as `serve`.
--   Executor.Gate joins the service to the Postgres backend's Validate, Executor.Pools and Executor.Whole
--   to the whole backend. Executor.Interleaving has calls that run at the same time.
-- Client: internal/executorclient/client.go, `direct_client` being the client whose calls all
--   arrive. Client.Decode has `call`, what is read from a tool's result.
-- Llm: internal/llm. `new_provider` is New, `redact_key` is RedactKey; Llm.Generate has the providers'
--   Generate. Json.Encode writes the strings of their requests.
-- Session: internal/session/session.go. `register` is Register.
-- Rag: internal/rag. `route` is LLMRouter.Route, `filter_known` is filterKnown.
-- Sql: internal/agent/sql. `validate_tables` is ValidateTables, `extract_sql` is extractSQL, `generate` is
--   Generator.Generate.
-- Intent, Explain, Pipeline: internal/agent/intent/intent.go and internal/agent/pipeline.go. Explain has
--   the answer and its trace, `run` is Pipeline.Run.
-- Utf8: the bytes of a text, and unicode/utf8's count of runes.
-- Cli: cmd/agent/main.go. `agent` of Cli.Main is main; Cli.Console has the input and the output and the
--   helpers that ask (`prompt`, `choose`), Cli.Wizard the connection wizard, Cli.Ask the ask loop,
--   Cli.Table and Cli.Format what is printed of a result, Cli.Escape url.QueryEscape.
-- Tests: runs on concrete inputs.
--
-- A fallible function returns a Result, or an Option of its error where it returns nothing else. What
-- stands outside the process is a world that calls take and return: the model (Provider), the executor
-- (QueryExecutor), the router and the classifier behind their interfaces, the clock and the random
-- bytes (Runtime). Nothing is assumed of them; that a call returns at all is part of their type.
--
-- The loop of Run is by the rounds that are left, from maxAttempts on, as in the source, so that the
-- count is no bound of the model's own. The other loops are structural; the search of a pattern takes
-- the length of the text as fuel, one more than there are positions left. The command line's loops end with their
-- input only, and are by the rounds that they may make; a run without enough of them is `unfinished`.
--
-- Text is a list of runes where Go has bytes: the code cuts strings at the positions of ASCII
-- characters only, where both agree, but for RedactKey and for what the command line prints, which are on bytes. A model's answer that is not valid UTF-8 is not modelled. The
-- order of a map is not modelled, since the program does not range over one. A context is its
-- deadline; whether a callee heeds it is the callee's affair.
--
-- The database driver with its pools, the catalog's answers and the random numbers are parameters too (Driver, PoolDriver,
-- Catalog, Outside). What is assumed of a backend's connections is in the record Pools: an opened connection is
-- not open before, a failed opening leaves none, and only closing closes; PoolLaws says it of the driver's
-- pools, and Executor.Pools proves it of the connectors from that. Under a mutex an operation's
-- critical section is atomic; in `serve` the calls are a sequence. Executor.Interleaving has them at the
-- same time, as steps that are the critical sections and what is done between them.
--
-- Not modelled: the transport between agent and executor and its failures, the text of the catalog
-- queries, and how the terminal shares the standard input with the Scanner. The model providers' HTTP
-- exchange (Http), the reading of its JSON (Decoder) and the parser of URLs are parameters.
pub mod Base
pub mod Strings
pub mod Utf8
pub mod Regex
pub mod Safety
pub mod Connector
pub mod Postgres
mod Tests
pub mod Dict
pub mod Schema
pub mod Prompt
pub mod Json
pub mod Rag
pub mod Sql
pub mod Context
pub mod Intent
pub mod Explain
pub mod Pipeline
pub mod Executor
pub mod Llm
pub mod Client
pub mod Session
pub mod Cli
