-- ===== src/Cli/Ask.antt =====
-- cmd/agent/main.go: the loop that reads questions and commands, and what it prints of an answer.
pub mod Questions
use querylynx.Base.{
  ℕ, zero, suc, Bool, true, false, not, Option, none, some, List, [], ◌∷◌, ◌++◌, map, ltb,
  if◌then◌else◌, is_nil, ◌||◌,
}
use querylynx.Strings.{Text, codes, text_eq, trim_space, join, decimal, print_int}
use querylynx.Utf8.{Bytes, encode}
use querylynx.Context.{background}
use querylynx.Schema.{Schema, Table}
use querylynx.Explain.{
  StageName, Status, Stage, Answer, intent, routing, generation, validation, execution, ok_status,
  error_status,
}
use querylynx.Pipeline.{Runtime, State, run}
use querylynx.Session.{Session}
use querylynx.Cli.Format.{pad_right, pad_left}
use querylynx.Cli.Table.{print_table}
use querylynx.Cli.Console.{Console, Run, finished, unfinished, Io, ◌>>=◌, ◌>>◌, pure, print, scan}

stage_label : StageName → Text
stage_label intent = codes "intent"
stage_label routing = codes "routing"
stage_label generation = codes "generation"
stage_label validation = codes "validation"
stage_label execution = codes "execution"

status_label : Status → Text
status_label ok_status = codes "ok"
status_label error_status = codes "error"

stage_line : Stage → Bytes
unfolding stage_label status_label pad_right pad_left encode decimal
stage_line s =
    codes "  "
    ++ pad_right 11 (encode (stage_label s.name))
    ++ codes " "
    ++ pad_left 5 (decimal s.latency_ms)
    ++ codes "ms  "
    ++ encode (if is_nil s.error then status_label s.status else codes "error: " ++ s.error)
    ++ codes "\n"

stage_lines : List Stage → Bytes
unfolding stage_line
stage_lines [] = []
stage_lines (s ∷ stages) = stage_line s ++ stage_lines stages

unfoldable pub print_trace : Answer → Bytes
unfolding stage_lines encode
print_trace ans = codes "\ntrace " ++ encode ans.trace_id ++ codes "\n" ++ stage_lines ans.stages

schema_lines : List Table → Bytes
unfolding pad_right encode join print_int
schema_lines [] = []
schema_lines (t ∷ tables) =
    codes "  "
    ++ pad_right 24 (encode t.name)
    ++ codes " ("
    ++ print_int t.row_count
    ++ codes " rows): "
    ++ encode (join (map (λ c. c.name) t.columns) (codes ", "))
    ++ codes "\n"
    ++ schema_lines tables

unfoldable pub print_schema : Schema → Bytes
unfolding schema_lines encode
print_schema s =
    codes "\nschema (" ++ encode s.database_name ++ codes "):\n" ++ schema_lines s.tables

abbrev pub on_off : Bool → Text
on_off true = codes "on"
on_off false = codes "off"

-- What is printed of a run's error, or of its answer.
unfoldable pub print_outcome : Bool → Option Text → Answer → Bytes
unfolding encode print_table print_trace decimal
print_outcome show_trace (some e) ans =
    encode (codes "✗ " ++ e ++ codes "\n")
    ++ (if is_nil ans.sql then [] else encode (codes "  last SQL: " ++ ans.sql ++ codes "\n"))
    ++ (if show_trace then print_trace ans else [])
print_outcome show_trace none ans =
    encode (codes "\nSQL: " ++ ans.sql ++ codes "\n")
    ++ (if ltb 1 ans.attempts
        then codes "(succeeded after " ++ decimal ans.attempts ++ codes " attempts)\n"
        else [])
    ++ print_table ans.result
    ++ (if show_trace then print_trace ans else [])

-- What a line is, once it is trimmed.
pub data Input : Type 0 where
  blank leave trace tables : Input
  question : Text → Input

unfoldable pub read_input : Text → Input
unfolding text_eq trim_space
read_input line =
    let q = trim_space line in
    if is_nil q
    then blank
    else if text_eq q (codes "/exit") || text_eq q (codes "/quit")
    then leave
    else if text_eq q (codes "/trace")
    then trace
    else if text_eq q (codes "/tables")
    then tables
    else question q

module _ {W : Type 0} (rt : Runtime W) (sess : Session W) where
  -- sess.Pipeline.Run
  ask_pipeline : Text → Io W (Option Text × Answer)
  unfolding run
  ask_pipeline q c =
      let (e, st) = run rt sess.pipeline background c.world q in
      finished (e, st.ans) (record c { world = st.world })

  -- One line; `again` is the loop's next round.
  handle : (Bool → Io W Unit) → Bool → Input → Io W Unit
  unfolding print print_schema print_outcome ask_pipeline encode
  handle again show_trace blank = again show_trace
  handle again show_trace leave = pure tt
  handle again show_trace trace = do
    print (encode (codes "trace: " ++ on_off (not show_trace) ++ codes "\n"))
    again (not show_trace)
  handle again show_trace tables = do print (print_schema sess.schema); again show_trace
  handle again show_trace (question q) = do
    (e, ans) ← ask_pipeline q
    print (print_outcome show_trace e ans)
    again show_trace

  handle_line : (Bool → Io W Unit) → Bool → Option Text → Io W Unit
  unfolding handle read_input
  handle_line again show_trace none = pure tt
  handle_line again show_trace (some line) = handle again show_trace (read_input line)

  -- The loop, by the rounds that it may still make.
  unfoldable pub ask_rounds : ℕ → Bool → Io W Unit
  unfolding print scan handle_line
  ask_rounds zero show_trace = λ c. unfinished
  ask_rounds (suc rounds) show_trace = do
    print (codes "\n> ")
    line ← scan
    handle_line (ask_rounds rounds) show_trace line

  unfoldable pub ask_loop : ℕ → Io W Unit
  unfolding print ask_rounds encode
  ask_loop rounds = do
    print (encode (codes "\nAsk in plain English. Commands:  /trace   /tables   /exit\n"))
    ask_rounds rounds false
