-- ===== src/Tests/Cli.antt =====
-- The command line on a typed session.
use querylynx.Base.{true, none, some, ok, ◌≡◌, refl, arith, List, [], ◌∷◌, ◌++◌}
use querylynx.Strings.{Text, codes}
use querylynx.Utf8.{Bytes, encode}
use querylynx.Connector.{Rows, null, shown}
use querylynx.Session.{Session, Outside}
use querylynx.Cli.Table.{print_table, table_lines}
use querylynx.Cli.Table.Aligned.{IsTable, table_lines-IsTable}
use querylynx.Cli.Escape.{query_escape}
use querylynx.Cli.Wizard.Dsn.{StandsFor, field_dsn-StandsFor}
use querylynx.Cli.Console.{Console, finished, choose}
use querylynx.Cli.Console.Menu.{choose-decimal}
use querylynx.Cli.Wizard.{Terminal, field_dsn}
use querylynx.Cli.Ask.{ask_loop}
use querylynx.Cli.Ask.Questions.{questions, Asks, asked, EndsIn, ask_loop-EndsIn}
use querylynx.Cli.Main.{agent}
use querylynx.Cli.Main.Over.{IsOver, agent-IsOver}
use querylynx.Tests.Fleet.{fleet, Script, scripted, one_row}
use querylynx.Tests.Pipeline.{pipeline, runtime, replies}
use querylynx.Tests.Running.{run_cli}

abbrev result : Rows
result = record {
  columns = codes "id" ∷ codes "straße" ∷ [];
  rows = (shown (codes "7") ∷ shown (codes "long") ∷ []) ∷ (null ∷ []) ∷ [];
}

print_table_result :
    print_table result
    ≡ codes "\n"
      ++ encode (codes "id   | straße \n")
      ++ codes "---- | -------\n"
      ++ codes "7    | long   \n"
      ++ codes "NULL | NULL   \n"
      ++ codes "(2 rows)\n"
unfolding run_cli
print_table_result = refl

table_lines-IsTable_example : IsTable (table_lines result)
table_lines-IsTable_example = table_lines-IsTable result

query_escape_password : query_escape (codes "p@ss w:rd") ≡ codes "p%40ss+w%3Ard"
unfolding run_cli
query_escape_password = refl

field_dsn-StandsFor_example :
    (u p rest : Bytes) × (field_dsn
        (codes "h")
        (codes "5432")
        (codes "db")
        (codes "me")
        (codes "p@s w")
      ≡ codes "postgres://" ++ u ++ codes ":" ++ p ++ codes "@" ++ rest)
    × StandsFor u (codes "me")
    × StandsFor p (codes "p@s w")
field_dsn-StandsFor_example =
    field_dsn-StandsFor (codes "h") (codes "5432") (codes "db") (codes "me") (codes "p@s w")
      (omega arith, (omega arith, tt))
      (omega arith, (omega arith, (omega arith, (omega arith, (omega arith, tt)))))

abbrev console : List Text → Console Script
console lines = record { input = lines; output = []; world = replies }

choose-decimal_example :
    choose (codes "? ") 3 1 (console (codes " 2\t" ∷ []))
    ≡ finished 2 (record { input = []; output = encode (codes "? "); world = replies })
unfolding run_cli
choose-decimal_example =
    choose-decimal (codes "? ") 3 1 2 (console []) (codes " ") (codes "\t") [] (refl, tt) (refl, tt)
      (omega arith) (omega arith) (omega arith)

abbrev session : Session Script
session = record {
  connection_id = codes "conn_1";
  dialect = codes "postgres";
  schema = fleet;
  pipeline = pipeline;
}

abbrev outside : Outside Script
outside = record {
  connect = λ settings. scripted;
  random_bytes = λ n script. (0 ∷ 171 ∷ [], script);
  json_error = codes "no JSON";
  exec = record {
    open_connection = λ ctx script id dialect dsn. (none, script);
    introspect = λ ctx script id. (ok fleet, script);
    validate_and_execute = λ ctx script id query. (ok one_row, script);
    close_connection = λ ctx script id. (none, script);
  };
}

abbrev terminal : Terminal Script
terminal = record {
  env = λ name. [];
  is_terminal = true;
  read_password = λ script. (some (codes "key"), script);
  read_line = λ script. ([], script);
  quote = λ s. s;
}

-- A menu answered with Gemini first, the defaults, a URI, then a question between commands.
abbrev typed : List Text
typed =
    codes "3"
    ∷ codes "2"
    ∷ []
    ∷ []
    ∷ codes "1"
    ∷ codes "postgres://x"
    ∷ codes "/trace"
    ∷ []
    ∷ codes "  how many? "
    ∷ codes "/quit"
    ∷ codes "and trips?"
    ∷ []

questions-typed :
    questions typed
    ≡ codes "3" ∷ codes "2" ∷ codes "1" ∷ codes "postgres://x" ∷ codes "how many?" ∷ []
unfolding run_cli
questions-typed = refl

agent-IsOver_example :
    IsOver (agent terminal runtime outside (λ url script. (none, script)) 12 (console typed))
agent-IsOver_example =
    agent-IsOver terminal runtime outside (λ url script. (none, script)) 12 (console typed)
      (omega arith)

abbrev asking : List Text
asking = codes "/trace" ∷ codes " how many? " ∷ codes "/exit" ∷ codes "more?" ∷ []

ask_loop-EndsIn_example :
    (qs : List Text) × Asks asking qs
    × EndsIn (asked runtime pipeline qs replies) (ask_loop runtime session 5 (console asking))
ask_loop-EndsIn_example = ask_loop-EndsIn runtime session 5 (console asking) (omega arith)
