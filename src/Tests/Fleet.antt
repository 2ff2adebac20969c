-- ===== src/Tests/Fleet.antt =====
-- A small database of vehicles for the tests.
use querylynx.Base.{true, false, List, [], ◌∷◌, Result, err}
use querylynx.Base.Int.{pos}
use querylynx.Strings.{Text, codes}
use querylynx.Connector.{Rows, shown}
use querylynx.Schema.{Schema, Table}
use querylynx.Rag.{Provider}

abbrev pub vehicles : Table
vehicles = record {
  name = codes "vehicles";
  columns =
      record {
        name = codes "id";
        data_type = codes "integer";
        nullable = false;
        sample_values = [];
      }
      ∷ record {
        name = codes "status";
        data_type = codes "text";
        nullable = true;
        sample_values = codes "active" ∷ codes "idle" ∷ [];
      }
      ∷ [];
  row_count = pos 12;
  foreign_keys = [];
}

abbrev pub trips : Table
trips = record {
  name = codes "Trips";
  columns =
      record {
        name = codes "vehicle_id";
        data_type = codes "integer";
        nullable = false;
        sample_values = [];
      }
      ∷ [];
  row_count = pos 90;
  foreign_keys =
      record { column = codes "vehicle_id"; ref_table = codes "vehicles"; ref_column = codes "id" }
      ∷ [];
}

abbrev pub fleet : Schema
fleet = record { database_name = codes "fleet"; tables = vehicles ∷ trips ∷ [] }

-- The answers that a scripted model gives, in this order, and the rows that come back.
abbrev pub Script : Type 0
Script = List (Result Text Text)

abbrev pub next_reply : Script → Result Text Text × Script
next_reply [] = (err (codes "no more answers"), [])
next_reply (reply ∷ script) = (reply, script)

abbrev pub scripted : Provider Script
scripted = record { generate = λ ctx script prompt. next_reply script }

abbrev pub one_row : Rows
one_row = record { columns = codes "count" ∷ []; rows = (shown (codes "12") ∷ []) ∷ [] }
