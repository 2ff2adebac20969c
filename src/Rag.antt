-- ===== src/Rag.antt =====
-- internal/rag: the table router that asks the model.
pub mod Known
pub mod Route
pub mod Unreadable
use querylynx.Base.{
  ℕ, Bool, true, false, not, ◌&&◌, Option, none, some, List, [], ◌∷◌, ◌++◌, if◌then◌else◌, is_nil,
  Result, ok, err,
}
use querylynx.Strings.{Text, codes, to_lower, trim_space, index, last_index}
use querylynx.Context.{Context}
use querylynx.Dict.{Dict, get, put, flag}
use querylynx.Json.{unmarshal_strings}
use querylynx.Schema.{Schema, Table, table_names}
use querylynx.Prompt

-- A model, and the world that it stands in: a call may change the world, and its answer may depend
-- on all that happened before.
pub record Provider (W : Type 0) : Type 0 where
  pub generate : Context → W → Text → Result Text Text × W

-- `generate_failed` carries the model's error.
pub data RouteError : Type 0 where
  no_tables no_array parse_failed : RouteError
  generate_failed : Text → RouteError

unfoldable pub routing_prompt : Text → Schema → Text
routing_prompt question s =
    codes
      "You are a table router for a text-to-SQL system. Given a database schema and a user question, choose the minimal set of tables needed to answer it.\n\nSchema:\n"
    ++ (Prompt.schema s
        ++ (codes "\nQuestion: "
            ++ (question
                ++ codes
                    "\n\nReturn ONLY a JSON array of table names, for example [\"vehicles\",\"charging_sessions\"]. No prose, no explanation.")))

unmarshalled : Option (List Text) → Result RouteError (List Text)
unmarshalled none = err parse_failed
unmarshalled (some names) = ok names

-- From the first `[`: up to the last `]` behind it.
array_part : Option (Text × Text) → Result RouteError (List Text)
unfolding unmarshalled
array_part none = err no_array
array_part (some (before, found)) = unmarshalled (unmarshal_strings (before ++ codes "]"))

from_bracket : Option (Text × Text) → Result RouteError (List Text)
unfolding array_part
from_bracket none = err no_array
from_bracket (some (before, found)) = array_part (last_index found b']')

unfoldable pub parse_table_list : Text → Result RouteError (List Text)
unfolding from_bracket
parse_table_list resp = from_bracket (index resp (codes "["))

-- `known`: from the lower-cased to the actual name.
unfoldable pub known_names : List Table → Dict Text → Dict Text
known_names [] known = known
known_names (t ∷ ts) known = known_names ts (put (to_lower t.name) t.name known)

pub record Kept : Type 0 where
  pub out : List Text
  pub seen : Dict Bool

keep_canon : Option Text → Kept → Kept
keep_canon none k = k
keep_canon (some canon) k =
    if not (flag canon k.seen)
    then record { out = k.out ++ canon ∷ []; seen = put canon true k.seen }
    else k

unfoldable pub keep_known : Dict Text → List Text → Kept → Kept
unfolding keep_canon
keep_known known [] k = k
keep_known known (n ∷ names) k =
    keep_known known names (keep_canon (get (to_lower (trim_space n)) known) k)

unfoldable pub filter_known : List Text → Schema → List Text
filter_known names s =
    (keep_known (known_names s.tables []) names (record { out = []; seen = [] })).out

unfoldable pub all_table_names : Schema → List Text
all_table_names s = table_names s.tables

choose_names : List Text → Schema → Result RouteError (List Text)
choose_names names s =
    let valid = filter_known names s in if is_nil valid then ok (all_table_names s) else ok valid

usable_names : Schema → Result RouteError (List Text) → Result RouteError (List Text)
unfolding choose_names
usable_names s (err e) = err e
usable_names s (ok names) = choose_names names s

routed : Schema → Result Text Text → Result RouteError (List Text)
unfolding usable_names
routed s (err e) = err (generate_failed e)
routed s (ok resp) = usable_names s (parse_table_list resp)

unfoldable pub route :
    {W : Type 0} → Provider W → Context → W → Text → Schema → Result RouteError (List Text) × W
unfolding routed
route llm ctx w question s =
    if is_nil s.tables
    then (err no_tables, w)
    else let (resp, w') = llm.generate ctx w (routing_prompt question s) in (routed s resp, w')
