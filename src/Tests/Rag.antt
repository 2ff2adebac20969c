-- ===== src/Tests/Rag.antt =====
-- The router on concrete answers of the model.
use querylynx.Base.{true, ok, err, ◌≡◌, refl, arith, List, [], ◌∷◌, ◌++◌, ◌⊎◌, ◌&&◌, All, map}
use querylynx.Strings.{Text, codes, to_lower}
use querylynx.Strings.Names.{contains, IsDistinct}
use querylynx.Json.Plain.{array}
use querylynx.Schema.{table_names}
use querylynx.Context.{background}
use querylynx.Rag.{no_tables, no_array, filter_known, parse_table_list, route, routing_prompt}
use querylynx.Rag.Known.{lookup_key, filter_known_sound, filter_known-keys}
use querylynx.Rag.Route.{IsRoute, CallFails, route-IsRoute, route-errors, parse_table_list-array}
use querylynx.Tests.Fleet.{fleet, Script, scripted}
use querylynx.Tests.Running.{run_rag}

abbrev asked : List Text
asked = codes " TRIPS" ∷ codes "ghosts" ∷ codes "Trips" ∷ codes "vehicles" ∷ []

filter_known-asked : filter_known asked fleet ≡ codes "Trips" ∷ codes "vehicles" ∷ []
unfolding run_rag
filter_known-asked = refl

filter_known_sound_example :
    All (λ n. contains (table_names fleet.tables) n ≡ true) (filter_known asked fleet)
    × IsDistinct (filter_known asked fleet)
filter_known_sound_example = filter_known_sound asked fleet

filter_known-keys_example : contains (map to_lower (filter_known asked fleet)) (codes "trips") ≡ (
    contains (map lookup_key asked) (codes "trips")
    && contains (map to_lower (table_names fleet.tables)) (codes "trips"))
filter_known-keys_example = filter_known-keys asked fleet (codes "trips")

abbrev answers : Script
answers = ok (codes "Sure: [\"trips\"]. Good?") ∷ []

route_answers :
    route scripted background answers (codes "how far?") fleet ≡ (ok (codes "Trips" ∷ []), [])
unfolding run_rag
route_answers = refl

route_prose :
    (route scripted background (ok (codes "none of them") ∷ []) (codes "how far?") fleet).0
    ≡ err no_array
unfolding run_rag
route_prose = refl

-- Only names that are unknown: every table is taken.
route_unknown :
    (route scripted background (ok (codes "[\"ghosts\"]") ∷ []) (codes "how far?") fleet).0
    ≡ ok (codes "vehicles" ∷ codes "Trips" ∷ [])
unfolding run_rag
route_unknown = refl

route-IsRoute_example : IsRoute fleet (codes "Trips" ∷ [])
route-IsRoute_example =
    route-IsRoute scripted background answers (codes "how far?") fleet (unfold run_rag in refl)

route-errors_example :
    ((fleet.tables ≡ [])
      × (no_array ≡ no_tables)
      × ((route scripted background (ok (codes "no") ∷ []) (codes "?") fleet).1
          ≡ ok (codes "no") ∷ []))
    ⊎ CallFails
        (scripted.generate background (ok (codes "no") ∷ []) (routing_prompt (codes "?") fleet)).0
        no_array
route-errors_example =
    route-errors scripted background (ok (codes "no") ∷ []) (codes "?") fleet no_array
      (unfold run_rag in refl)

parse_table_list-array_example :
    parse_table_list (codes "Tables: " ++ (array (codes "a" ∷ codes "b" ∷ []) ++ codes " (two)"))
    ≡ ok (codes "a" ∷ codes "b" ∷ [])
parse_table_list-array_example =
    parse_table_list-array (codes "Tables: ") (codes " (two)") (codes "a" ∷ codes "b" ∷ [])
      (unfold run_rag in ground arith) (unfold run_rag in ground arith)
      (unfold run_rag in ground arith)
