-- ===== src/Tests/Prompt.antt =====
-- The schema's text and its parts on the fleet.
use querylynx.Base.{◌≡◌, refl, [], ◌∷◌}
use querylynx.Strings.{codes}
use querylynx.Strings.Names.{contains}
use querylynx.Schema.{table_names}
use querylynx.Prompt
use querylynx.Prompt.Subset.{select, subset-select}
use querylynx.Tests.Fleet.{fleet, vehicles}
use querylynx.Tests.Running.{run_sql}

schema_vehicles :
    Prompt.schema (record { database_name = []; tables = vehicles ∷ [] })
    ≡ codes "Table vehicles (12 rows):\n  - id integer\n  - status text NULL [e.g. active, idle]\n"
unfolding run_sql
schema_vehicles = refl

subset_trips :
    table_names (Prompt.subset fleet (codes "Trips" ∷ codes "x" ∷ [])).tables ≡ codes "Trips" ∷ []
unfolding run_sql
subset_trips = refl

subset-select_example : Prompt.subset fleet (codes "Trips" ∷ []) ≡ record {
  database_name = fleet.database_name;
  tables = select (λ t. contains (codes "Trips" ∷ []) t.name) fleet.tables;
}
subset-select_example = subset-select fleet (codes "Trips" ∷ [])
