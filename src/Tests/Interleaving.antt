-- ===== src/Tests/Interleaving.antt =====
-- Two calls that open a connection under one id at the same time.
use querylynx.Base.{[], ◌∷◌, ◌≡◌, refl, ok}
use querylynx.Base.Int.{pos}
use querylynx.Strings.{Text, codes}
use querylynx.Context.{background}
use querylynx.Connector.{Config}
use querylynx.Executor.{new_service, register_connection}
use querylynx.Executor.Interleaving.{
  Calls, here, there, make_connector, register, idle, Runs, stay, then,
}
use querylynx.Executor.Interleaving.Leaks.{IsAccounted, Runs-IsAccounted}
use querylynx.Tests.Executor.{Counting, counting, none_live, counting_pools, none_is_open}
use querylynx.Tests.Running.{run_executor}

abbrev cfg : Config
cfg = record { dsn = codes "x"; row_cap = pos 0 }

abbrev id : Text
id = codes "a"

abbrev one_made : Calls Counting
one_made = record (idle new_service none_live) {
  world = (counting.new background none_live cfg).1;
  opening = (id, 0) ∷ [];
}

abbrev both_made : Calls Counting
both_made = record one_made {
  world = (counting.new background one_made.world cfg).1;
  opening = (id, 1) ∷ (id, 0) ∷ [];
}

abbrev first_registered : Calls Counting
first_registered = record both_made {
  service = (register_connection counting both_made.service id (ok 0, both_made.world)).1;
  world = (register_connection counting both_made.service id (ok 0, both_made.world)).2;
  opening = (id, 1) ∷ [];
}

abbrev both_registered : Calls Counting
both_registered = record first_registered {
  service =
      (register_connection counting first_registered.service id (ok 1, first_registered.world)).1;
  world =
      (register_connection counting first_registered.service id (ok 1, first_registered.world)).2;
  opening = [];
}

interleaved : Runs counting (idle new_service none_live) both_registered
unfolding run_executor
interleaved =
    then (make_connector id 0 one_made.world background (codes "postgres") (codes "x") refl refl) (
      then (make_connector id 1 both_made.world background (codes "postgres") (codes "x") refl refl)
        (then (register id 0 ((id, 1) ∷ []) (there here)) (then (register id 1 [] here) stay)))

both_registered_conns : both_registered.service.conns ≡ (id, 1) ∷ []
unfolding run_executor register_connection
both_registered_conns = refl

Runs-IsAccounted_example :
    IsAccounted counting_pools both_registered.service both_registered.world both_registered.opening
Runs-IsAccounted_example =
    Runs-IsAccounted counting_pools none_live both_registered none_is_open interleaved
