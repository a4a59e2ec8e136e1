-- ===== src/RunStates/Tests.antt =====
-- A small table.
use lightspeed_cloud_agents.RunStates.Specified.{Runs, pausing, apply, specified, Agrees}
use lightspeed_cloud_agents.Prelude.{String, ◌≡◌, refl, true, none, some, [], ◌∷◌, ◌==◌}
use lightspeed_cloud_agents.Json.{null}
use lightspeed_cloud_agents.RunStates.{
  already_exists, missing, fails, gives, Store, find, update_where, update, NewRun, new_row, create,
  resume, order_by, select_ids, equals_text, updated_before, created_after, list_paused,
  list_by_user, list_by_session,
}
use lightspeed_cloud_agents.RunStates.Refines.{apply-specified}
use lightspeed_cloud_agents.RunStates.Listed.{Selects, lists-Selects}

abbrev run_named : String → NewRun
run_named id = record {
  workflow_id = id;
  workflow_name = "clean";
  definition = null;
  provider = null;
  authz_context = null;
  user_id = some "u";
  session_id = none;
  parent_workflow_id = none;
}

abbrev two_runs : Store
two_runs = record {
  connected = true;
  rows = new_row (run_named "a") 1 ∷ new_row (run_named "b") 2 ∷ [];
}

abbrev as_map : Runs
as_map id = find id two_runs.rows

apply-specified_example :
    Agrees (apply (pausing "b" "gate") 5 two_runs) (specified (pausing "b" "gate") 5 as_map)
apply-specified_example = apply-specified (pausing "b" "gate") 5 two_runs as_map (refl, λ k. refl)

lists-Selects_example :
    Selects (λ r. r.status == "paused") updated_before two_runs (list_paused two_runs)
    × Selects (λ r. equals_text "u" r.user_id) created_after two_runs (list_by_user "u" two_runs)
    × Selects
        (λ r. equals_text "u" r.session_id)
        created_after
        two_runs
        (list_by_session "u" two_runs)
lists-Selects_example = lists-Selects two_runs "u" refl

of_user : list_by_user "u" two_runs ≡ gives ("b" ∷ "a" ∷ [])
unfolding list_by_user select_ids order_by
of_user = refl

no_such_run : resume "c" 5 two_runs ≡ fails missing
unfolding resume update update_where
no_such_run = refl

second_a : create (run_named "a") 5 two_runs ≡ fails already_exists
unfolding create find
second_a = refl
