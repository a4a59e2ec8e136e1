-- ===== src/RunStates/Specified.antt =====
-- What the run-state store promises: operations on a map from ids to runs.
use lightspeed_cloud_agents.Json.{Value}
use lightspeed_cloud_agents.Prelude.{
  ℕ, String, ◌≡◌, true, Option, none, some, ◌==◌, if◌then◌else◌, mem_text,
}
use lightspeed_cloud_agents.RunStates.{
  StepData, RunEvent, RunState, already_exists, not_terminal, missing, StoreAnswer, fails, gives,
  Store, find, NewRun, new_row, create, with_step, with_event, with_status, with_context,
  update_step, append_event, set_paused, resume, terminal_statuses, mark_terminal,
  update_workflow_context, delete,
}

-- What the store promises: a partial map from ids to runs.
abbrev pub Runs : Type 0
Runs = String → Option RunState

abbrev pub set_run : String → Option RunState → Runs → Runs
set_run id value runs k = if id == k then value else runs k

-- A change of the run that stands under an id.
abbrev pub change_run : String → (RunState → RunState) → Runs → Option RunState → StoreAnswer Runs
change_run id change runs none = fails missing
change_run id change runs (some run) = gives (set_run id (some (change run)) runs)

abbrev pub add_run : RunState → Runs → Option RunState → StoreAnswer Runs
add_run row runs none = gives (set_run row.workflow_id (some row) runs)
add_run row runs (some old) = fails already_exists

pub data Operation : Type 0 where
  creating : NewRun → Operation
  stepping : String → StepData → Operation
  appending : String → RunEvent → Operation
  pausing : String → String → Operation
  resuming : String → Operation
  ending : String → String → Operation
  noting : String → Value → Operation
  deleting : String → Operation

unfoldable pub apply : Operation → ℕ → Store → StoreAnswer Store
apply (creating run) now store = create run now store
apply (stepping id data_) now store = update_step id data_ now store
apply (appending id event) now store = append_event id event now store
apply (pausing id step) now store = set_paused id step now store
apply (resuming id) now store = resume id now store
apply (ending id status) now store = mark_terminal id status now store
apply (noting id context) now store = update_workflow_context id context now store
apply (deleting id) now store = delete id store

-- The operations on the map.
unfoldable pub specified : Operation → ℕ → Runs → StoreAnswer Runs
specified (creating run) now runs = add_run (new_row run now) runs (runs run.workflow_id)
specified (stepping id data_) now runs = change_run id (with_step data_ now) runs (runs id)
specified (appending id event) now runs = change_run id (with_event event now) runs (runs id)
specified (pausing id step) now runs =
    change_run id (with_status "paused" (some step) now) runs (runs id)
specified (resuming id) now runs = change_run id (with_status "running" none now) runs (runs id)
specified (ending id status) now runs =
    if mem_text status terminal_statuses
    then change_run id (with_status status none now) runs (runs id)
    else fails not_terminal
specified (noting id context) now runs = change_run id (with_context context now) runs (runs id)
specified (deleting id) now runs = gives (set_run id none runs)

-- The store holds the runs of the map.
abbrev pub Holds : Runs → Store → Type 0
Holds runs store = (store.connected ≡ true) × ((k : String) → find k store.rows ≡ runs k)

-- Both fail with one error, or both succeed and the store holds the runs of the map.
abbrev pub Agrees : StoreAnswer Store → StoreAnswer Runs → Type 0
Agrees (fails e) (fails f) = e ≡ f
Agrees (fails e) (gives runs) = ⊥
Agrees (gives store) (fails e) = ⊥
Agrees (gives store) (gives runs) = Holds runs store
