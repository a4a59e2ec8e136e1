-- ===== src/Local/Segments.antt =====
-- Segments of a run: `_execute` of src/cloud_agents/workflow/executor/local/executor.py, on the row
-- of its workflow. The store's calls are the changes that it makes to that row; nobody deletes the
-- row meanwhile.
use lightspeed_cloud_agents.Prelude.{
  ℕ, String, Bool, ◌||◌, Option, none, some, List, [], ◌∷◌, ◌++◌, map, ◌==◌, if◌then◌else◌, any,
  mem_text, codes, starts_with, Dict, keep_values,
}
use lightspeed_cloud_agents.Json.{Fields, has_text, text_or}
use lightspeed_cloud_agents.RunStates.{
  StepData, RunEvent, RunState, with_step, with_event, with_status,
}
use lightspeed_cloud_agents.Local.{
  GraphState, Node, NodeEnd, leaves, raises, interrupted, StepServices, run_node,
}

pub data Ending : Type 0 where
  completed failed paused crashed cancelled_run : Ending

pub record Segment : Type 0 where
  pub ending : Ending
  pub graph : GraphState
  pub row : RunState

abbrev pub event : String → List String → RunEvent
event kind steps = record { kind = kind; steps = steps; detail = none }

-- "step.started" for the task that comes next; the library's own tasks begin with `__`.
abbrev pub announce : ℕ → List Node → RunState → RunState
announce now [] row = row
announce now (n ∷ ns) row =
    if starts_with (codes n.name) (codes "__")
    then row
    else with_event (event "step.started" (n.name ∷ [])) now row

-- The results under keys that are not persisted yet. The code goes through them as a set; a node
-- adds one at most.
unfoldable pub new_results : List String → Dict StepData → Dict StepData
new_results keys [] = []
new_results keys ((k, v) ∷ results) =
    let rest = new_results keys results in if mem_text k keys then rest else (k, v) ∷ rest

abbrev pub as_stored : String → StepData → StepData
as_stored key data_ = record data_ { step_name = key }

unfoldable pub persist : ℕ → Dict StepData → RunState → RunState
persist now [] row = row
persist now ((k, v) ∷ results) row = persist now results (with_step (as_stored k v) now row)

abbrev pub keys_of : Dict StepData → List String
keys_of results = map (λ e. e.0) results

abbrev pub is_failed : StepData → Bool
is_failed data_ = data_.status == "failed" || data_.status == "denied"

abbrev pub any_failed : Dict StepData → Bool
any_failed results = any (λ e. is_failed e.1) results

abbrev pub failed_steps : Dict StepData → List String
failed_steps results = keys_of (keep_values is_failed results)

abbrev pub end_row : String → RunEvent → ℕ → RunState → RunState
end_row status what now row = with_status status none now (with_event what now row)

abbrev pub pause_row : String → ℕ → RunState → RunState
pause_row step now row =
    with_event (event "workflow.paused" (step ∷ [])) now (with_status "paused" (some step) now row)

abbrev pub paused_step : GraphState → String
paused_step g = text_or g.paused_at_step ""

-- What the loop does when the graph hands control back: the nodes to come, the keys that are
-- persisted, and the row.
unfoldable pub recorded : ℕ → List Node → List String → GraphState → RunState → RunState
unfolding new_results persist
recorded now ns keys g row = persist now (new_results keys g.step_results) (announce now ns row)

abbrev pub keys_after : List String → GraphState → List String
keys_after keys g = keys ++ keys_of (new_results keys g.step_results)

abbrev pub stopped : Ending → GraphState → RunState → Segment
stopped ending g row = record { ending = ending; graph = g; row = row }

-- What follows a node: the loop goes on, or an exception ends it.
abbrev pub after_node : ℕ → (GraphState → Segment) → GraphState → RunState → NodeEnd → Segment
after_node now go g row (leaves g') = go g'
after_node now go g row (raises error) = stopped crashed g (
    end_row "failed" (record { kind = "workflow.failed"; steps = []; detail = some error }) now row)
after_node now go g row interrupted = stopped cancelled_run g (with_status "cancelled" none now row)

module _ (services : StepServices) (policy : Option Fields) (now : ℕ) where
  unfoldable pub loop : List Node → List String → GraphState → RunState → Segment
  unfolding recorded run_node
  loop [] keys g row =
      let row' = recorded now [] keys g row in
      if any_failed g.step_results
      then stopped failed g
          (end_row "failed" (event "workflow.failed" (failed_steps g.step_results)) now row')
      else if has_text g.paused_at_step
      then stopped paused g (pause_row (paused_step g) now row')
      else stopped completed g (end_row "completed" (event "workflow.completed" []) now row')
  loop (n ∷ ns) keys g row =
      let row' = recorded now (n ∷ ns) keys g row in
      if any_failed g.step_results
      then stopped failed g
          (end_row "failed" (event "workflow.failed" (failed_steps g.step_results)) now row')
      else if has_text g.paused_at_step
      then stopped paused g (pause_row (paused_step g) now row')
      else after_node now (λ g'. loop ns (keys_after keys g) g' row') g row'
          (run_node services policy n g)

  -- `_execute`, from the state of a start or a resumption.
  unfoldable pub execute : List Node → GraphState → RunState → Segment
  unfolding loop
  execute ns g row = loop ns (keys_of g.step_results) g row
