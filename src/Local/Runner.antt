-- ===== src/Local/Runner.antt =====
-- The local runner's calls: approvals, cancellation and queries of
-- src/cloud_agents/workflow/executor/local/executor.py, on the row of the workflow that they name, or
-- on its absence. Calls about one workflow take its lock in turn.
use lightspeed_cloud_agents.Prelude.{
  ℕ, String, Bool, not, Option, none, some, List, [], ◌∷◌, ◌==◌, if◌then◌else◌, mem_text, Dict,
  lookup, insert,
}
use lightspeed_cloud_agents.Json.{Fields, end, field, Value, boolean, object}
use lightspeed_cloud_agents.Steps.{RawStep}
use lightspeed_cloud_agents.RunStates.{
  StepData, RunEvent, RunState, StoreAnswer, fails, gives, Store, NewRun, create, with_step,
  with_event, with_status, terminal_statuses, update_workflow_context, equals_text,
}
use lightspeed_cloud_agents.Local.{GraphState, build_graph, StepServices}
use lightspeed_cloud_agents.Local.Segments.{Segment, execute}

pub record ApprovalDecision : Type 0 where
  pub step_name : String
  pub decision : String

-- `KeyError`: no such workflow, or a step without a name; `RuntimeError`: the workflow is not
-- paused, or not at this step.
pub data Refusal : Type 0 where
  no_workflow nameless_step not_paused other_step : Refusal

pub data Reply : Type 0 where
  refused : Refusal → Reply
  accepted : RunState → Reply

abbrev pub gate_key_in : String → Option RawStep → String
gate_key_in step_name none = step_name
gate_key_in step_name (some step) = elim step.output_key [ none ↦ step_name | some key ↦ key ]

-- `step_defs`, by name; a later step of the same name replaces an earlier one. `none` where a step
-- has no name.
unfoldable pub step_defs : Dict RawStep → List RawStep → Option (Dict RawStep)
step_defs defs [] = some defs
step_defs defs (step ∷ steps) = elim step.name [
  | none ↦ none
  | some name ↦ step_defs (insert name step defs) steps
]

abbrev pub decision_result : String → ApprovalDecision → StepData
decision_result key decision = record {
  step_name = key;
  status = "completed";
  output = some (object (field "approved" (boolean (decision.decision == "approved")) end));
  error = none;
}

-- The row after an approval: the gate's result, the event, and the status.
unfoldable pub approved_row : String → ApprovalDecision → ℕ → RunState → RunState
approved_row key decision now row = with_status "running" none now (
    with_event
      (record {
        kind = "step.approved";
        steps = decision.step_name ∷ [];
        detail = some decision.decision;
      })
      now (with_step (decision_result key decision) now row))

abbrev pub decided : ApprovalDecision → ℕ → RunState → Option (Dict RawStep) → Reply
decided decision now row none = refused nameless_step
decided decision now row (some defs) = accepted (
    approved_row (gate_key_in decision.step_name (lookup decision.step_name defs)) decision now row)

-- The state that `_resume_from_store` rebuilds.
abbrev pub restored : RunState → GraphState
restored row = record { step_results = row.steps; paused_at_step = none }

-- `steps_of` reads the steps of a stored definition.
module _ (steps_of : Value → List RawStep) where
  -- `_approve_inner` up to the resumption.
  unfoldable pub approve : ApprovalDecision → ℕ → Option RunState → Reply
  unfolding step_defs
  approve decision now none = refused no_workflow
  approve decision now (some row) =
      if not (row.status == "paused")
      then refused not_paused
      else if not (equals_text decision.step_name row.current_step)
      then refused other_step
      else decided decision now row (step_defs [] (steps_of row.definition))

  -- `none` where nothing is resumed: the workflow was cancelled meanwhile, or its graph is refused.
  unfoldable pub resume_from_store :
      StepServices → Option Fields → ℕ → RunState → RunState → Option Segment
  unfolding execute build_graph
  resume_from_store services policy now row refreshed =
      if refreshed.status == "cancelled"
      then none
      else elim (build_graph (steps_of row.definition)) [
        | none ↦ none
        | some ns ↦ some (execute services policy now ns (restored row) refreshed)
      ]

-- `cancel`: a running task is told to stop, which ends its segment; else the row is marked.
pub data Cancellation : Type 0 where
  unknown_workflow task_cancelled : Cancellation
  marked : RunState → Cancellation

unfoldable pub cancel : Bool → ℕ → Option RunState → Cancellation
cancel live now none = unknown_workflow
cancel live now (some row) =
    if live then task_cancelled else marked (with_status "cancelled" none now row)

pub record WorkflowStatus : Type 0 where
  pub workflow_id : String
  pub status : String
  pub steps : Dict StepData
  pub events : List RunEvent
  pub is_terminal : Bool

-- `none` is the `KeyError`.
unfoldable pub get_status : String → Option RunState → Option WorkflowStatus
get_status id none = none
get_status id (some row) = some (record {
  workflow_id = id;
  status = row.status;
  steps = row.steps;
  events = row.events;
  is_terminal = mem_text row.status terminal_statuses;
})

-- `start`, up to the task that it creates: the row with its workflow context.
abbrev pub then_store : StoreAnswer Store → (Store → StoreAnswer Store) → StoreAnswer Store
then_store (fails e) next = fails e
then_store (gives store) next = next store

unfoldable pub start : NewRun → Value → ℕ → Store → StoreAnswer Store
unfolding create update_workflow_context
start run context now store =
    then_store (create run now store) (update_workflow_context run.workflow_id context now)

abbrev pub fresh_state : GraphState
fresh_state = record { step_results = []; paused_at_step = none }

-- The task's segment.
unfoldable pub first_segment :
    StepServices → Option Fields → ℕ → List RawStep → RunState → Option Segment
unfolding execute build_graph
first_segment services policy now steps row = elim (build_graph steps) [
  | none ↦ none
  | some ns ↦ some (execute services policy now ns fresh_state row)
]
