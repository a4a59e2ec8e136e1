-- ===== src/Local/Judged.antt =====
-- Conditions as the local engine evaluates them: `_to_workflow_state` of
-- src/cloud_agents/workflow/executor/graph_translator.py, and `evaluate_condition` on it.
use lightspeed_cloud_agents.Prelude.{String, Bool, Option, none, some, [], ◌∷◌, codes, Dict}
use lightspeed_cloud_agents.Json.{Fields, Value, object}
use lightspeed_cloud_agents.RunStates.{StepData}
use lightspeed_cloud_agents.Conditions.{
  StepView, Verdict, verdict, unparseable, too_deep, evaluate_condition,
}

-- The output of a result is an object or nothing.
abbrev pub output_fields : Option Value → Option Fields
output_fields (some (object fields)) = some fields
output_fields _ = none

abbrev pub step_view : StepData → StepView
step_view data_ = record { status = data_.status; output = output_fields data_.output }

unfoldable pub to_workflow_state : Dict StepData → Dict StepView
to_workflow_state [] = []
to_workflow_state ((key, data_) ∷ results) = (key, step_view data_) ∷ to_workflow_state results

-- `none` is the `ValueError`; a verdict on the depth does not occur.
abbrev pub truth_of : Verdict → Option Bool
truth_of (verdict b) = some b
truth_of unparseable = none
truth_of too_deep = none

unfoldable pub condition_holds : String → Dict StepData → Option Bool
unfolding evaluate_condition to_workflow_state
condition_holds condition results =
    truth_of (evaluate_condition (to_workflow_state results) 3 (codes condition))
