-- ===== src/Workflow/Handlers.antt =====
-- The handlers of a step, cut at their `await`s: `_execute_step`, `_handle_approval` and
-- `_handle_agent_step` of src/cloud_agents/workflow/executor/temporal/workflow.py.
use lightspeed_cloud_agents.Prelude.{
  ℕ, String, Bool, true, false, not, ◌&&◌, Option, none, some, [], ◌∷◌, ◌==◌, if◌then◌else◌, length,
  mem_text, Dict, lookup, insert,
}
use lightspeed_cloud_agents.Json.{Value, null, text, boolean, has_text, text_or}
use lightspeed_cloud_agents.Errors.{Result, err, ok, ◌>>=◌, ◌>>◌}
use lightspeed_cloud_agents.Steps.{RawStep}
use lightspeed_cloud_agents.Normalize.{
  workflow_defaults_from_definition, AgentStep, normalize_workflow_step,
}
use lightspeed_cloud_agents.Approval.{risk_levels, classify_step_risk}
use lightspeed_cloud_agents.Retry.{returned, raised, Final, ends, Raised, activity_error_text}
use lightspeed_cloud_agents.Providers.{enforce_provider_boundary}
use lightspeed_cloud_agents.Transcript.{Transcript, empty_transcript, truncate}
use lightspeed_cloud_agents.Workflow.{
  Status, completed, failed, skipped, denied, Reason, unknown_kind, not_normal, exhausted, reported,
  StepResult, Decision, State, WorkflowInput, ActivityResult, Thrown, activity_error, other_error,
  Task, attempting, escalating, notifying, deciding, finished, broken, emit, store,
  store_transcript, is_completed,
}

abbrev pub result_of : Status → Option (Dict Value) → Option Reason → StepResult
result_of status output error = record { status = status; output = output; error = error }

-- The outputs of an approval.
abbrev pub approved_by : String → Dict Value
approved_by how = ("approved", boolean true) ∷ (how, boolean true) ∷ []

abbrev pub text_or_null : Option String → Value
text_or_null none = null
text_or_null (some s) = text s

abbrev pub decision_output : Decision → Dict Value
decision_output d =
    ("approved", boolean (d.decision == "approved"))
    ∷ ("selected_option_id", text_or_null d.selected_option_id)
    ∷ ("approver_username", text_or_null d.approver_username)
    ∷ ("approver_uid", text_or_null d.approver_uid)
    ∷ []

-- `_activity_succeeded`, `_activity_error` and `activity_error_text` of an exception.
abbrev pub activity_succeeded : ActivityResult → Bool
activity_succeeded r = is_completed r.status

abbrev pub activity_error_of : ActivityResult → Option String
activity_error_of r = r.error

abbrev pub thrown_text : Thrown → String
thrown_text (activity_error e) = activity_error_text e
thrown_text (other_error e) = activity_error_text e

-- `AdvisoryEnforcer.annotate_output`, on an output that is there and not empty.
unfoldable pub annotate_output : Bool → Option (Dict Value) → Option (Dict Value)
annotate_output advisory none = none
annotate_output advisory (some []) = some []
annotate_output advisory (some (kv ∷ output)) =
    if advisory then some (insert "advisory" (boolean true) (kv ∷ output)) else some (kv ∷ output)

abbrev pub reported_by : Option String → Option Reason
reported_by none = none
reported_by (some e) = some (reported e)

-- The result of an approval gate that was decided.
unfoldable pub decided_result : Decision → StepResult
decided_result d =
    result_of (if d.decision == "approved" then completed else denied) (some (decision_output d))
      none

abbrev pub timeout_result : StepResult
timeout_result =
    result_of denied (some (("approved", boolean false) ∷ ("reason", text "timeout") ∷ [])) none

-- A step that ends at once: its result is stored under the key and an event is emitted.
abbrev pub conclude : RawStep → String → String → String → StepResult → State → Task × State
conclude step event name key result s =
    (finished step (some result), emit event name (store key result s))

abbrev pub decided_event : Decision → String
decided_event d = if d.decision == "approved" then "step.completed" else "step.denied"

-- A gate at its `wait_condition`: a decision settles it; otherwise the flag says whether the time is
-- up, and without either it goes on waiting.
unfoldable pub settle : RawStep → String → String → Option Decision → Bool → State → Task × State
unfolding decided_result
settle step name key (some d) expired s =
    conclude step (decided_event d) name key (decided_result d) s
settle step name key none true s = conclude step "step.denied" name key timeout_result s
settle step name key none false s = (deciding step name key, s)

unfoldable pub decide : RawStep → String → String → Bool → State → Task × State
unfolding settle
decide step name key expired s = settle step name key (lookup name s.approval_decisions) expired s

-- The risk level that `WorkflowStepSpec` accepts.
abbrev pub valid_risk : Option String → Bool
valid_risk none = true
valid_risk (some level) = mem_text level risk_levels

abbrev pub auto_approved : WorkflowInput → RawStep → String → Bool
auto_approved input step name =
    (classify_step_risk name "human-approval" step.risk_level input.approval_policy).auto_approved

-- `_handle_approval` up to its first `await`.
unfoldable pub begin_approval : WorkflowInput → RawStep → String → String → State → Task × State
begin_approval input step name key s =
    if valid_risk step.risk_level
    then if auto_approved input step name
      then conclude step "step.auto_approved" name key
          (result_of completed (some (approved_by "auto_approved")) none) s
      else (notifying step name key, emit "workflow.paused" name s)
    else (broken step, s)

-- The gate's branch of `_execute_step`.
unfoldable pub begin_gate : WorkflowInput → RawStep → String → String → State → Task × State
unfolding begin_approval
begin_gate input step name key s =
    if input.advisory
    then conclude step "step.advisory_skipped" name key
        (result_of completed (some (approved_by "advisory")) none) s
    else begin_approval input step name key s

-- `count` is pydantic's reading of a value as a non-negative integer, `holds` the evaluation of a
-- condition on the results so far, `dumps` is `json.dumps`.
module _ (count : Value → Option ℕ) (holds : String → Dict StepResult → Bool)
    (dumps : Value → String) where
  unfoldable pub prepared : WorkflowInput → RawStep → Result AgentStep
  prepared input step = do
    normalized ←
        normalize_workflow_step count step (workflow_defaults_from_definition input.definition)
          (length input.definition.steps)
    enforce_provider_boundary normalized.0.inference_provider input.provider
    ok normalized.0

  -- `_handle_agent_step` up to its first `await`.
  unfoldable pub begin_agent : WorkflowInput → RawStep → String → String → State → Task × State
  begin_agent input step name key s = elim (prepared input step) [
    | err e ↦
        conclude step "step.failed" name key (result_of failed none (some (not_normal e)))
          (store_transcript key (empty_transcript name) s)
    | ok normalized ↦ (
      attempting step normalized.name normalized.output_key normalized.max_retries,
      emit "step.started" normalized.name s,
    )
  ]

  unfoldable pub begin_named : WorkflowInput → RawStep → String → String → State → Task × State
  unfolding begin_gate begin_agent
  begin_named input step name key s =
      if has_text step.condition && not (holds (text_or step.condition "") s.steps)
      then (
        finished step none,
        emit "step.skipped" name (store key (result_of skipped none none) s),
      )
      else elim step.kind [
        | none ↦ (broken step, s)
        | some kind ↦
            if kind == "human-approval"
            then begin_gate input step name key s
            else if kind == "agent"
            then begin_agent input step name key s
            else conclude step "step.failed" name key
                (result_of failed none (some (unknown_kind kind))) s
      ]

  -- `_execute_step` up to its first `await`, for the step's name and key; a missing one is a
  -- `KeyError`.
  unfoldable pub begin_keyed :
      WorkflowInput → RawStep → Option String → Option String → State → Task × State
  unfolding begin_named
  begin_keyed input step none key s = (broken step, s)
  begin_keyed input step (some name) none s = (broken step, s)
  begin_keyed input step (some name) (some key) s = begin_named input step name key s

  unfoldable pub begin : WorkflowInput → RawStep → State → Task × State
  unfolding begin_keyed
  begin input step s = begin_keyed input step step.name step.output_key s

  -- The transcript that is kept of an activity's result.
  unfoldable pub kept_transcript : String → Option Transcript → Transcript
  kept_transcript name none = empty_transcript name
  kept_transcript name (some t) = truncate dumps 50 256 t

  unfoldable pub agent_result : WorkflowInput → ActivityResult → StepResult
  unfolding annotate_output
  agent_result input r =
      result_of r.status (annotate_output input.advisory r.output) (reported_by r.error)

  abbrev pub end_event : Status → String
  end_event status = if is_completed status then "step.completed" else "step.failed"

  -- The exhausted step's result.
  abbrev pub exhausted_result : Raised → StepResult
  exhausted_result e = result_of failed none (some (exhausted (activity_error_text e)))

  -- `_handle_agent_step` behind its attempts.
  unfoldable pub attempted :
      WorkflowInput → RawStep → String → String → Final ActivityResult Thrown → State → Task × State
  unfolding agent_result kept_transcript
  attempted input step name key (ends (returned r)) s =
      conclude step (end_event r.status) name key (agent_result input r)
        (store_transcript key (kept_transcript name r.transcript) s)
  attempted input step name key (ends (raised (activity_error e))) s = (
    escalating step name (exhausted_result e),
    emit "step.failed" name
        (store_transcript key (empty_transcript name) (store key (exhausted_result e) s)),
  )
  attempted input step name key _ s = (broken step, s)

  -- ... and behind the escalation activity, which may raise.
  unfoldable pub escalate : RawStep → String → StepResult → Option StepResult → State → Task × State
  escalate step name result none s = (broken step, s)
  escalate step name result (some escalation) s = (
    finished step (some result),
    emit "workflow.escalated" name (store "escalation" escalation s),
  )
