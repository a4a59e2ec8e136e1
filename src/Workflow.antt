-- ===== src/Workflow.antt =====
-- The Temporal engine: `AgentWorkflow` of src/cloud_agents/workflow/executor/temporal/workflow.py.
-- This file has the state, the results of steps, and the tasks that `asyncio` switches between.
pub mod Handlers
pub mod Engine
pub mod Selection
pub mod Gates
mod Tests
use lightspeed_cloud_agents.Prelude.{
  ℕ, String, Bool, true, false, Option, none, some, List, [], ◌∷◌, ◌++◌, Dict, insert,
}
use lightspeed_cloud_agents.Json.{Value}
use lightspeed_cloud_agents.Errors.{Error}
use lightspeed_cloud_agents.Steps.{Provider, RawStep}
use lightspeed_cloud_agents.Normalize.{Definition}
use lightspeed_cloud_agents.Approval.{ApprovalPolicy}
use lightspeed_cloud_agents.Retry.{Raised}
use lightspeed_cloud_agents.Transcript.{Transcript}

pub data Status : Type 0 where
  completed failed skipped escalated denied : Status

-- The text of an error, by what it is made from.
pub data Reason : Type 0 where
  unknown_kind : String → Reason
  not_normal : Error → Reason
  exhausted : String → Reason
  reported : String → Reason

pub record StepResult : Type 0 where
  pub status : Status
  pub output : Option (Dict Value)
  pub error : Option Reason

pub record Decision : Type 0 where
  pub decision : String
  pub selected_option_id : Option String
  pub approver_username : Option String
  pub approver_uid : Option String

-- An event without its time stamp.
pub record WorkflowEvent : Type 0 where
  pub kind : String
  pub step : String

pub record State : Type 0 where
  pub steps : Dict StepResult
  pub approval_decisions : Dict Decision
  pub events : List WorkflowEvent
  pub step_transcripts : Dict Transcript
  pub session_results : Dict (Dict Value)

abbrev pub initial_state : State
initial_state = record {
  steps = [];
  approval_decisions = [];
  events = [];
  step_transcripts = [];
  session_results = [];
}

pub record WorkflowInput : Type 0 where
  pub definition : Definition
  pub provider : Provider
  pub approval_policy : ApprovalPolicy
  pub advisory : Bool

-- What the `run_sandbox_step` activity gives back.
pub record ActivityResult : Type 0 where
  pub status : Status
  pub output : Option (Dict Value)
  pub error : Option String
  pub transcript : Option Transcript

-- An exception of an activity, or any other that the handlers do not catch.
pub data Thrown : Type 0 where
  activity_error : Raised → Thrown
  other_error : Raised → Thrown

-- Where the coroutine of one step stands: at one of its `await`s, at its end, or stopped by an
-- exception.
pub data Task : Type 0 where
  waiting : RawStep → Task
  attempting : RawStep → String → String → ℕ → Task
  escalating : RawStep → String → StepResult → Task
  notifying : RawStep → String → String → Task
  deciding : RawStep → String → String → Task
  finished : RawStep → Option StepResult → Task
  broken : RawStep → Task

abbrev pub step_of : Task → RawStep
step_of (waiting step) = step
step_of (attempting step _ _ _) = step
step_of (escalating step _ _) = step
step_of (notifying step _ _) = step
step_of (deciding step _ _) = step
step_of (finished step _) = step
step_of (broken step) = step

-- `_emit`.
abbrev pub emit : String → String → State → State
emit kind step s = record s { events = s.events ++ (record { kind = kind; step = step } ∷ []) }

-- `self._steps[key] = result`, and the same for a transcript.
abbrev pub store : String → StepResult → State → State
store key result s = record s { steps = insert key result s.steps }

abbrev pub store_transcript : String → Transcript → State → State
store_transcript key t s = record s { step_transcripts = insert key t s.step_transcripts }

abbrev pub is_completed : Status → Bool
is_completed completed = true
is_completed _ = false

-- `status in ("failed", "denied")`, of a result that is there.
abbrev pub stops : Option StepResult → Bool
stops none = false
stops (some r) = elim r.status [ failed ↦ true | denied ↦ true | _ ↦ false ]

-- The signals.
pub approve : String → Decision → State → State
approve step_name decision s = record s {
  approval_decisions = insert step_name decision s.approval_decisions;
}

pub session_result : String → Dict Value → State → State
session_result session_id result_data s = record s {
  session_results = insert session_id result_data s.session_results;
}
