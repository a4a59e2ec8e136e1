-- ===== src/Workflow/Tests.antt =====
-- The engine's theorem at a concrete run, and runs of the engine.
use lightspeed_cloud_agents.Prelude.{
  ℕ, String, ◌≡◌, refl, Bool, false, Option, none, some, List, [], ◌∷◌, map, Dict, lookup, insert,
}
use lightspeed_cloud_agents.Json.{Value, null, text}
use lightspeed_cloud_agents.Steps.{Provider, RawStep, blank}
use lightspeed_cloud_agents.Workflow.{
  StepResult, Decision, initial_state, WorkflowInput, deciding, step_of, approve,
}
use lightspeed_cloud_agents.Workflow.Engine.{
  Phase, running, over, World, go, timer, Happening, approval, resume, next, steps_of, happen,
  run_of,
}
use lightspeed_cloud_agents.Workflow.Selection.{
  activity_provider, activity_provider-Selects, Selects,
}
use lightspeed_cloud_agents.Providers.{InferenceProviderSpec}
use lightspeed_cloud_agents.Workflow.Gates.Runs.{Guarded, run_of-Guarded}

abbrev gate_step : RawStep
gate_step = record blank { name = some "ok"; output_key = some "o"; kind = some "human-approval" }

abbrev fix_step : RawStep
fix_step = record blank { name = some "fix"; output_key = some "f"; kind = some "agent" }

abbrev gated : WorkflowInput
gated = record {
  definition = record {
    name = "gated";
    provider = none;
    timeout_seconds = null;
    spawn = none;
    spawn_config = none;
    service_account = none;
    mcp_servers = none;
    allowed_skills = none;
    permissions = none;
    context = null;
    steps = gate_step ∷ fix_step ∷ [];
  };
  provider = ("name", text "openai") ∷ ("model", text "m") ∷ [];
  approval_policy = record { auto_approve_risk_levels = "low" ∷ []; default_risk = "medium" };
  advisory = false;
}

abbrev decision_of : String → Decision
decision_of word = record {
  decision = word;
  selected_option_id = none;
  approver_username = some "ann";
  approver_uid = none;
}

abbrev never_holds : String → Dict StepResult → Bool
never_holds c results = false

abbrev no_count : Value → Option ℕ
no_count v = none

abbrev no_dumps : Value → String
no_dumps v = "?"

-- The gate is begun, its approvers are told, a decision comes in, the gate takes it, and the loop
-- goes on; the latest happening stands first.
abbrev gate_run : String → List Happening
gate_run word =
    next
    ∷ resume 0 (timer false)
    ∷ approval "ok" (decision_of word)
    ∷ resume 0 go
    ∷ resume 0 go
    ∷ next
    ∷ []

abbrev now_at : World → Phase × List RawStep
now_at w = (w.phase, map step_of w.tasks)

abbrev at_gate : String → World
at_gate word = record {
  state = approve "ok" (decision_of word) initial_state;
  tasks = deciding gate_step "ok" "o" ∷ [];
  rest = record { group = none; members = fix_step ∷ [] } ∷ [];
  phase = running;
}

abbrev decided_world : String → World
decided_world word =
    happen no_count never_holds no_dumps gated next
      (happen no_count never_holds no_dumps gated (resume 0 (timer false)) (at_gate word))

approved_goes_on : now_at (decided_world "approved") ≡ (running, fix_step ∷ [])
unfolding happen approve lookup insert
approved_goes_on = refl

denied_ends : now_at (decided_world "denied") ≡ (over, gate_step ∷ [])
unfolding happen approve lookup insert
denied_ends = refl

run_of-Guarded_example :
    Guarded never_holds gated
      (gate_run "approved")
      (steps_of gated.definition.steps)
      (run_of no_count never_holds no_dumps gated (gate_run "approved"))
run_of-Guarded_example = run_of-Guarded never_holds gated no_count no_dumps (gate_run "approved")

abbrev run_openai : Provider
run_openai = ("name", text "openai") ∷ ("model", text "a") ∷ []

abbrev definition_gemini : Provider
definition_gemini = ("name", text "gemini") ∷ ("credentials_secret", text "gemini-key") ∷ []

abbrev step_openai : InferenceProviderSpec
step_openai = record { name = "openai"; model = "b" }

activity_provider-Selects_example :
    Selects step_openai run_openai
      (some definition_gemini)
      (activity_provider (some step_openai) run_openai (some definition_gemini))
activity_provider-Selects_example =
    activity_provider-Selects step_openai run_openai (some definition_gemini)

-- The reference that comes with the definition's provider is bound to another provider.
foreign_reference :
    lookup "credentials_secret"
      (activity_provider (some step_openai) run_openai (some definition_gemini))
    ≡ some (text "gemini-key")
unfolding activity_provider lookup insert
foreign_reference = refl
