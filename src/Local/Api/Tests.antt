-- ===== src/Local/Api/Tests.antt =====
-- A request that starts a run, and one that does not.
use lightspeed_cloud_agents.Credentials.{reject_secret_bearing_mcp}
use lightspeed_cloud_agents.Prelude.{
  String, ◌≡◌, refl, Bool, true, false, none, some, [], ◌∷◌, map, is_word, is_space, starts_with,
  contains, same_text, lookup,
}
use lightspeed_cloud_agents.Json.{end, field, Value, null, text, object, entries}
use lightspeed_cloud_agents.Steps.{Provider, blank}
use lightspeed_cloud_agents.RunStates.{Store, find}
use lightspeed_cloud_agents.Validation.Policy.{Submitted, evaluate_content_policy}
use lightspeed_cloud_agents.Validation.Submission.{
  step_object, absent, SubmittedDefinition, check_steps, validate_definition,
}
use lightspeed_cloud_agents.Local.Api.{
  RunWorkflowRequest, Response, started, missing_provider, run_workflow,
}
use lightspeed_cloud_agents.Local.Accepted.{IsJustified, run_workflow-IsJustified}

abbrev step_of : String → String → Submitted
step_of name key = record {
  fields = ("name", true) ∷ ("output_key", true) ∷ ("prompt", true) ∷ [];
  step = record blank { name = some name; output_key = some key; prompt = some "Look." };
}

abbrev two_steps : SubmittedDefinition
two_steps = record {
  fields = "metadata" ∷ "spec" ∷ [];
  provider = absent;
  spec = some (record {
    fields = "steps" ∷ [];
    steps = some (map step_object (step_of "a" "ka" ∷ step_of "b" "kb" ∷ []));
    mcp_servers = none;
  });
}

abbrev named_clean : Value
named_clean =
    object
      (field "metadata" (object (field "name" (text "clean") end)) (field "spec" (object end) end))

abbrev reads_two : Value → SubmittedDefinition
reads_two v = two_steps

abbrev dump : Provider → Value
dump p = text "openai"

abbrev no_pattern : String → String → Bool
no_pattern pattern s = false

abbrev request_with : RunWorkflowRequest
request_with = record {
  definition = some named_clean;
  provider = some (("name", text "openai") ∷ []);
  workflow_id = none;
  sandbox_image = "sandbox:latest";
  skills_image = null;
  skills_paths = null;
  mcp_servers = null;
  approval_policy = null;
}

abbrev empty_store : Store
empty_store = record { connected = true; rows = [] }

abbrev answer_to : RunWorkflowRequest → Response × Store
answer_to request =
    run_workflow no_pattern (λ p. true) (λ d. true) reads_two dump [] none "wf-1" request 1
      empty_store

accepted : (answer_to request_with).0 ≡ started
unfolding run_workflow validate_definition check_steps starts_with is_space is_word same_text
    reject_secret_bearing_mcp evaluate_content_policy contains find
accepted = refl

stored_as_submitted : map (λ row. row.workflow_name) (answer_to request_with).1.rows ≡ "clean" ∷ []
unfolding run_workflow validate_definition check_steps starts_with is_space is_word same_text
    reject_secret_bearing_mcp evaluate_content_policy contains find lookup entries
stored_as_submitted = refl

without_provider : (answer_to (record request_with { provider = none })).0 ≡ missing_provider
unfolding run_workflow
without_provider = refl

run_workflow-IsJustified_example :
    IsJustified no_pattern
      (λ p. true)
      (λ d. true)
      reads_two
      dump
      []
      none
      "wf-1"
      request_with
      1
      empty_store
      (answer_to request_with)
run_workflow-IsJustified_example =
    run_workflow-IsJustified no_pattern (λ p. true) (λ d. true) reads_two dump [] none "wf-1"
      request_with 1 empty_store
