-- ===== src/Local/Api.antt =====
-- The service's `POST /run`: `run_workflow` of src/cloud_agents/workflow/executor/local/api.py, with
-- `validate_workflow_tools` of src/cloud_agents/workflow/core/tool_validation.py.
mod Tests
use lightspeed_cloud_agents.Prelude.{
  ℕ, String, Bool, true, false, not, ◌||◌, Option, none, some, List, [], ◌∷◌, if◌then◌else◌,
  mem_text, Dict, lookup,
}
use lightspeed_cloud_agents.Json.{
  Items, cons, nil, Value, text, array, object, end, field, entries, truthy, text_or,
}
use lightspeed_cloud_agents.Steps.{Provider}
use lightspeed_cloud_agents.RunStates.{
  already_exists, not_terminal, missing, not_connected, StoreAnswer, fails, gives, Store, NewRun,
}
use lightspeed_cloud_agents.Local.Runner.{start}
use lightspeed_cloud_agents.Validation.{Problem, list_or_empty}
use lightspeed_cloud_agents.Validation.Policy.{ContentPolicy}
use lightspeed_cloud_agents.Validation.Submission.{
  StepEntry, no_object, step_object, ProviderEntry, absent, no_mapping, mapping, Spec,
  SubmittedDefinition, validate_definition,
}

-- The fields of the request that the handler hands on.
pub record RunWorkflowRequest : Type 0 where
  pub definition : Option Value
  pub provider : Option Provider
  pub workflow_id : Option String
  pub sandbox_image : String
  pub skills_image : Value
  pub skills_paths : Value
  pub mcp_servers : Value
  pub approval_policy : Value

-- The responses. The last one is the failure of `provider.model_dump()` on `None`.
pub data Response : Type 0 where
  started missing_definition missing_provider invalid_provider_config unknown_tool : Response
  invalid_definition invalid_model already_running store_failure none_has_no_model_dump : Response

abbrev pub status_code : Response → ℕ
status_code started = 202
status_code missing_definition = 400
status_code missing_provider = 400
status_code invalid_provider_config = 422
status_code unknown_tool = 422
status_code invalid_definition = 422
status_code invalid_model = 422
status_code already_running = 409
status_code store_failure = 500
status_code none_has_no_model_dump = 500

-- A tool of a step that is not registered. An entry that is no text is not registered; the source's
-- failure to hash a list or a mapping counts here as such an entry.
unfoldable pub has_unknown : List String → Items → Bool
has_unknown registered nil = false
has_unknown registered (cons (text t) items) =
    not (mem_text t registered) || has_unknown registered items
has_unknown registered (cons other items) = true

abbrev pub bad_tools_of : List String → Value → Bool
bad_tools_of registered (array items) = has_unknown registered items
bad_tools_of registered _ = false

unfoldable pub bad_entries : List String → List StepEntry → Bool
bad_entries registered [] = false
bad_entries registered (no_object ∷ es) = bad_entries registered es
bad_entries registered (step_object s ∷ es) =
    bad_tools_of registered s.step.tools || bad_entries registered es

abbrev pub bad_steps : List String → Option Spec → Bool
bad_steps registered none = false
bad_steps registered (some spec) = bad_entries registered (list_or_empty spec.steps)

-- The provider of the run, or why there is none.
pub data ChosenProvider : Type 0 where
  none_given not_a_provider : ChosenProvider
  chosen : Option Provider → ChosenProvider

abbrev pub stored_as : Store → StoreAnswer Store → Response × Store
stored_as before (fails already_exists) = (already_running, before)
stored_as before (fails not_terminal) = (store_failure, before)
stored_as before (fails missing) = (store_failure, before)
stored_as before (fails not_connected) = (store_failure, before)
stored_as before (gives store) = (started, store)

abbrev pub is_none_left : List Problem → Bool
is_none_left [] = true
is_none_left (p ∷ ps) = false

-- `input["definition"].get("metadata", {}).get("name", "unnamed")`; the model of a definition lets
-- only texts through there.
abbrev pub entries_of : Option Value → Dict Value
entries_of (some (object fs)) = entries fs
entries_of _ = []

abbrev pub workflow_name_of : Option Value → String
workflow_name_of (some (text name)) = name
workflow_name_of _ = "unnamed"

abbrev pub workflow_name_in : Value → String
workflow_name_in defn =
    workflow_name_of (lookup "name" (entries_of (lookup "metadata" (entries_of (some defn)))))

-- The workflow context that `start` stores.
abbrev pub context_of : RunWorkflowRequest → Value
context_of request = object (
    field "sandbox_image" (text request.sandbox_image) (
      field "skills_image" request.skills_image (
        field "skills_paths" request.skills_paths (
          field "mcp_servers" request.mcp_servers
            (field "approval_policy" request.approval_policy end)))))

-- `if not request.definition`.
abbrev pub given_definition : Option Value → Option Value
given_definition none = none
given_definition (some defn) = if truthy defn then some defn else none

-- `matches` is the search for a policy's pattern; the two tests are those of the models
-- ProviderConfig and WorkflowDefinition; `read` finds the parts of a definition's mapping, and
-- `model_dump` is that of ProviderConfig. The id of a run without one is `fresh_id`.
module _ (matches : String → String → Bool) (is_provider_config : Provider → Bool)
    (is_workflow_definition : Value → Bool) (read : Value → SubmittedDefinition)
    (model_dump : Provider → Value) (registered : List String) (policy : Option ContentPolicy)
    (fresh_id : String) where
  abbrev pub choose_provider : Option Provider → ProviderEntry → ChosenProvider
  choose_provider (some p) entry = chosen (some p)
  choose_provider none absent = none_given
  choose_provider none no_mapping = chosen none
  choose_provider none (mapping p) =
      if is_provider_config p then chosen (some p) else not_a_provider

  -- The row that `start` creates from `input_data`.
  abbrev pub run_for : RunWorkflowRequest → Value → Provider → NewRun
  run_for request defn p = record {
    workflow_id = text_or request.workflow_id fresh_id;
    workflow_name = workflow_name_in defn;
    definition = defn;
    provider = model_dump p;
    authz_context = object end;
    user_id = none;
    session_id = none;
    parent_workflow_id = none;
  }

  abbrev pub start_with :
      RunWorkflowRequest → ℕ → Store → Value → Option Provider → Response × Store
  start_with request now store defn none = (none_has_no_model_dump, store)
  start_with request now store defn (some p) =
      stored_as store (start (run_for request defn p) (context_of request) now store)

  abbrev pub checked_run :
      RunWorkflowRequest → ℕ → Store → Value → Option Provider → Response × Store
  checked_run request now store defn p =
      if bad_steps registered (read defn).spec
      then (unknown_tool, store)
      else if not (is_none_left (validate_definition matches (read defn) policy))
      then (invalid_definition, store)
      else if not (is_workflow_definition defn)
      then (invalid_model, store)
      else start_with request now store defn p

  abbrev pub with_provider :
      RunWorkflowRequest → ℕ → Store → Value → ChosenProvider → Response × Store
  with_provider request now store defn none_given = (missing_provider, store)
  with_provider request now store defn not_a_provider = (invalid_provider_config, store)
  with_provider request now store defn (chosen p) = checked_run request now store defn p

  abbrev pub with_definition : RunWorkflowRequest → ℕ → Store → Option Value → Response × Store
  with_definition request now store none = (missing_definition, store)
  with_definition request now store (some defn) =
      with_provider request now store defn (choose_provider request.provider (read defn).provider)

  unfoldable pub run_workflow : RunWorkflowRequest → ℕ → Store → Response × Store
  unfolding start validate_definition has_unknown bad_entries
  run_workflow request now store =
      with_definition request now store (given_definition request.definition)
