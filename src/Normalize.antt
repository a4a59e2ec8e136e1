-- ===== src/Normalize.antt =====
-- Normalization: `normalize_workflow_step`, `normalize_definition` and their helpers of
-- src/cloud_agents/workflow/core/execution.py.
pub mod Guarantees
pub mod Contexts
pub mod Names
mod Tests
use lightspeed_cloud_agents.Prelude.{
  ℕ, String, Bool, true, false, not, ◌&&◌, ◌||◌, Option, none, some, List, [], ◌∷◌, nat_eq, ◌==◌,
  if◌then◌else◌, length, mem_text, Dict, lookup, insert,
}
use lightspeed_cloud_agents.Json.{
  Value, null, natural, text, array, object, Items, nil, cons, or_else, entries, text_or, option_or,
}
use lightspeed_cloud_agents.Errors.{
  Error, names_missing, human_approval_step, unknown_step_type, name_required, bad_timeout,
  bad_tools, bad_workflow_context, bad_step_context, invalid_step, duplicate_step_name, Result, ok,
  err, ◌>>=◌, ◌>>◌, refuse,
}
use lightspeed_cloud_agents.Steps.{PermissionScope, SpawnConfig, Provider, McpEntry, RawStep}
use lightspeed_cloud_agents.Credentials.{reject_secret_bearing_mcp}
use lightspeed_cloud_agents.Providers.{
  InferenceProviderSpec, validate_inference_provider, inference_spec_from_provider_config,
}
use lightspeed_cloud_agents.Scope.{PermissionMeta, collapse_permissions}

-- `d.get(key, default)`.
abbrev pub text_if_given : Option String → String → String
text_if_given none d = d
text_if_given (some s) d = s

abbrev pub or_text : Option String → String → Option String
or_text none d = some d
or_text (some s) d = some s

abbrev pub is_missing : Option String → Bool
is_missing none = true
is_missing (some s) = false

unfoldable pub apply_one_step_defaults : RawStep → ℕ → Result RawStep
apply_one_step_defaults step step_count = do
  refuse ((is_missing step.name || is_missing step.output_key) && not (nat_eq step_count 1))
      names_missing
  ok (record step {
    kind = or_text step.kind "agent";
    name = or_text step.name "agent";
    output_key = or_text step.output_key "result";
  })

-- The shared values of a definition's `spec`, and its provider.
pub record Defaults : Type 0 where
  pub provider : Option Provider
  pub timeout_seconds : Value
  pub spawn : Option String
  pub spawn_config : Option SpawnConfig
  pub service_account : Option String
  pub mcp_servers : Option (List McpEntry)
  pub allowed_skills : Option (List String)
  pub permissions : Option PermissionScope
  pub context : Value

pub record Definition : Type 0 where
  pub name : String
  pub provider : Option Provider
  pub timeout_seconds : Value
  pub spawn : Option String
  pub spawn_config : Option SpawnConfig
  pub service_account : Option String
  pub mcp_servers : Option (List McpEntry)
  pub allowed_skills : Option (List String)
  pub permissions : Option PermissionScope
  pub context : Value
  pub steps : List RawStep

pub workflow_defaults_from_definition : Definition → Defaults
workflow_defaults_from_definition d = record {
  provider = d.provider;
  timeout_seconds = d.timeout_seconds;
  spawn = d.spawn;
  spawn_config = d.spawn_config;
  service_account = d.service_account;
  mcp_servers = d.mcp_servers;
  allowed_skills = d.allowed_skills;
  permissions = d.permissions;
  context = d.context;
}

-- `merged.update(step_context)`.
pub merge_context : Dict Value → Dict Value → Dict Value
unfolding insert
merge_context workflow_context [] = workflow_context
merge_context workflow_context ((k, v) ∷ step_context) =
    merge_context (insert k v workflow_context) step_context

-- The image of a configuration, where it has one.
abbrev pub image_of : Option SpawnConfig → Option String
image_of none = none
image_of (some c) = elim c.sandbox_image [ none ↦ none | some i ↦ if i == "" then none else some i ]

pub resolve_sandbox_image : Option SpawnConfig → Option SpawnConfig → Option String → String
resolve_sandbox_image spawn_config default_config run_image = elim (image_of spawn_config) [
  | some i ↦ i
  | none ↦ elim (image_of default_config) [ some i ↦ i | none ↦ text_or run_image "sandbox:latest" ]
]

-- WorkflowAgentStep: the execution fields and the orchestration fields.
pub record AgentStep : Type 0 where
  pub prompt : String
  pub instructions : Option String
  pub inference_provider : Option InferenceProviderSpec
  pub tools : List String
  pub mcp_servers : Option (List McpEntry)
  pub allowed_skills : Option (List String)
  pub permissions : Option PermissionScope
  pub spawn : String
  pub spawn_config : Option SpawnConfig
  pub output_schema : Option (Dict Value)
  pub context : Dict Value
  pub timeout_seconds : Option ℕ
  pub name : String
  pub output_key : String
  pub condition : Option String
  pub max_retries : ℕ
  pub parallel_group : Option String
  pub role : Option String

pub record Meta : Type 0 where
  pub kind : String
  pub agent : Option String
  pub message : Option String
  pub runtime : Option String
  pub permission : PermissionMeta

-- The timeout of a step or of the defaults: a positive integer where there is one.
pub check_timeout : Value → Result (Option ℕ)
check_timeout null = ok none
check_timeout (natural n) = if nat_eq n 0 then err bad_timeout else ok (some n)
check_timeout _ = err bad_timeout

-- Whether the provider mapping came from the defaults, and the mapping.
abbrev pub chosen_provider :
    Option Provider → Option Provider → Option Provider → Option (Bool × Provider)
chosen_provider (some p) q d = some (false, p)
chosen_provider none (some q) d = some (false, q)
chosen_provider none none (some d) = some (true, d)
chosen_provider none none none = none

abbrev pub has_key : String → Dict Value → Bool
has_key k d = elim (lookup k d) [ none ↦ false | some v ↦ true ]

pub resolve_provider : Option (Bool × Provider) → Result (Option InferenceProviderSpec)
resolve_provider none = ok none
resolve_provider (some (from_defaults, mapping)) = do
  spec ←
      if from_defaults && (has_key "credentials_secret" mapping || has_key "model_provider" mapping)
      then inference_spec_from_provider_config mapping
      else validate_inference_provider mapping
  ok (some spec)

-- The tool names of a list of texts.
pub tool_names : Items → Result (List String)
tool_names nil = ok []
tool_names (cons (text t) vs) = do rest ← tool_names vs; ok (t ∷ rest)
tool_names (cons v vs) = err invalid_step

pub check_tools : Value → Result (List String)
unfolding tool_names
check_tools null = ok []
check_tools (array vs) = tool_names vs
check_tools _ = err bad_tools

pub check_context : Error → Value → Result (Dict Value)
check_context e null = ok []
check_context e (object fs) = ok (entries fs)
check_context e _ = err e

abbrev pub to_result {ℓ} : {A : Type ℓ} → Error → Option A → Result A
to_result e none = err e
to_result e (some a) = ok a

abbrev pub filled : Option String → Option String
filled none = none
filled (some s) = if s == "" then none else some s

-- The fields of the model that are restricted to a list of texts.
abbrev pub valid_role : Option String → Bool
valid_role none = true
valid_role (some r) = mem_text r ("analysis" ∷ "execution" ∷ "verification" ∷ [])

abbrev pub valid_spawn : String → Bool
valid_spawn s = mem_text s ("none" ∷ "local" ∷ "ephemeral" ∷ [])

-- The metadata of one step of a definition: an agent step's, or an approval gate's name, message,
-- output key and condition.
pub data Entry : Type 0 where
  agent_entry : Meta → Entry
  gate_entry : String → Option String → Option String → Option String → Entry

abbrev pub is_gate : RawStep → Bool
is_gate step = elim step.kind [ none ↦ false | some k ↦ k == "human-approval" ]

-- The first loop of `normalize_definition`: no name that is given occurs twice.
pub check_names : List String → List RawStep → Result (Unit {0})
check_names seen [] = ok tt
check_names seen (raw ∷ rest) = elim raw.name [
  | none ↦ check_names seen rest
  | some name ↦ refuse (mem_text name seen) duplicate_step_name >> check_names (name ∷ seen) rest
]

-- `count` is pydantic's reading of a value as a non-negative integer.
module _ (count : Value → Option ℕ) where
  -- `raw.get("max_retries", 0)`, validated.
  abbrev pub retries_of : Value → Result ℕ
  retries_of null = ok 0
  retries_of v = to_result invalid_step (count v)

  pub normalize_workflow_step : RawStep → Defaults → ℕ → Result (AgentStep × Meta)
  unfolding apply_one_step_defaults check_timeout resolve_provider check_tools check_context
      merge_context
  normalize_workflow_step step defaults step_count = do
    raw ← apply_one_step_defaults step step_count
    let kind = text_or raw.kind ""
    refuse (kind == "human-approval") human_approval_step
    refuse (not (kind == "agent")) unknown_step_type
    name ← to_result name_required (filled raw.name)
    timeout ← check_timeout (or_else raw.timeout_seconds defaults.timeout_seconds)
    provider ←
        resolve_provider (chosen_provider raw.inference_provider raw.provider defaults.provider)
    mcp_servers ← reject_secret_bearing_mcp (option_or raw.mcp_servers defaults.mcp_servers)
    collapsed ←
        collapse_permissions (option_or raw.permissions defaults.permissions)
          (option_or raw.service_account defaults.service_account) raw.risk_level
          raw.target_namespaces
    let spawn = text_if_given (option_or raw.spawn defaults.spawn) "ephemeral"
    tools ← check_tools raw.tools
    workflow_context ← check_context bad_workflow_context defaults.context
    step_context ← check_context bad_step_context raw.context
    refuse (not (valid_spawn spawn)) invalid_step
    output_key ← to_result invalid_step raw.output_key
    max_retries ← retries_of raw.max_retries
    refuse (not (valid_role raw.role)) invalid_step
    ok (
      record {
        prompt = text_if_given raw.prompt "";
        instructions = raw.instructions;
        inference_provider = provider;
        tools = tools;
        mcp_servers = mcp_servers;
        allowed_skills = option_or raw.allowed_skills defaults.allowed_skills;
        permissions = collapsed.0;
        spawn = spawn;
        spawn_config = option_or raw.spawn_config defaults.spawn_config;
        output_schema = raw.output_schema;
        context = merge_context workflow_context step_context;
        timeout_seconds = timeout;
        name = name;
        output_key = output_key;
        condition = raw.condition;
        max_retries = max_retries;
        parallel_group = raw.parallel_group;
        role = raw.role;
      },
      record {
        kind = kind;
        agent = raw.agent;
        message = raw.message;
        runtime = raw.runtime;
        permission = collapsed.1;
      },
    )

  -- The second loop, with the names used so far: the agent steps and the metadata of all steps.
  pub normalize_steps :
      List String → List RawStep → Defaults → ℕ → Result (List AgentStep × List Entry)
  unfolding normalize_workflow_step
  normalize_steps used [] defaults step_count = ok ([], [])
  normalize_steps used (raw ∷ raws) defaults step_count =
      let gate_case = (do
        gate ← apply_one_step_defaults raw step_count
        let name = text_if_given gate.name ""
        refuse (mem_text name used) duplicate_step_name
        rest ← normalize_steps (name ∷ used) raws defaults step_count
        ok (rest.0, gate_entry name gate.message gate.output_key gate.condition ∷ rest.1)) in
      let agent_case = (do
        normalized ← normalize_workflow_step raw defaults step_count
        refuse (mem_text normalized.0.name used) duplicate_step_name
        rest ← normalize_steps (normalized.0.name ∷ used) raws defaults step_count
        ok (normalized.0 ∷ rest.0, agent_entry normalized.1 ∷ rest.1)) in
      if is_gate raw then gate_case else agent_case

  pub normalize_definition : Definition → Result (List AgentStep × List Entry)
  unfolding normalize_steps check_names workflow_defaults_from_definition
  normalize_definition definition = do
    check_names [] definition.steps
    normalize_steps [] definition.steps (workflow_defaults_from_definition definition)
        (length definition.steps)
