-- ===== src/Steps.antt =====
-- The raw step of a workflow definition (WorkflowStepSpec of
-- src/cloud_agents/workflow/core/definition.py), as both runners read it. A field of the mapping
-- that is missing or null is `none`, or the null value where the code tests the value's type.
use lightspeed_cloud_agents.Prelude.{ℕ, String, Option, none, List, Dict}
use lightspeed_cloud_agents.Json.{Value}

pub record PermissionScope : Type 0 where
  pub service_account : Option String
  pub allowed_tools : Option (List String)
  pub denied_tools : Option (List String)
  pub max_tokens : Option ℕ
  pub timeout_seconds : Option ℕ

pub record SpawnConfig : Type 0 where
  pub cpu_request : String
  pub cpu_limit : String
  pub memory_request : String
  pub memory_limit : String
  pub timeout_seconds : ℕ
  pub health_path : String
  pub sandbox_image : Option String

-- A provider mapping: its entries in order, so that unknown keys show.
abbrev pub Provider : Type 0
Provider = Dict Value

-- An entry of `mcp_servers`: a catalog name or an inline mapping.
pub data McpEntry : Type 0 where
  named : String → McpEntry
  inline : Dict Value → McpEntry

pub record RawStep : Type 0 where
  pub name : Option String
  pub kind : Option String
  pub agent : Option String
  pub prompt : Option String
  pub output_key : Option String
  pub condition : Option String
  pub message : Option String
  pub timeout_seconds : Value
  pub max_retries : Value
  pub spawn : Option String
  pub risk_level : Option String
  pub permissions : Option PermissionScope
  pub parallel_group : Option String
  pub mcp_servers : Option (List McpEntry)
  pub spawn_config : Option SpawnConfig
  pub runtime : Option String
  pub role : Option String
  pub instructions : Option String
  pub output_schema : Option (Dict Value)
  pub tools : Value
  pub context : Value
  pub service_account : Option String
  pub target_namespaces : Option (List String)
  pub allowed_skills : Option (List String)
  pub inference_provider : Option Provider
  pub provider : Option Provider

-- A step with nothing set.
abbrev pub blank : RawStep
blank = record {
  name = none;
  kind = none;
  agent = none;
  prompt = none;
  output_key = none;
  condition = none;
  message = none;
  timeout_seconds = Value.null;
  max_retries = Value.null;
  spawn = none;
  risk_level = none;
  permissions = none;
  parallel_group = none;
  mcp_servers = none;
  spawn_config = none;
  runtime = none;
  role = none;
  instructions = none;
  output_schema = none;
  tools = Value.null;
  context = Value.null;
  service_account = none;
  target_namespaces = none;
  allowed_skills = none;
  inference_provider = none;
  provider = none;
}
