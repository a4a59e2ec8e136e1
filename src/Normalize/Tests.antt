-- ===== src/Normalize/Tests.antt =====
-- The theorems on normalization at concrete inputs, and runs of the code.
use lightspeed_cloud_agents.Prelude.{
  ℕ, String, ◌≡◌, refl, Option, none, some, List, [], ◌∷◌, length, Dict, lookup,
}
use lightspeed_cloud_agents.Json.{Value, null, natural, text, option_or}
use lightspeed_cloud_agents.Errors.{names_missing, Result, ok, err, Ensures}
use lightspeed_cloud_agents.Steps.{RawStep, blank}
use lightspeed_cloud_agents.Credentials.{reject_secret_bearing_mcp}
use lightspeed_cloud_agents.Scope.{collapse_permissions}
use lightspeed_cloud_agents.Normalize.{
  Defaults, Definition, merge_context, AgentStep, Meta, Entry, normalize_workflow_step,
  normalize_definition,
}
use lightspeed_cloud_agents.Normalize.Guarantees.{normalize_workflow_step-IsNormal, IsNormal}
use lightspeed_cloud_agents.Normalize.Names.{normalize_definition-IsNamed, IsNamed}
use lightspeed_cloud_agents.Normalize.Contexts.{lookup-merge_context}

-- Reads integers and nothing else.
abbrev integers : Value → Option ℕ
integers (natural n) = some n
integers _ = none

abbrev no_defaults : Defaults
no_defaults = record {
  provider = none;
  timeout_seconds = null;
  spawn = none;
  spawn_config = none;
  service_account = none;
  mcp_servers = none;
  allowed_skills = none;
  permissions = none;
  context = null;
}

abbrev one_step : RawStep
one_step = record blank {
  prompt = some "look";
  max_retries = natural 2;
  timeout_seconds = natural 60;
}

abbrev normal_name : Result (AgentStep × Meta) → Option (String × String × ℕ)
normal_name (ok (s, m)) = some (s.name, s.output_key, s.max_retries)
normal_name (err e) = none

one_step_names :
    normal_name (normalize_workflow_step integers one_step no_defaults 1)
    ≡ some ("agent", "result", 2)
unfolding normalize_workflow_step collapse_permissions reject_secret_bearing_mcp
one_step_names = refl

unnamed_refused : normalize_workflow_step integers one_step no_defaults 2 ≡ err names_missing
unfolding normalize_workflow_step
unnamed_refused = refl

normalize_workflow_step-IsNormal_example :
    Ensures
      (IsNormal one_step no_defaults 1)
      (normalize_workflow_step integers one_step no_defaults 1)
normalize_workflow_step-IsNormal_example =
    normalize_workflow_step-IsNormal integers one_step no_defaults 1

abbrev review : Definition
review = record {
  name = "review";
  provider = none;
  timeout_seconds = null;
  spawn = some "local";
  spawn_config = none;
  service_account = none;
  mcp_servers = none;
  allowed_skills = none;
  permissions = none;
  context = null;
  steps =
      record blank { name = some "a"; output_key = some "x" }
      ∷ record blank { name = some "ok"; output_key = some "y"; kind = some "human-approval" }
      ∷ [];
}

abbrev normal_sizes : Result (List AgentStep × List Entry) → Option (ℕ × ℕ)
normal_sizes (ok (ss, ms)) = some (length ss, length ms)
normal_sizes (err e) = none

review_sizes : normal_sizes (normalize_definition integers review) ≡ some (1, 2)
unfolding normalize_definition collapse_permissions reject_secret_bearing_mcp
review_sizes = refl

normalize_definition-IsNamed_example :
    Ensures (IsNamed [] review.steps) (normalize_definition integers review)
normalize_definition-IsNamed_example = normalize_definition-IsNamed integers review

abbrev shared : Dict Value
shared = ("region", text "eu") ∷ ("team", text "sre") ∷ []

abbrev own_context : Dict Value
own_context = ("region", text "us") ∷ []

lookup-merge_context_example :
    lookup "region" (merge_context shared own_context)
    ≡ option_or (lookup "region" own_context) (lookup "region" shared)
unfolding lookup
lookup-merge_context_example = lookup-merge_context "region" shared own_context (refl, tt)
