-- ===== src/Validation/Tests.antt =====
-- A definition with two steps.
use lightspeed_cloud_agents.Credentials.{reject_secret_bearing_mcp}
use lightspeed_cloud_agents.Prelude.{
  String, ◌≡◌, refl, ◌↔◌, Bool, true, none, some, List, [], ◌∷◌, map, All, codes, is_word, is_space,
  starts_with, contains, same_text,
}
use lightspeed_cloud_agents.Steps.{blank}
use lightspeed_cloud_agents.Validation.{undefined_reference}
use lightspeed_cloud_agents.Validation.Policy.{ContentPolicy, Submitted, evaluate_content_policy}
use lightspeed_cloud_agents.Validation.Submission.{
  step_object, absent, SubmittedDefinition, check_steps, validate_definition,
}
use lightspeed_cloud_agents.Validation.Graph.{IsFit, validate_definition-IsFit}
use lightspeed_cloud_agents.Validation.Compliance.{IsCompliant, evaluate_content_policy_iff}

abbrev step_a : Submitted
step_a = record {
  fields = ("name", true) ∷ ("output_key", true) ∷ ("prompt", true) ∷ [];
  step = record blank { name = some "a"; output_key = some "ka"; prompt = some "Look." };
}

abbrev step_b : Submitted
step_b = record {
  fields = ("name", true) ∷ ("output_key", true) ∷ ("prompt", true) ∷ [];
  step = record blank {
    name = some "b";
    output_key = some "kb";
    prompt = some "Use {{ steps.ka.output.x }}.";
  };
}

abbrev definition_of : List Submitted → SubmittedDefinition
definition_of ss = record {
  fields = "metadata" ∷ "spec" ∷ [];
  provider = absent;
  spec =
      some
        (record { fields = "steps" ∷ []; steps = some (map step_object ss); mcp_servers = none });
}

abbrev strict : ContentPolicy
strict = record {
  max_prompt_length = 40;
  blocked_patterns = record { pattern = "ignore"; reason = "injection" } ∷ [];
  required_fields = "prompt" ∷ [];
  allowed_namespaces = some ("dev" ∷ []);
}

-- A search for plain text.
abbrev has_plain : String → String → Bool
has_plain pattern s = contains (codes s) (codes pattern)

no_complaints :
    validate_definition has_plain (definition_of (step_a ∷ step_b ∷ [])) (some strict) ≡ []
unfolding validate_definition check_steps starts_with is_space is_word same_text
    reject_secret_bearing_mcp evaluate_content_policy contains
no_complaints = refl

validate_definition-IsFit_example : IsFit (definition_of (step_a ∷ step_b ∷ []))
validate_definition-IsFit_example =
    validate_definition-IsFit has_plain (definition_of (step_a ∷ step_b ∷ [])) (some strict)
      no_complaints

evaluate_content_policy_iff_example :
    (evaluate_content_policy has_plain (step_a ∷ step_b ∷ []) (some strict) ≡ [])
    ↔ All (IsCompliant has_plain strict) (step_a ∷ step_b ∷ [])
evaluate_content_policy_iff_example =
    evaluate_content_policy_iff has_plain strict (step_a ∷ step_b ∷ [])

-- A prompt may refer to the output of its own step.
abbrev selfish : Submitted
selfish = record step_a { step = record step_a.step { prompt = some "{{ steps.ka.output.x }}" } }

own_output_passes : validate_definition has_plain (definition_of (selfish ∷ step_b ∷ [])) none ≡ []
unfolding validate_definition check_steps starts_with is_space is_word same_text
    reject_secret_bearing_mcp evaluate_content_policy contains
own_output_passes = refl

later_output_refused :
    validate_definition has_plain (definition_of (step_b ∷ step_a ∷ [])) none
    ≡ undefined_reference "b" (codes "ka") ∷ []
unfolding validate_definition check_steps starts_with is_space is_word same_text
    reject_secret_bearing_mcp evaluate_content_policy contains
later_output_refused = refl
