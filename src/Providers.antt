-- ===== src/Providers.antt =====
-- Provider selection: `validate_inference_provider`, `inference_spec_from_provider_config`,
-- `enforce_provider_boundary` and the selection in `build_step_input` of
-- src/cloud_agents/workflow/core/execution.py.
pub mod Boundary
mod Tests
use lightspeed_cloud_agents.Prelude.{
  String, Bool, true, false, not, ◌&&◌, Option, none, some, List, [], ◌∷◌, ◌==◌, if◌then◌else◌,
  mem_text, Dict, lookup,
}
use lightspeed_cloud_agents.Json.{Value, null, text, truthy, or_else}
use lightspeed_cloud_agents.Errors.{
  invalid_provider, unapproved_provider, unknown_provider_fields, no_run_provider, cross_provider,
  Result, ok, err, ◌>>=◌, ◌>>◌, refuse,
}
use lightspeed_cloud_agents.Steps.{Provider}
use lightspeed_cloud_agents.Credentials.{validate_credential_reference}

pub record InferenceProviderSpec : Type 0 where
  pub name : String
  pub model : String

-- SUPPORTED_PROVIDER_NAMES, the keys of `_PROVIDER_NAME_MAP`.
abbrev pub supported_provider_names : List String
supported_provider_names = "openai" ∷ "anthropic" ∷ "claude" ∷ "gemini" ∷ "azure" ∷ "bedrock" ∷ []

-- The keys of a mapping lie in a list.
abbrev pub keys_within : List String → Dict Value → Bool
keys_within allowed [] = true
keys_within allowed ((k, v) ∷ d) = mem_text k allowed && keys_within allowed d

-- A filled text field.
abbrev pub filled_text : Option Value → Option String
filled_text (some (text s)) = if s == "" then none else some s
filled_text _ = none

abbrev pub spec_of : Option String → Option String → Result InferenceProviderSpec
spec_of (some n) (some m) = ok (record { name = n; model = m })
spec_of (some n) none = err invalid_provider
spec_of none m = err invalid_provider

-- `InferenceProviderSpec.model_validate`: two filled texts and no other field.
pub parse_spec : Provider → Result InferenceProviderSpec
unfolding lookup
parse_spec raw =
    if keys_within ("name" ∷ "model" ∷ []) raw
    then spec_of (filled_text (lookup "name" raw)) (filled_text (lookup "model" raw))
    else err invalid_provider

unfoldable pub validate_inference_provider : Provider → Result InferenceProviderSpec
unfolding parse_spec
validate_inference_provider raw = do
  spec ← parse_spec raw
  refuse (not (mem_text spec.name supported_provider_names)) unapproved_provider
  ok spec

abbrev pub value_of : Option Value → Value
value_of none = null
value_of (some v) = v

unfoldable pub inference_spec_from_provider_config : Provider → Result InferenceProviderSpec
unfolding validate_inference_provider
inference_spec_from_provider_config raw = do
  refuse (not (keys_within ("name" ∷ "model" ∷ "credentials_secret" ∷ "model_provider" ∷ []) raw))
      unknown_provider_fields
  validate_inference_provider
      (("name", value_of (lookup "name" raw)) ∷ ("model", value_of (lookup "model" raw)) ∷ [])

-- `mapping.get(key) == s`, for a text `s`.
abbrev pub is_text : String → Value → Bool
is_text s (text t) = t == s
is_text s _ = false

unfoldable pub enforce_provider_boundary :
    Option InferenceProviderSpec → Provider → Result (Unit {0})
unfolding lookup
enforce_provider_boundary none run_provider = ok tt
enforce_provider_boundary (some selected) run_provider = do
  refuse (not (truthy (value_of (lookup "name" run_provider)))) no_run_provider
  refuse (not (is_text selected.name (value_of (lookup "name" run_provider)))) cross_provider

-- The provider of a step input: name, model and the reference to its credentials.
pub record Selected : Type 0 where
  pub name : Value
  pub model : Value
  pub credentials_secret : Value

-- The reference of a mapping that names the provider.
abbrev pub reference_for : String → Provider → Value
reference_for name mapping =
    if is_text name (value_of (lookup "name" mapping))
    then value_of (lookup "credentials_secret" mapping)
    else null

-- `mapping.get(key, "")`.
abbrev pub get_or_empty : String → Provider → Value
get_or_empty key mapping = elim (lookup key mapping) [ none ↦ text "" | some v ↦ v ]

-- `provider_name not in APPROVED_INFERENCE_PROVIDERS`.
abbrev pub is_supported : Value → Bool
is_supported (text s) = mem_text s supported_provider_names
is_supported _ = false

abbrev pub check_reference : Value → Result Value
check_reference null = ok null
check_reference v = do ref ← validate_credential_reference v; ok (text ref)

-- The part of `build_step_input` that picks the provider and its credentials: `definition` is the
-- provider mapping of the workflow defaults, empty if there is none.
unfoldable pub select_provider :
    Option InferenceProviderSpec → Provider → Provider → Result Selected
unfolding enforce_provider_boundary
select_provider (some spec) run_provider definition = do
  enforce_provider_boundary (some spec) run_provider
  reference ←
      check_reference
        (or_else (reference_for spec.name run_provider) (reference_for spec.name definition))
  ok (record { name = text spec.name; model = text spec.model; credentials_secret = reference })
select_provider none run_provider definition = do
  refuse
      (truthy (get_or_empty "name" run_provider)
        && not (is_supported (get_or_empty "name" run_provider)))
      unapproved_provider
  reference ← check_reference (value_of (lookup "credentials_secret" run_provider))
  ok (record {
    name = get_or_empty "name" run_provider;
    model = get_or_empty "model" run_provider;
    credentials_secret = reference;
  })
