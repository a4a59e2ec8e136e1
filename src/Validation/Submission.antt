-- ===== src/Validation/Submission.antt =====
-- `validate_definition` of src/cloud_agents/workflow/core/validation.py: the loop over the steps and
-- the checks round it.
use lightspeed_cloud_agents.Prelude.{
  ℕ, ◌+◌, String, Bool, not, Option, none, some, List, [], ◌∷◌, ◌++◌, map, ◌==◌, if◌then◌else◌,
  mem_text, codes, Dict, lookup,
}
use lightspeed_cloud_agents.Json.{Value, null, entries, option_or}
use lightspeed_cloud_agents.Steps.{Provider, McpEntry, RawStep}
use lightspeed_cloud_agents.Errors.{Result, err, ok}
use lightspeed_cloud_agents.Normalize.{apply_one_step_defaults}
use lightspeed_cloud_agents.Credentials.{validate_credential_reference, reject_secret_bearing_mcp}
use lightspeed_cloud_agents.Providers.{inference_spec_from_provider_config}
use lightspeed_cloud_agents.Validation.{
  Problem, unknown_definition_fields, unknown_spec_fields, spec_not_object, steps_not_array,
  no_steps, provider_not_object, step_not_object, name_missing, bad_provider, bad_reference,
  unknown_step_fields, duplicate_name, key_missing, duplicate_key, bad_retries, bad_schema,
  bearing_secret, violation, unknown, complain_if, complain_of, complain_of_error,
  definition_fields, spec_fields, allowed_step_fields, output_schema_problems, template_references,
  reference_problems, valid_retries, skill_problems, server_problems, text_or_empty, list_or_empty,
  provider_problems, either_provider,
}
use lightspeed_cloud_agents.Validation.Policy.{ContentPolicy, Submitted, evaluate_content_policy}

-- A member of `steps`, and what stands under `provider`.
pub data StepEntry : Type 0 where
  no_object : StepEntry
  step_object : Submitted → StepEntry

pub data ProviderEntry : Type 0 where
  absent no_mapping : ProviderEntry
  mapping : Provider → ProviderEntry

pub record Spec : Type 0 where
  pub fields : List String
  pub steps : Option (List StepEntry)
  pub mcp_servers : Option (List McpEntry)

pub record SubmittedDefinition : Type 0 where
  pub fields : List String
  pub provider : ProviderEntry
  pub spec : Option Spec

-- The output keys seen, with a new key of the step.
abbrev pub add_key : Option String → List String → List String
add_key none keys = keys
add_key (some key) keys = if key == "" then keys else if mem_text key keys then keys else key ∷ keys

abbrev pub key_problems : String → Option String → List String → List Problem
key_problems name none keys = key_missing name ∷ []
key_problems name (some key) keys =
    if key == ""
    then key_missing name ∷ []
    else if mem_text key keys
    then duplicate_key key ∷ []
    else []

-- The checks behind those of the name and the key; `keys` has the step's key.
unfoldable pub field_problems :
    String → List String → Option (List McpEntry) → RawStep → List Problem
unfolding template_references reference_problems skill_problems server_problems
field_problems name keys default step =
    let servers = option_or step.mcp_servers default in
    complain_if (not (valid_retries step.max_retries)) (bad_retries name)
    ++ (reference_problems name keys (template_references (codes (text_or_empty step.prompt)))
        ++ (output_schema_problems (bad_schema name) step.output_schema
            ++ (skill_problems name (list_or_empty step.allowed_skills)
                ++ (server_problems name (list_or_empty servers)
                    ++ (complain_of_error (bearing_secret name) (reject_secret_bearing_mcp servers)
                        ++ provider_problems name
                            (either_provider step.inference_provider step.provider))))))

abbrev pub unknown_problems : ℕ → Dict Bool → List Problem
unknown_problems i fields =
    complain_of (unknown_step_fields i) (unknown allowed_step_fields (map (λ e. e.0) fields))

-- The loop over the steps, from the one with index i on, with the names and the output keys that
-- were seen.
unfoldable pub check_steps :
    Option (List McpEntry) → ℕ → List String → List String → List Submitted → List Problem
unfolding field_problems
check_steps default i names keys [] = []
check_steps default i names keys (s ∷ ss) = elim s.step.name [
  | none ↦
      unknown_problems i s.fields ++ (name_missing i ∷ check_steps default (i + 1) names keys ss)
  | some name ↦
      let nameless = check_steps default (i + 1) names keys ss in
      let keys' = add_key s.step.output_key keys in
      let rest = check_steps default (i + 1) (name ∷ names) keys' ss in
      unknown_problems i s.fields
      ++ (if name == ""
          then name_missing i ∷ nameless
          else complain_if (mem_text name names) (duplicate_name name)
            ++ (key_problems name s.step.output_key keys
                ++ (field_problems name keys' default s.step ++ rest)))
]

-- The steps if all are objects, and the indexes of those that are not.
abbrev pub add_object : StepEntry → Option (List Submitted) → Option (List Submitted)
add_object no_object rest = none
add_object (step_object s) none = none
add_object (step_object s) (some ss) = some (s ∷ ss)

unfoldable pub objects : List StepEntry → Option (List Submitted)
objects [] = some []
objects (e ∷ es) = add_object e (objects es)

unfoldable pub not_objects : ℕ → List StepEntry → List Problem
not_objects i [] = []
not_objects i (no_object ∷ es) = step_not_object i ∷ not_objects (i + 1) es
not_objects i (step_object s ∷ es) = not_objects (i + 1) es

-- The one-step convention. The defaults raise for no lone step; they are among the allowed fields.
abbrev pub with_step_of : Submitted → Result RawStep → Submitted
with_step_of s (err e) = s
with_step_of s (ok step) = record s { step = step }

abbrev pub with_defaults : List Submitted → List Submitted
with_defaults [] = []
with_defaults (s ∷ []) = with_step_of s (apply_one_step_defaults s.step 1) ∷ []
with_defaults (s ∷ t ∷ ss) = s ∷ t ∷ ss

-- `credentials_secret`, unless it is null.
abbrev pub reference_entry_problems : Option Value → List Problem
reference_entry_problems none = []
reference_entry_problems (some null) = []
reference_entry_problems (some v) =
    complain_of_error bad_reference (validate_credential_reference v)

abbrev pub definition_provider_problems : ProviderEntry → List Problem
definition_provider_problems absent = []
definition_provider_problems no_mapping = provider_not_object ∷ []
definition_provider_problems (mapping provider) =
    complain_of_error bad_provider (inference_spec_from_provider_config provider)
    ++ reference_entry_problems (lookup "credentials_secret" provider)

-- `matches` is the search for a pattern, ignoring case.
module _ (matches : String → String → Bool) where
  abbrev pub checked_objects :
      SubmittedDefinition
      → Spec
      → Option ContentPolicy
      → List StepEntry
      → Option (List Submitted)
      → List Problem
  checked_objects defn spec policy entries none = not_objects 0 entries
  checked_objects defn spec policy entries (some steps) =
      definition_provider_problems defn.provider
      ++ (check_steps spec.mcp_servers 0 [] [] (with_defaults steps)
          ++ map violation (evaluate_content_policy matches steps policy))

  abbrev pub checked_entries :
      SubmittedDefinition → Spec → Option ContentPolicy → Option (List StepEntry) → List Problem
  checked_entries defn spec policy none = steps_not_array ∷ []
  checked_entries defn spec policy (some []) = no_steps ∷ []
  checked_entries defn spec policy (some (e ∷ es)) =
      checked_objects defn spec policy (e ∷ es) (objects (e ∷ es))

  abbrev pub checked_spec : SubmittedDefinition → Option ContentPolicy → Option Spec → List Problem
  checked_spec defn policy none = spec_not_object ∷ []
  checked_spec defn policy (some spec) =
      complain_of unknown_spec_fields (unknown spec_fields spec.fields)
      ++ checked_entries defn spec policy spec.steps

  unfoldable pub validate_definition : SubmittedDefinition → Option ContentPolicy → List Problem
  unfolding check_steps objects not_objects
  validate_definition defn policy =
      complain_of unknown_definition_fields (unknown definition_fields defn.fields)
      ++ checked_spec defn policy defn.spec
