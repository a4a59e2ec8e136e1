-- ===== src/Validation.antt =====
-- The validation of submitted definitions: src/cloud_agents/workflow/core/validation.py. Problems
-- stand for the texts of the errors, in their order. The definition is an object; the fields of its
-- steps have the shapes of the definition model.
pub mod Policy
pub mod Submission
pub mod Checks
pub mod Graph
pub mod Compliance
mod Tests
use lightspeed_cloud_agents.Prelude.{
  ℕ, zero, suc, ◌+◌, ◌-◌, ◌*◌, ◌/◌, ◌%◌, ◌^◌, ◌≤◌, ◌<◌, String, ◌≡◌, refl, sym, ap, ◌∙◌, subst, ◌≢◌,
  ◌↔◌, ◌⊎◌, inl, inr, Bool, true, false, not, ◌&&◌, ◌||◌, Option, none, some, List, [], ◌∷◌, ◌++◌,
  map, append-nil, append_assoc, arith, eq_iff, eq_refl, ltb, leb, nat_eq, ◌==◌, if◌then◌else◌,
  ltb→lt, nat_eq→eq, Bool-cases, Option-cases, length, get_elem?, take, is_empty, any, all, keep_if,
  All, length-append, All-append, mem_text, codes, to_lower, lower, is_word, is_space, starts_with,
  contains, same_text, starts_with_self, lower-append, Dict, lookup, insert, remove, keep_values,
  lookup-insert, lookup-remove,
}
use lightspeed_cloud_agents.Json.{
  Fields, end, field, Items, cons, nil, Value, null, text, boolean, natural, negative, object,
  array, truthy, is_null, or_else, entries, has_text, text_or, option_or,
}
use lightspeed_cloud_agents.Steps.{
  PermissionScope, SpawnConfig, Provider, McpEntry, named, inline, RawStep, blank,
}
use lightspeed_cloud_agents.Errors.{
  Error, names_missing, human_approval_step, unknown_step_type, name_required, bad_timeout,
  invalid_provider, unapproved_provider, unknown_provider_fields, no_run_provider, cross_provider,
  bad_credential_reference, secret_value, credentialed_url, secret_header, secret_like_header,
  credential_header_value, ungated_credentials, secret_bearing_key, conflicting_service_account,
  bad_tools, bad_workflow_context, bad_step_context, invalid_step, duplicate_step_name, Result, err,
  ok, ◌>>=◌, bind_ok, refuse, ◌>>◌, refuse_ok, Ensures, returns, raises, Ensures-bind,
  Ensures-refuse, Ensures-ok,
}
use lightspeed_cloud_agents.Schedule.{
  Chunk, word_at, drop, reference_at, find_references, codes_or_empty, references, identifier,
  member_names, refers_to, has_internal_dependency, in_group, group_front, group_back, singles,
  group_chunks, chunks_at, chunk_loop, chunk_parallel_groups,
}
use lightspeed_cloud_agents.Normalize.{
  text_if_given, or_text, is_missing, apply_one_step_defaults, Defaults, Definition,
  workflow_defaults_from_definition, merge_context, image_of, resolve_sandbox_image, AgentStep,
  Meta, check_timeout, chosen_provider, has_key, resolve_provider, tool_names, check_tools,
  check_context, to_result, filled, valid_role, valid_spawn, Entry, agent_entry, gate_entry,
  is_gate, check_names, retries_of, normalize_workflow_step, normalize_steps, normalize_definition,
}
use lightspeed_cloud_agents.Credentials.{
  mcp_secret_key_markers, mcp_forbidden_plaintext_headers, secret_value_prefixes, is_alnum,
  reference_char, matches_reference, looks_like_secret_value, validate_credential_reference,
  is_secret_key, user_char, password_at, schemeless_userinfo, is_alpha, scheme_char, after_scheme,
  without_scheme, userinfo, is_filled, behind_slashes, netloc_userinfo, credentialed, secret_text,
  forbidden_header, check_headers, headers_of, value_or_null, gated_key, check_keys, check_inline,
  check_entries, reject_secret_bearing_mcp,
}
use lightspeed_cloud_agents.Providers.{
  InferenceProviderSpec, supported_provider_names, keys_within, filled_text, spec_of, parse_spec,
  validate_inference_provider, value_of, inference_spec_from_provider_config, is_text,
  enforce_provider_boundary, Selected, reference_for, get_or_empty, is_supported, check_reference,
  select_provider,
}
use lightspeed_cloud_agents.Validation.Policy.{
  BlockedPattern, ContentPolicy, Submitted, Violation, violation_if, or_unknown, is_present,
  missing_fields, outside, restricted, occurs, blocked, too_long, step_violations, evaluate_steps,
  evaluate_content_policy,
}

-- The errors, with the index or the name of the step that they name.
pub data Problem : Type 0 where
  unknown_definition_fields unknown_spec_fields : List String → Problem
  spec_not_object steps_not_array no_steps provider_not_object : Problem
  step_not_object name_missing : ℕ → Problem
  bad_provider bad_reference : Error → Problem
  unknown_step_fields : ℕ → List String → Problem
  duplicate_name key_missing duplicate_key bad_retries bad_schema : String → Problem
  undefined_reference : String → List ℕ → Problem
  bad_skill bad_server : String → String → Problem
  bearing_secret bad_step_provider : String → Error → Problem
  violation : Violation → Problem

-- `set(mapping) - allowed`.
abbrev pub unknown : List String → List String → List String
unknown allowed fields = keep_if (λ f. not (mem_text f allowed)) fields

abbrev pub complain_if : Bool → Problem → List Problem
complain_if true p = p ∷ []
complain_if false p = []

abbrev pub complain_of : (List String → Problem) → List String → List Problem
complain_of p [] = []
complain_of p (f ∷ fs) = p (f ∷ fs) ∷ []

abbrev pub complain_of_error : {A : Type 0} → (Error → Problem) → Result A → List Problem
complain_of_error p (err e) = p e ∷ []
complain_of_error p (ok a) = []

abbrev pub definition_fields : List String
definition_fields =
    "apiVersion" ∷ "kind" ∷ "metadata" ∷ "provider" ∷ "skills" ∷ "spec" ∷ "advisory" ∷ []

abbrev pub spec_fields : List String
spec_fields =
    "input_prompt" ∷ "steps" ∷ "timeout_seconds" ∷ "spawn" ∷ "spawn_config" ∷ "mcp_servers"
    ∷ "allowed_skills" ∷ "permissions" ∷ "service_account" ∷ "context" ∷ "escalation" ∷ []

abbrev pub allowed_step_fields : List String
allowed_step_fields =
    "name" ∷ "type" ∷ "agent" ∷ "prompt" ∷ "output_key" ∷ "condition" ∷ "message"
    ∷ "timeout_seconds" ∷ "max_retries" ∷ "spawn" ∷ "risk_level" ∷ "permissions" ∷ "parallel_group"
    ∷ "mcp_servers" ∷ "spawn_config" ∷ "runtime" ∷ "role" ∷ "instructions" ∷ "output_schema"
    ∷ "tools" ∷ "context" ∷ "service_account" ∷ "target_namespaces" ∷ "allowed_skills"
    ∷ "inference_provider" ∷ "provider" ∷ []

abbrev pub is_array_type : Option Value → Bool
is_array_type (some (text s)) = s == "array"
is_array_type _ = false

abbrev pub is_given : Option Value → Bool
is_given none = false
is_given (some v) = true

-- `_validate_schema`: a complaint for each array without items, in the fragment, its items and its
-- properties; the inner ones in the order of the fields. Properties that are no object, which the
-- code cannot go through, give none.
mutual
  pub schema_problems : Problem → Value → List Problem
  schema_problems p (object fields) =
      let inner = inner_problems p fields in
      complain_if
        (is_array_type (lookup "type" (entries fields))
          && not (is_given (lookup "items" (entries fields))))
        p
      ++ inner
  schema_problems p _ = []

  -- Those of the items and of each property.
  pub inner_problems : Problem → Fields → List Problem
  inner_problems p end = []
  inner_problems p (field k v fields) =
      let rest = inner_problems p fields in
      let items = schema_problems p v in
      let properties = property_problems p v in
      (if k == "items" then items else if k == "properties" then properties else []) ++ rest

  pub property_problems : Problem → Value → List Problem
  property_problems p (object fields) = each_property p fields
  property_problems p _ = []

  pub each_property : Problem → Fields → List Problem
  each_property p end = []
  each_property p (field k v fields) = schema_problems p v ++ each_property p fields

abbrev pub as_fields : Dict Value → Fields
as_fields [] = end
as_fields ((k, v) ∷ d) = field k v (as_fields d)

abbrev pub output_schema_problems : Problem → Option (Dict Value) → List Problem
output_schema_problems p none = []
output_schema_problems p (some d) = schema_problems p (object (as_fields d))

-- The word of a reference `{{ steps.<word>.` at the front of the text, `[]` if there is none.
unfoldable pub skip_spaces : List ℕ → List ℕ
skip_spaces [] = []
skip_spaces (c ∷ s) = let rest = skip_spaces s in if is_space c then rest else c ∷ s

abbrev pub closed_by_dot : List ℕ → List ℕ → List ℕ
closed_by_dot word s = if starts_with (drop (length word) s) (codes ".") then word else []

unfoldable pub template_reference : List ℕ → List ℕ
unfolding skip_spaces word_at
template_reference s =
    if not (starts_with s (codes "{{"))
    then []
    else let inner = skip_spaces (drop 2 s) in
      if starts_with inner (codes "steps.")
      then closed_by_dot (word_at (drop 6 inner)) (drop 6 inner)
      else []

-- `re.findall` of the references: no match lies within another one.
unfoldable pub template_references : List ℕ → List (List ℕ)
unfolding template_reference
template_references [] = []
template_references (c ∷ s) =
    let word = template_reference (c ∷ s) in
    let rest = template_references s in if is_empty word then rest else word ∷ rest

abbrev pub among : List String → List ℕ → Bool
among keys ref = any (λ k. same_text ref (codes k)) keys

unfoldable pub reference_problems : String → List String → List (List ℕ) → List Problem
reference_problems name keys [] = []
reference_problems name keys (ref ∷ refs) =
    complain_if (not (among keys ref)) (undefined_reference name ref)
    ++ reference_problems name keys refs

abbrev pub valid_retries : Value → Bool
valid_retries null = true
valid_retries (natural n) = true
valid_retries _ = false

abbrev pub skill_problem : String → String → List Problem
skill_problem name skill =
    complain_if
      (skill == "" || (contains (codes skill) (codes "/") || (skill == "." || skill == "..")))
      (bad_skill name skill)

unfoldable pub skill_problems : String → List String → List Problem
skill_problems name [] = []
skill_problems name (skill ∷ skills) = skill_problem name skill ++ skill_problems name skills

abbrev pub has_value : Option Value → Bool
has_value none = false
has_value (some v) = truthy v

unfoldable pub server_problems : String → List McpEntry → List Problem
server_problems name [] = []
server_problems name (McpEntry.named server ∷ servers) =
    complain_if (server == "") (bad_server name "string") ++ server_problems name servers
server_problems name (inline config ∷ servers) =
    complain_if (not (has_value (lookup "name" config) && has_value (lookup "url" config)))
      (bad_server name "inline")
    ++ server_problems name servers

abbrev pub text_or_empty : Option String → String
text_or_empty none = ""
text_or_empty (some s) = s

abbrev pub list_or_empty {ℓ} : {A : Type ℓ} → Option (List A) → List A
list_or_empty none = []
list_or_empty (some xs) = xs

abbrev pub provider_problems : String → Option Provider → List Problem
provider_problems name none = []
provider_problems name (some provider) =
    complain_of_error (bad_step_provider name) (validate_inference_provider provider)

-- `step.get("inference_provider") or step.get("provider")`.
abbrev pub either_provider : Option Provider → Option Provider → Option Provider
either_provider none other = other
either_provider (some []) other = other
either_provider (some (e ∷ p)) other = some (e ∷ p)
