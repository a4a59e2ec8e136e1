-- ===== src/Normalize/Guarantees.antt =====
-- Guarantees
use lightspeed_cloud_agents.Prelude.{
  All, ℕ, ◌<◌, String, ◌≡◌, refl, sym, ap, ◌∙◌, subst, ◌⊎◌, inr, Bool, true, false, not, ◌&&◌, ◌||◌,
  Option, none, some, List, [], ◌∷◌, arith, eq_iff, nat_eq, ◌==◌, if◌then◌else◌, mem_text, lookup,
}
use lightspeed_cloud_agents.Json.{Value, null, natural, or_else, text_or, option_or}
use lightspeed_cloud_agents.Errors.{
  human_approval_step, unknown_step_type, name_required, unapproved_provider,
  unknown_provider_fields, bad_workflow_context, bad_step_context, invalid_step, ok, ◌>>=◌, bind_ok,
  refuse_ok, Ensures, returns, Ensures-bind, Ensures-refuse,
}
use lightspeed_cloud_agents.Steps.{PermissionScope, Provider, McpEntry, RawStep}
use lightspeed_cloud_agents.Credentials.{check_entries, reject_secret_bearing_mcp}
use lightspeed_cloud_agents.Providers.{
  InferenceProviderSpec, supported_provider_names, keys_within, parse_spec,
  validate_inference_provider, value_of, inference_spec_from_provider_config,
}
use lightspeed_cloud_agents.Scope.{PermissionMeta, collapse_account, collapse_permissions}
use lightspeed_cloud_agents.Credentials.Mcp.{IsEntryClean, reject_secret_bearing_mcp_iff}
use lightspeed_cloud_agents.Normalize.{
  text_if_given, or_text, is_missing, apply_one_step_defaults, Defaults, AgentStep, Meta,
  check_timeout, chosen_provider, has_key, resolve_provider, check_tools, check_context, to_result,
  filled, valid_role, valid_spawn, retries_of, normalize_workflow_step,
}

-- The selected provider is on the list of supported names.
abbrev pub Approved : Option InferenceProviderSpec → Type 0
Approved none = Unit
Approved (some spec) = mem_text spec.name supported_provider_names ≡ true

abbrev pub Positive : Option ℕ → Type 0
Positive none = Unit
Positive (some n) = 0 < n

abbrev pub CleanMcp : Option (List McpEntry) → Type 0
CleanMcp none = Unit
CleanMcp (some servers) = All IsEntryClean servers

-- What normalization guarantees of a step that it lets through.
pub record IsNormal (step : RawStep) (defaults : Defaults) (step_count : ℕ) (r : AgentStep × Meta)
    : Type 0 where
  pub kind : r.1.kind ≡ "agent"
  pub named : (r.0.name == "") ≡ false
  pub own_name : (step_count ≡ 1) ⊎ (step.name ≡ some r.0.name)
  pub timeout : Positive r.0.timeout_seconds
  pub provider : Approved r.0.inference_provider
  pub mcp_servers : CleanMcp r.0.mcp_servers
  pub inherited : r.0.mcp_servers ≡ option_or step.mcp_servers defaults.mcp_servers
  pub spawn : mem_text r.0.spawn ("none" ∷ "local" ∷ "ephemeral" ∷ []) ≡ true
  pub orchestration :
      (r.0.condition ≡ step.condition)
      × (r.0.parallel_group ≡ step.parallel_group)
      × (r.1.agent ≡ step.agent)
      × (r.1.permission.risk_level ≡ step.risk_level)
      × (r.1.permission.target_namespaces ≡ step.target_namespaces)

-- The step with the names and the type that it may omit.
abbrev completed : RawStep → RawStep
completed step = record step {
  kind = or_text step.kind "agent";
  name = or_text step.name "agent";
  output_key = or_text step.output_key "result";
}

defaulted :
    (step raw : RawStep) (n : ℕ)
    → apply_one_step_defaults step n ≡ ok raw
    → (raw ≡ completed step) × ((n ≡ 1) ⊎ (is_missing step.name ≡ false))
unfolding apply_one_step_defaults
defaulted step raw n h =
    let (t, k) =
      refuse_ok ((is_missing step.name || is_missing step.output_key) && not (nat_eq n 1)) _ _ h in
    (ground arith, ground arith)

check_timeout-Positive : (v : Value) (o : Option ℕ) → check_timeout v ≡ ok o → Positive o
unfolding check_timeout
check_timeout-Positive null o h = subst Positive (value h) tt
  where
    value : ok none ≡ ok o → none ≡ o
    value e = cc
check_timeout-Positive (natural n) o h = ground arith
check_timeout-Positive v o h = cc

validated :
    (raw : Provider) (spec : InferenceProviderSpec)
    → validate_inference_provider raw ≡ ok spec
    → mem_text spec.name supported_provider_names ≡ true
unfolding validate_inference_provider
validated raw spec h =
    let (s, e, k) = bind_ok (parse_spec raw) _ h in
    let (t, k') =
      refuse_ok (not (mem_text s.name supported_provider_names)) unapproved_provider _ k in
    subst (λ s. mem_text s.name supported_provider_names ≡ true) (value k') (ground arith)
  where
    value : {a b : InferenceProviderSpec} → ok a ≡ ok b → a ≡ b
    value e = cc

from_config :
    (raw : Provider) (spec : InferenceProviderSpec)
    → inference_spec_from_provider_config raw ≡ ok spec
    → mem_text spec.name supported_provider_names ≡ true
unfolding inference_spec_from_provider_config
from_config raw spec h =
    let (t, k) =
      refuse_ok
        (not (keys_within ("name" ∷ "model" ∷ "credentials_secret" ∷ "model_provider" ∷ []) raw))
        unknown_provider_fields _ h in
    validated
      (("name", value_of (lookup "name" raw)) ∷ ("model", value_of (lookup "model" raw)) ∷ []) spec
      k

resolve_provider-Approved :
    (o : Option (Bool × Provider)) (r : Option InferenceProviderSpec)
    → resolve_provider o ≡ ok r
    → Approved r
unfolding resolve_provider
resolve_provider-Approved none r h = subst Approved (value h) tt
  where
    value : ok none ≡ ok r → none ≡ r
    value e = cc
resolve_provider-Approved (some (flag, mapping)) r h =
    split (flag && (has_key "credentials_secret" mapping || has_key "model_provider" mapping)) h
  where
    value : (spec : InferenceProviderSpec) → ok (some spec) ≡ ok r → some spec ≡ r
    value spec e = cc

    split :
        (t : Bool)
        → ((if t
              then inference_spec_from_provider_config mapping
              else validate_inference_provider mapping)
            >>= λ spec. ok (some spec))
          ≡ ok r
        → Approved r
    split true k =
        let (spec, e, k') = bind_ok (inference_spec_from_provider_config mapping) _ k in
        subst Approved (value spec k') (from_config mapping spec e)
    split false k =
        let (spec, e, k') = bind_ok (validate_inference_provider mapping) _ k in
        subst Approved (value spec k') (validated mapping spec e)

passed_mcp :
    (o r : Option (List McpEntry)) → reject_secret_bearing_mcp o ≡ ok r → (r ≡ o) × CleanMcp r
unfolding reject_secret_bearing_mcp
passed_mcp none r h = let e : none ≡ r = cc in subst (λ o. (o ≡ none) × CleanMcp o) e (refl, tt)
passed_mcp (some servers) r h =
    let (u, a, k) = bind_ok (check_entries servers) _ h in
    let e : some servers ≡ r = cc in
    subst (λ o. (o ≡ some servers) × CleanMcp o) e
      (refl, (reject_secret_bearing_mcp_iff servers).0 (rw a))

kept_meta :
    (p : Option PermissionScope) (a risk : Option String) (namespaces : Option (List String))
    (r : Option PermissionScope × PermissionMeta)
    → collapse_permissions p a risk namespaces ≡ ok r
    → (r.1.risk_level ≡ risk) × (r.1.target_namespaces ≡ namespaces)
unfolding collapse_permissions
kept_meta p a risk namespaces r h =
    let (s, e, k) = bind_ok (collapse_account p a) _ h in (ground arith, ground arith)

name_of :
    (o : Option String) (n : String)
    → to_result name_required (filled o) ≡ ok n
    → (o ≡ some n) × ((n == "") ≡ false)
name_of none n h = cc
name_of (some s) n h = split (s == "") refl h
  where
    split :
        (t : Bool)
        → (s == "") ≡ t
        → to_result name_required (if t then none else some s) ≡ ok n
        → (some s ≡ some n) × ((n == "") ≡ false)
    split true e k = cc
    split false e k = let q : s ≡ n = cc in (ap some q, subst (λ m. (m == "") ≡ false) q e)

own :
    (o : Option String) (n : ℕ) (s : String)
    → or_text o "agent" ≡ some s
    → (n ≡ 1) ⊎ (is_missing o ≡ false)
    → (n ≡ 1) ⊎ (o ≡ some s)
own none n s e h = ground arith
own (some k) n s e h = inr e

not-not : {b : Bool} → not b ≡ false → b ≡ true
not-not {b} h = ground arith

is_true : (s : String) → not (s == "agent") ≡ false → s ≡ "agent"
is_true s h = (eq_iff s "agent").0 (not-not h)

module _ (count : Value → Option ℕ) (step : RawStep) (defaults : Defaults) (step_count : ℕ) where
  -- A step that normalization lets through is an agent step with a non-empty name, its own unless
  -- it is the only step; its timeout, if any, is positive; its provider, if any, is a supported one;
  -- its MCP servers are its own or else the workflow's, and none of them carries a secret; its
  -- spawn mode is one of the three; and its condition, group, agent reference, risk level and
  -- namespaces are carried over unchanged. This holds for every step, defaults and step count.
  pub normalize_workflow_step-IsNormal :
      Ensures
        (IsNormal step defaults step_count)
        (normalize_workflow_step count step defaults step_count)
  unfolding normalize_workflow_step
  normalize_workflow_step-IsNormal =
      Ensures-bind (apply_one_step_defaults step step_count) λ raw e1.
        Ensures-refuse (text_or raw.kind "" == "human-approval") human_approval_step λ e2.
          Ensures-refuse (not (text_or raw.kind "" == "agent")) unknown_step_type λ e3.
            Ensures-bind (to_result name_required (filled raw.name)) λ name e4.
              Ensures-bind (check_timeout (or_else raw.timeout_seconds defaults.timeout_seconds))
                λ timeout e5.
                  Ensures-bind
                    (resolve_provider
                      (chosen_provider raw.inference_provider raw.provider defaults.provider))
                    λ provider e6.
                      Ensures-bind
                        (reject_secret_bearing_mcp (option_or raw.mcp_servers defaults.mcp_servers))
                        λ mcp e7.
                          Ensures-bind
                            (collapse_permissions (option_or raw.permissions defaults.permissions)
                              (option_or raw.service_account defaults.service_account)
                              raw.risk_level raw.target_namespaces)
                            λ collapsed e8. Ensures-bind (check_tools raw.tools) λ tools e9.
                              Ensures-bind (check_context bad_workflow_context defaults.context)
                                λ wc e10.
                                  Ensures-bind (check_context bad_step_context raw.context)
                                    λ sc e11.
                                      Ensures-refuse
                                        (not (
                                          valid_spawn (
                                            text_if_given (option_or raw.spawn defaults.spawn)
                                              "ephemeral")))
                                        invalid_step
                                        λ e12.
                                          Ensures-bind (to_result invalid_step raw.output_key)
                                            λ key e13.
                                              Ensures-bind (retries_of count raw.max_retries)
                                                λ retries e14.
                                                  Ensures-refuse (not (valid_role raw.role))
                                                    invalid_step
                                                    λ e15.
                                                      let (q, given) =
                                                        defaulted step raw step_count e1 in
                                                      let (n, full) = name_of raw.name name e4 in
                                                      returns _ (record {
                                                        kind = is_true (text_or raw.kind "") e3;
                                                        named = full;
                                                        own_name =
                                                            own step.name step_count name
                                                            (ap (λ (s : RawStep). s.name) (sym q)
                                                            ∙ n)
                                                            given;
                                                        timeout =
                                                            check_timeout-Positive
                                                            (or_else raw.timeout_seconds
                                                            defaults.timeout_seconds)
                                                            timeout e5;
                                                        provider =
                                                            resolve_provider-Approved _ provider e6;
                                                        mcp_servers = (passed_mcp _ mcp e7).1;
                                                        inherited =
                                                            (passed_mcp _ mcp e7).0
                                                            ∙ ap
                                                            (λ (s : RawStep).
                                                            option_or s.mcp_servers
                                                            defaults.mcp_servers)
                                                            q;
                                                        spawn = not-not e12;
                                                        orchestration = (
                                                          ap (λ (s : RawStep). s.condition) q,
                                                          ap (λ (s : RawStep). s.parallel_group) q,
                                                          ap (λ (s : RawStep). s.agent) q,
                                                          (kept_meta _ _ _ _ collapsed e8).0
                                                            ∙ ap (λ (s : RawStep). s.risk_level) q,
                                                          (kept_meta _ _ _ _ collapsed e8).1
                                                            ∙ ap
                                                            (λ (s : RawStep). s.target_namespaces)
                                                            q,
                                                        );
                                                      })
