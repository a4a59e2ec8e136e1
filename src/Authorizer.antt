-- ===== src/Authorizer.antt =====
-- The policy file's authorizer: src/cloud_agents/workflow/security/policy_authorizer.py, with the
-- models of src/cloud_agents/workflow/security/authorization.py that it reads.
pub mod Rules
mod Tests
use lightspeed_cloud_agents.Prelude.{
  ℕ, zero, suc, ◌+◌, ◌-◌, ◌*◌, ◌/◌, ◌%◌, ◌^◌, ◌≤◌, ◌<◌, String, ◌≡◌, refl, sym, ap, ◌∙◌, subst, ◌≢◌,
  ◌↔◌, ◌⊎◌, inl, inr, Bool, true, false, not, ◌&&◌, ◌||◌, Option, none, some, List, [], ◌∷◌, ◌++◌,
  map, append-nil, append_assoc, arith, eq_iff, eq_refl, ltb, leb, nat_eq, ◌==◌, if◌then◌else◌,
  ltb→lt, nat_eq→eq, Bool-cases, Option-cases, length, get_elem?, take, is_empty, any, all, keep_if,
  All, length-append, All-append, mem_text, codes, to_lower, lower, is_word, is_space, starts_with,
  contains, same_text, starts_with_self, lower-append, Dict, lookup, insert, remove, keep_values,
  lookup-insert, lookup-remove,
}
use lightspeed_cloud_agents.Json.{
  Fields, end, field, Items, cons, nil, Value, null, text, boolean, natural, negative, object,
  array, truthy, is_null, or_else, entries, has_text, text_or, option_or,
}

pub record CallerIdentity : Type 0 where
  pub username : String
  pub groups : List String

pub record WorkflowResource : Type 0 where
  pub workflow_name : Option String
  pub owner : Option String

-- `conditions` is `require_owner` of the rule's conditions.
pub record PolicyRule : Type 0 where
  pub identity : String
  pub actions : List String
  pub workflows : List String
  pub require_owner : Bool

-- The reasons of a decision.
pub data DecisionReason : Type 0 where
  by_rule : String → DecisionReason
  owner_mismatch : String → DecisionReason
  default_allow no_matching_rule : DecisionReason

pub record AuthzDecision : Type 0 where
  pub allowed : Bool
  pub reason : DecisionReason

-- `pattern.startswith(prefix)` and `pattern.removeprefix(prefix)`: what stands behind the prefix.
unfoldable pub behind_prefix : List ℕ → List ℕ → Option (List ℕ)
behind_prefix [] s = some s
behind_prefix (p ∷ ps) [] = none
behind_prefix (p ∷ ps) (c ∷ s) = if nat_eq p c then behind_prefix ps s else none

abbrev pub same_codes : List ℕ → String → Bool
same_codes t s = same_text t (codes s)

-- The tests behind the first one, on the pattern with its prefix taken off.
unfoldable pub matches_plain : String → CallerIdentity → Bool
matches_plain pattern caller = pattern == caller.username

unfoldable pub matches_sa : String → CallerIdentity → Bool
unfolding matches_plain
matches_sa pattern caller = elim (behind_prefix (codes "sa:") (codes pattern)) [
  | none ↦ matches_plain pattern caller
  | some suffix ↦ same_codes (codes "system:serviceaccount:" ++ suffix) caller.username
]

unfoldable pub matches_team : String → CallerIdentity → Bool
unfolding matches_sa
matches_team pattern caller = elim (behind_prefix (codes "team:") (codes pattern)) [
  | none ↦ matches_sa pattern caller
  | some team ↦
      any (same_codes team) caller.groups || any (same_codes (codes "team:" ++ team)) caller.groups
]

unfoldable pub identity_matches : String → CallerIdentity → Bool
unfolding matches_team
identity_matches pattern caller =
    if pattern == "anonymous"
    then caller.username == "anonymous"
    else elim (behind_prefix (codes "user:") (codes pattern)) [
      | none ↦ matches_team pattern caller
      | some name ↦ same_codes name caller.username
    ]

unfoldable pub conditions_met : Bool → CallerIdentity → WorkflowResource → Bool
conditions_met require_owner caller resource = not (
    require_owner
    && (has_text resource.owner
        && not (elim resource.owner [ none ↦ false | some o ↦ caller.username == o ])))

-- `glob` is `fnmatch.fnmatch`, on a name and a pattern.
module _ (glob : String → String → Bool) where
  unfoldable pub workflow_matches : List String → WorkflowResource → Bool
  workflow_matches patterns resource = elim resource.workflow_name [
    | none ↦ true
    | some name ↦ if name == "" then true else any (glob name) patterns
  ]

  abbrev pub applies : CallerIdentity → String → WorkflowResource → PolicyRule → Bool
  applies caller action resource rule =
      identity_matches rule.identity caller
      && (mem_text action rule.actions && workflow_matches rule.workflows resource)

  -- The decision of the rule that applies.
  abbrev pub decision_of : CallerIdentity → WorkflowResource → PolicyRule → AuthzDecision
  decision_of caller resource rule =
      if rule.require_owner && not (conditions_met rule.require_owner caller resource)
      then record { allowed = false; reason = owner_mismatch rule.identity }
      else record { allowed = true; reason = by_rule rule.identity }

  abbrev pub fall_back : List String → String → AuthzDecision
  fall_back default_allowed action =
      if mem_text action default_allowed
      then record { allowed = true; reason = default_allow }
      else record { allowed = false; reason = no_matching_rule }

  unfoldable pub authorize :
      List PolicyRule → List String → CallerIdentity → String → WorkflowResource → AuthzDecision
  authorize [] default_allowed caller action resource = fall_back default_allowed action
  authorize (rule ∷ rules) default_allowed caller action resource =
      let rest = authorize rules default_allowed caller action resource in
      if not (identity_matches rule.identity caller)
      then rest
      else if not (mem_text action rule.actions)
      then rest
      else if not (workflow_matches rule.workflows resource)
      then rest
      else decision_of caller resource rule
