-- ===== src/Authorizer/Tests.antt =====
-- The authorizer at concrete rules.
use lightspeed_cloud_agents.Prelude.{
  String, ◌≡◌, refl, Bool, true, false, Option, none, some, [], ◌∷◌, ◌==◌, same_text,
}
use lightspeed_cloud_agents.Authorizer.{
  CallerIdentity, WorkflowResource, PolicyRule, behind_prefix, identity_matches, conditions_met,
  workflow_matches, authorize,
}
use lightspeed_cloud_agents.Authorizer.Rules.{FirstMatch, authorize-FirstMatch}

abbrev exact : String → String → Bool
exact name pattern = name == pattern

abbrev ann : CallerIdentity
ann = record { username = "ann"; groups = "team:sre" ∷ [] }

abbrev sre_triggers : PolicyRule
sre_triggers = record {
  identity = "team:sre";
  actions = "trigger" ∷ [];
  workflows = "deploy" ∷ [];
  require_owner = true;
}

abbrev deploy_of : Option String → WorkflowResource
deploy_of who = record { workflow_name = some "deploy"; owner = who }

others_denied :
    (authorize exact (sre_triggers ∷ []) [] ann "trigger" (deploy_of (some "bob"))).allowed ≡ false
unfolding authorize identity_matches workflow_matches conditions_met behind_prefix same_text
others_denied = refl

-- A resource without an owner passes the owner's condition.
ownerless_allowed :
    (authorize exact (sre_triggers ∷ []) [] ann "trigger" (deploy_of none)).allowed ≡ true
unfolding authorize identity_matches workflow_matches conditions_met behind_prefix same_text
ownerless_allowed = refl

authorize-FirstMatch_example :
    FirstMatch exact ann "trigger"
      (deploy_of none)
      []
      (sre_triggers ∷ [])
      (authorize exact (sre_triggers ∷ []) [] ann "trigger" (deploy_of none))
authorize-FirstMatch_example =
    authorize-FirstMatch exact ann "trigger" (deploy_of none) [] (sre_triggers ∷ [])
