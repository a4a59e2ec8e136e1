-- ===== src/Authorizer/Rules.antt =====
-- Which rule decides.
use lightspeed_cloud_agents.Prelude.{
  String, ◌≡◌, refl, ap, ◌∙◌, inl, inr, Bool, true, false, List, [], ◌∷◌, ◌++◌, arith,
  if◌then◌else◌, Bool-cases, any,
}
use lightspeed_cloud_agents.Authorizer.{
  CallerIdentity, WorkflowResource, PolicyRule, AuthzDecision, applies, decision_of, fall_back,
  authorize,
}

-- How a decision came about: the first rule that applies, or the defaults when none does.
pub data FirstMatch (glob : String → String → Bool) (caller : CallerIdentity) (action : String)
    (resource : WorkflowResource) (default_allowed : List String) (rules : List PolicyRule)
    (d : AuthzDecision) : Type 0 where
  decided_by :
      (before after : List PolicyRule) (rule : PolicyRule)
      → rules ≡ before ++ (rule ∷ after)
      → any (applies glob caller action resource) before ≡ false
      → applies glob caller action resource rule ≡ true
      → d ≡ decision_of glob caller resource rule
      → FirstMatch glob caller action resource default_allowed rules d
  by_default :
      any (applies glob caller action resource) rules ≡ false
      → d ≡ fall_back glob default_allowed action
      → FirstMatch glob caller action resource default_allowed rules d

module _ (glob : String → String → Bool) (caller : CallerIdentity) (action : String)
    (resource : WorkflowResource) (default_allowed : List String) where
  later :
      (rule : PolicyRule) (rules : List PolicyRule) (d : AuthzDecision)
      → applies glob caller action resource rule ≡ false
      → FirstMatch glob caller action resource default_allowed rules d
      → FirstMatch glob caller action resource default_allowed (rule ∷ rules) d
  later rule rules d e (decided_by before after r split none_before applies_here same) =
      decided_by (rule ∷ before) after r (ap (λ rs. rule ∷ rs) split) (rw e none_before)
        applies_here same
  later rule rules d e (by_default none_at_all same) = by_default (rw e none_at_all) same

  authorize-first :
      (rule : PolicyRule) (rules : List PolicyRule)
      → authorize glob (rule ∷ rules) default_allowed caller action resource ≡ (
          if applies glob caller action resource rule
          then decision_of glob caller resource rule
          else authorize glob rules default_allowed caller action resource)
  unfolding authorize
  authorize-first rule rules = ground arith

  -- The decision on a request is that of the first rule whose identity, action and workflows match,
  -- no rule before it matching; when none matches, it is that of the default actions.
  pub authorize-FirstMatch :
      (rules : List PolicyRule)
      → FirstMatch glob caller action resource default_allowed rules
          (authorize glob rules default_allowed caller action resource)
  unfolding authorize
  authorize-FirstMatch [] = by_default refl refl
  authorize-FirstMatch (rule ∷ rules) =
      elim (Bool-cases (applies glob caller action resource rule)) [
        | inl fits ↦
            decided_by [] rules rule refl refl fits (authorize-first rule rules ∙ rw fits refl)
        | inr not_so ↦
            rw (authorize-first rule rules, not_so)
              (later rule rules _ not_so (authorize-FirstMatch rules))
      ]
