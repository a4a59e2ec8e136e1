-- ===== src/Approval.antt =====
-- Risk classification of src/cloud_agents/workflow/security/auto_approve.py. The explanations are
-- log texts and are left out; the risk levels of a policy are the four of the model.
mod Tests
use lightspeed_cloud_agents.Prelude.{
  String, Bool, Option, List, [], ◌∷◌, ◌==◌, if◌then◌else◌, mem_text,
}
use lightspeed_cloud_agents.Json.{text_or}

pub record ApprovalPolicy : Type 0 where
  pub auto_approve_risk_levels : List String
  pub default_risk : String

abbrev pub risk_levels : List String
risk_levels = "low" ∷ "medium" ∷ "high" ∷ "critical" ∷ []

pub record StepRiskClassification : Type 0 where
  pub step_name : String
  pub risk_level : String
  pub auto_approved : Bool

-- The explicit level, and `high` without one.
unfoldable pub classify_agent_risk : Option String → String
classify_agent_risk risk_level = text_or risk_level "high"

unfoldable pub risk_of : String → Option String → ApprovalPolicy → String
unfolding classify_agent_risk
risk_of kind risk_level policy =
    if kind == "human-approval"
    then text_or risk_level policy.default_risk
    else if kind == "agent"
    then classify_agent_risk risk_level
    else policy.default_risk

-- Of the step, the code reads the name, the type and the risk level.
unfoldable pub classify_step_risk :
    String → String → Option String → ApprovalPolicy → StepRiskClassification
classify_step_risk name kind risk_level policy = record {
  step_name = name;
  risk_level = risk_of kind risk_level policy;
  auto_approved = mem_text (risk_of kind risk_level policy) policy.auto_approve_risk_levels;
}
