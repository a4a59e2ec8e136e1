-- ===== src/Approval/Tests.antt =====
-- Risk classification at a concrete policy.
use lightspeed_cloud_agents.Prelude.{◌≡◌, refl, true, none, [], ◌∷◌}
use lightspeed_cloud_agents.Approval.{ApprovalPolicy, risk_of, classify_step_risk}

abbrev low_only : ApprovalPolicy
low_only = record { auto_approve_risk_levels = "low" ∷ []; default_risk = "low" }

gate_by_default : (classify_step_risk "ok" "human-approval" none low_only).auto_approved ≡ true
unfolding classify_step_risk risk_of
gate_by_default = refl
