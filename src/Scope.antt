-- ===== src/Scope.antt =====
-- Permission scopes: src/cloud_agents/workflow/core/permissions.py and `collapse_permissions` of
-- core/execution.py.
pub mod Laws
mod Tests
use lightspeed_cloud_agents.Prelude.{
  String, not, Option, none, some, List, ◌==◌, if◌then◌else◌, keep_if, mem_text,
}
use lightspeed_cloud_agents.Errors.{conflicting_service_account, Result, ok, err, ◌>>=◌, ◌>>◌}
use lightspeed_cloud_agents.Steps.{PermissionScope}

abbrev pub only_allowed : Option (List String) → List String → List String
only_allowed none result = result
only_allowed (some allowed) result = keep_if (λ t. mem_text t allowed) result

abbrev pub without_denied : Option (List String) → List String → List String
without_denied none result = result
without_denied (some denied) result = keep_if (λ t. not (mem_text t denied)) result

pub effective_tools : PermissionScope → List String → List String
effective_tools scope all_tools =
    without_denied scope.denied_tools (only_allowed scope.allowed_tools all_tools)

-- The metadata of a step that its scope does not hold.
pub record PermissionMeta : Type 0 where
  pub risk_level : Option String
  pub target_namespaces : Option (List String)

-- A scope that names a service account and nothing else.
abbrev pub only_account : String → PermissionScope
only_account account = record {
  service_account = some account;
  allowed_tools = none;
  denied_tools = none;
  max_tokens = none;
  timeout_seconds = none;
}

-- The effective scope for a given legacy service account.
pub add_account : Option PermissionScope → String → Result (Option PermissionScope)
add_account none account = ok (some (only_account account))
add_account (some scope) account = elim scope.service_account [
  | none ↦ ok (some (record scope { service_account = some account }))
  | some held ↦ if held == account then ok (some scope) else err conflicting_service_account
]

abbrev pub collapse_account :
    Option PermissionScope → Option String → Result (Option PermissionScope)
collapse_account scope none = ok scope
collapse_account scope (some account) =
    let added = add_account scope account in if account == "" then ok scope else added

unfoldable pub collapse_permissions :
    Option PermissionScope
    → Option String
    → Option String
    → Option (List String)
    → Result (Option PermissionScope × PermissionMeta)
unfolding add_account
collapse_permissions permissions service_account risk_level target_namespaces = do
  scope ← collapse_account permissions service_account
  ok (scope, record { risk_level = risk_level; target_namespaces = target_namespaces })
