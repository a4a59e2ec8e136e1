-- ===== src/Scope/Tests.antt =====
-- The theorems on scopes at concrete inputs.
use lightspeed_cloud_agents.Prelude.{◌≡◌, refl, false, none, some, [], ◌∷◌, mem_text}
use lightspeed_cloud_agents.Steps.{PermissionScope}
use lightspeed_cloud_agents.Scope.{effective_tools, only_account, collapse_permissions}
use lightspeed_cloud_agents.Scope.Laws.{
  mem-effective_tools, Collapsed, collapse_permissions-Collapsed,
}

abbrev reader : PermissionScope
reader = record (only_account "sre") {
  allowed_tools = some ("get" ∷ "list" ∷ []);
  denied_tools = some ("list" ∷ []);
}

reader_tools : effective_tools reader ("get" ∷ "list" ∷ "delete" ∷ []) ≡ "get" ∷ []
unfolding effective_tools
reader_tools = refl

mem-effective_tools_example : mem_text "list" (effective_tools reader ("get" ∷ "list" ∷ [])) ≡ false
mem-effective_tools_example = mem-effective_tools reader "list" ("get" ∷ "list" ∷ [])

collapse_permissions-Collapsed_example :
    Collapsed
      (record { risk_level = none; target_namespaces = none })
      (some reader)
      (some "root")
      (collapse_permissions (some reader) (some "root") none none)
collapse_permissions-Collapsed_example =
    collapse_permissions-Collapsed (some reader) (some "root") none none
