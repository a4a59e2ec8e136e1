-- ===== src/Servers.antt =====
-- Resolution of a step's MCP servers: src/cloud_agents/workflow/core/mcp_resolver.py. The entries of a
-- step are texts or mappings, those of the catalog mappings.
pub mod Chosen
mod Tests
use lightspeed_cloud_agents.Prelude.{
  ℕ, zero, suc, ◌+◌, ◌-◌, ◌*◌, ◌/◌, ◌%◌, ◌^◌, ◌≤◌, ◌<◌, String, ◌≡◌, refl, sym, ap, ◌∙◌, subst, ◌≢◌,
  ◌↔◌, ◌⊎◌, inl, inr, Bool, true, false, not, ◌&&◌, ◌||◌, Option, none, some, List, [], ◌∷◌, ◌++◌,
  map, append-nil, append_assoc, arith, eq_iff, eq_refl, ltb, leb, nat_eq, ◌==◌, if◌then◌else◌,
  ltb→lt, nat_eq→eq, Bool-cases, Option-cases, length, get_elem?, take, is_empty, any, all, keep_if,
  All, length-append, All-append, mem_text, codes, to_lower, lower, is_word, is_space, starts_with,
  contains, same_text, starts_with_self, lower-append, Dict, lookup, insert, remove, keep_values,
  lookup-insert, lookup-remove,
}
use lightspeed_cloud_agents.Json.{
  Fields, end, field, Items, cons, nil, Value, null, text, boolean, natural, negative, object,
  array, truthy, is_null, or_else, entries, has_text, text_or, option_or,
}
use lightspeed_cloud_agents.Steps.{
  PermissionScope, SpawnConfig, Provider, McpEntry, named, inline, RawStep, blank,
}

-- `isinstance(name, str) and name`.
abbrev pub entry_name : Option Value → Option String
entry_name (some (text s)) = if s == "" then none else some s
entry_name _ = none

abbrev pub index_entry : Option String → Dict Value → Dict (Dict Value) → Dict (Dict Value)
index_entry none d by_name = by_name
index_entry (some name) d by_name = insert name d by_name

-- The loop over the catalog.
unfoldable pub index_catalog : List (Dict Value) → Dict (Dict Value) → Dict (Dict Value)
index_catalog [] by_name = by_name
index_catalog (d ∷ catalog) by_name =
    index_catalog catalog (index_entry (entry_name (lookup "name" d)) d by_name)

abbrev pub add_server : Option (Dict Value) → List (Dict Value) → List (Dict Value)
add_server none servers = servers
add_server (some d) servers = d ∷ servers

-- The loop over the step's entries.
unfoldable pub resolve_entries : Dict (Dict Value) → List McpEntry → List (Dict Value)
resolve_entries by_name [] = []
resolve_entries by_name (named name ∷ entries) =
    add_server (lookup name by_name) (resolve_entries by_name entries)
resolve_entries by_name (inline config ∷ entries) = config ∷ resolve_entries by_name entries

abbrev pub none_if_empty : List (Dict Value) → Option (List (Dict Value))
none_if_empty [] = none
none_if_empty (d ∷ servers) = some (d ∷ servers)

abbrev pub or_empty : Option (List (Dict Value)) → List (Dict Value)
or_empty none = []
or_empty (some ds) = ds

unfoldable pub resolve_mcp_servers :
    Option (List McpEntry) → Option (List (Dict Value)) → Option (List (Dict Value))
unfolding index_catalog resolve_entries
resolve_mcp_servers none catalog = none
resolve_mcp_servers (some entries) catalog =
    none_if_empty (resolve_entries (index_catalog (or_empty catalog) []) entries)
