-- ===== src/Servers/Chosen.antt =====
-- Which servers a step gets.
use lightspeed_cloud_agents.Prelude.{
  String, ◌≡◌, refl, ap, ◌∙◌, inl, inr, Bool, false, Option, none, some, List, [], ◌∷◌, ◌++◌, ◌==◌,
  if◌then◌else◌, Bool-cases, Dict, lookup, lookup-insert,
}
use lightspeed_cloud_agents.Json.{Value, entries}
use lightspeed_cloud_agents.Steps.{McpEntry, named, inline}
use lightspeed_cloud_agents.Servers.{
  entry_name, index_entry, index_catalog, add_server, resolve_entries, none_if_empty, or_empty,
  resolve_mcp_servers,
}

-- Whether a catalog entry bears a name.
abbrev pub bears : String → Option String → Bool
bears name none = false
bears name (some n) = n == name

-- The last entry of the catalog with a name.
unfoldable pub last_named : String → List (Dict Value) → Option (Dict Value)
last_named name [] = none
last_named name (d ∷ catalog) =
    let later = last_named name catalog in
    elim later [
      | some e ↦ some e
      | none ↦ if bears name (entry_name (lookup "name" d)) then some d else none
    ]

-- What one entry of a step stands for.
abbrev pub server_of : List (Dict Value) → McpEntry → List (Dict Value)
server_of catalog (named name) = elim (last_named name catalog) [ none ↦ [] | some d ↦ d ∷ [] ]
server_of catalog (inline config) = config ∷ []

unfoldable pub servers_of : List (Dict Value) → List McpEntry → List (Dict Value)
servers_of catalog [] = []
servers_of catalog (e ∷ entries) = server_of catalog e ++ servers_of catalog entries

abbrev later_or : Option (Dict Value) → Option (Dict Value) → Option (Dict Value)
later_or none before = before
later_or (some d) before = some d

lookup-index_entry :
    (name : String) (n : Option String) (d : Dict Value) (by_name : Dict (Dict Value))
    → lookup name (index_entry n d by_name)
      ≡ later_or (if bears name n then some d else none) (lookup name by_name)
lookup-index_entry name none d by_name = refl
lookup-index_entry name (some n) d by_name = elim (Bool-cases (n == name)) [
  | inl same ↦ rw same (lookup-insert n name d by_name ∙ rw same refl)
  | inr other ↦ rw other (lookup-insert n name d by_name ∙ rw other refl)
]

lookup-index_catalog :
    (name : String) (catalog : List (Dict Value)) (by_name : Dict (Dict Value))
    → lookup name (index_catalog catalog by_name)
      ≡ later_or (last_named name catalog) (lookup name by_name)
unfolding index_catalog last_named
lookup-index_catalog name [] by_name = refl
lookup-index_catalog name (d ∷ catalog) by_name =
    lookup-index_catalog name catalog (index_entry (entry_name (lookup "name" d)) d by_name)
    ∙ ap (later_or (last_named name catalog))
        (lookup-index_entry name (entry_name (lookup "name" d)) d by_name)
    ∙ join (last_named name catalog) (bears name (entry_name (lookup "name" d)))
  where
    join :
        (o : Option (Dict Value)) (b : Bool)
        → later_or o (later_or (if b then some d else none) (lookup name by_name))
          ≡ later_or
              (elim o [ some e ↦ some e | none ↦ if b then some d else none ])
              (lookup name by_name)
    join none b = refl
    join (some e) b = refl

resolve_entries-servers_of :
    (catalog : List (Dict Value)) (entries : List McpEntry)
    → resolve_entries (index_catalog catalog []) entries ≡ servers_of catalog entries
unfolding resolve_entries servers_of lookup
resolve_entries-servers_of catalog [] = refl
resolve_entries-servers_of catalog (inline config ∷ entries) =
    ap (λ r. config ∷ r) (resolve_entries-servers_of catalog entries)
resolve_entries-servers_of catalog (named name ∷ entries) =
    ap (λ o. add_server o (resolve_entries (index_catalog catalog []) entries))
      (lookup-index_catalog name catalog [])
    ∙ ap (add_server (later_or (last_named name catalog) none))
        (resolve_entries-servers_of catalog entries)
    ∙ added (last_named name catalog)
  where
    added :
        (o : Option (Dict Value))
        → add_server (later_or o none) (servers_of catalog entries)
          ≡ (elim o [ none ↦ [] | some d ↦ d ∷ [] ]) ++ servers_of catalog entries
    added none = refl
    added (some d) = refl

-- A step gets, in the order of its entries, its inline configurations and for each name the last
-- catalog entry of that name; an unknown name gives nothing, no other server of the catalog is ever
-- added, and a step that is left with no server gets none at all.
pub resolve_mcp_servers-servers_of :
    (entries : List McpEntry) (catalog : Option (List (Dict Value)))
    → resolve_mcp_servers (some entries) catalog
      ≡ none_if_empty (servers_of (or_empty catalog) entries)
unfolding resolve_mcp_servers
resolve_mcp_servers-servers_of entries catalog =
    ap none_if_empty (resolve_entries-servers_of (or_empty catalog) entries)
