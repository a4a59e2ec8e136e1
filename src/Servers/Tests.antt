-- ===== src/Servers/Tests.antt =====
-- Resolution against a concrete catalog.
use lightspeed_cloud_agents.Prelude.{String, ◌≡◌, refl, some, List, [], ◌∷◌, Dict, lookup, insert}
use lightspeed_cloud_agents.Json.{Value, text}
use lightspeed_cloud_agents.Steps.{named}
use lightspeed_cloud_agents.Servers.{none_if_empty, or_empty, resolve_mcp_servers}
use lightspeed_cloud_agents.Servers.Chosen.{servers_of, resolve_mcp_servers-servers_of}

abbrev server : String → String → Dict Value
server name url = ("name", text name) ∷ ("url", text url) ∷ []

abbrev two_named_a : List (Dict Value)
two_named_a = server "a" "http://1" ∷ server "b" "http://2" ∷ server "a" "http://3" ∷ []

last_wins :
    resolve_mcp_servers (some (named "a" ∷ named "c" ∷ [])) (some two_named_a)
    ≡ some (server "a" "http://3" ∷ [])
unfolding resolve_mcp_servers lookup insert
last_wins = refl

resolve_mcp_servers-servers_of_example :
    resolve_mcp_servers (some (named "a" ∷ named "c" ∷ [])) (some two_named_a)
    ≡ none_if_empty (servers_of (or_empty (some two_named_a)) (named "a" ∷ named "c" ∷ []))
resolve_mcp_servers-servers_of_example =
    resolve_mcp_servers-servers_of (named "a" ∷ named "c" ∷ []) (some two_named_a)
