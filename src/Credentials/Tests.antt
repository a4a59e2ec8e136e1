-- ===== src/Credentials/Tests.antt =====
-- The theorems on credentials at concrete inputs.
use lightspeed_cloud_agents.Prelude.{
  ◌≡◌, refl, ◌≢◌, some, List, [], ◌∷◌, codes, to_lower, lower, is_word, starts_with, lookup,
}
use lightspeed_cloud_agents.Json.{text}
use lightspeed_cloud_agents.Errors.{credentialed_url, ok, err}
use lightspeed_cloud_agents.Steps.{McpEntry, named, inline}
use lightspeed_cloud_agents.Credentials.{
  strip_controls, validate_credential_reference, reject_secret_bearing_mcp,
}
use lightspeed_cloud_agents.Credentials.References.{
  IsReference, validate_credential_reference-IsReference, secret_value_refused,
}

reference_passes : validate_credential_reference (text "my-secret.v1") ≡ ok "my-secret.v1"
unfolding validate_credential_reference starts_with lower to_lower
reference_passes = refl

validate_credential_reference-IsReference_example : IsReference (text "my-secret.v1") "my-secret.v1"
validate_credential_reference-IsReference_example =
    validate_credential_reference-IsReference (text "my-secret.v1") "my-secret.v1" reference_passes

secret_value_refused_example : validate_credential_reference (text "SK-abc") ≢ ok "SK-abc"
unfolding lower to_lower
secret_value_refused_example =
    secret_value_refused "sk-" (codes "SK-") (codes "abc") "SK-abc" "SK-abc" refl refl refl

abbrev servers : List McpEntry
servers = named "kubectl" ∷ inline (("name", text "x") ∷ ("url", text "http://x/sse") ∷ []) ∷ []

abbrev leaking : List McpEntry
leaking = inline (("name", text "x") ∷ ("url", text "http://me:pw@x/sse") ∷ []) ∷ []

leaking_refused : reject_secret_bearing_mcp (some leaking) ≡ err credentialed_url
unfolding reject_secret_bearing_mcp lookup is_word strip_controls
leaking_refused = refl

-- `urlparse` drops spaces in front and tabs, so they do not hide a user name.
abbrev hidden : List McpEntry
hidden = inline (("name", text "x") ∷ ("url", text " ht\ttp://me:pw@x/sse") ∷ []) ∷ []

hidden_refused : reject_secret_bearing_mcp (some hidden) ≡ err credentialed_url
unfolding reject_secret_bearing_mcp lookup is_word strip_controls
hidden_refused = refl
