-- ===== src/Providers/Tests.antt =====
-- The theorems on providers at concrete inputs.
use lightspeed_cloud_agents.Prelude.{◌≡◌, refl, some, [], ◌∷◌, to_lower, lower, starts_with, lookup}
use lightspeed_cloud_agents.Json.{text}
use lightspeed_cloud_agents.Errors.{cross_provider, ok, err}
use lightspeed_cloud_agents.Steps.{Provider}
use lightspeed_cloud_agents.Credentials.{validate_credential_reference}
use lightspeed_cloud_agents.Providers.{
  InferenceProviderSpec, enforce_provider_boundary, select_provider,
}
use lightspeed_cloud_agents.Providers.Boundary.{IsOwn, select_provider-IsOwn}

abbrev run_openai : Provider
run_openai = ("name", text "openai") ∷ ("credentials_secret", text "OPENAI_KEY") ∷ []

abbrev gpt : InferenceProviderSpec
gpt = record { name = "openai"; model = "gpt-4o" }

selected_openai :
    select_provider (some gpt) run_openai []
    ≡ ok (record {
      name = text "openai";
      model = text "gpt-4o";
      credentials_secret = text "OPENAI_KEY";
    })
unfolding select_provider validate_credential_reference lookup starts_with lower to_lower
selected_openai = refl

crossing :
    enforce_provider_boundary (some (record { name = "azure"; model = "m" })) run_openai
    ≡ err cross_provider
unfolding enforce_provider_boundary lookup
crossing = refl

select_provider-IsOwn_example :
    IsOwn gpt run_openai [] (record {
      name = text "openai";
      model = text "gpt-4o";
      credentials_secret = text "OPENAI_KEY";
    })
select_provider-IsOwn_example = select_provider-IsOwn gpt run_openai [] _ selected_openai
