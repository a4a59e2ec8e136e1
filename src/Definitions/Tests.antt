-- ===== src/Definitions/Tests.antt =====
-- Two versions of one definition, by their texts.
use lightspeed_cloud_agents.Prelude.{String, ◌≡◌, refl, none, List, [], ◌∷◌, lookup, insert}
use lightspeed_cloud_agents.Definitions.{
  DefinitionStore, versions_of, latest, save, get, get_version, deactivate_latest, delete,
}
use lightspeed_cloud_agents.Definitions.Versions.{
  Call, saving, deleting, after, Has, get_version-save,
}

abbrev no_definitions : DefinitionStore String
no_definitions = []

abbrev later_calls : List (Call String)
later_calls = saving "clean" "second" ∷ deleting "clean" ∷ saving "other" "third" ∷ []

get_version-save_example :
    Has String "clean" (save String "clean" "first" no_definitions).0.version "first" (
      get_version String "clean"
        (save String "clean" "first" no_definitions).0.version
        (after String later_calls (save String "clean" "first" no_definitions).1))
get_version-save_example = get_version-save String "clean" "first" no_definitions later_calls

deleted_is_gone :
    get String "clean" (after String later_calls (save String "clean" "first" no_definitions).1)
    ≡ none
unfolding get after save delete versions_of latest deactivate_latest lookup insert
deleted_is_gone = refl
