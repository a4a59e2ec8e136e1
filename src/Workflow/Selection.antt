-- ===== src/Workflow/Selection.antt =====
-- The provider that an activity is given: the selection in `_handle_agent_step` of
-- src/cloud_agents/workflow/executor/temporal/workflow.py.
use lightspeed_cloud_agents.Prelude.{
  String, ◌≡◌, refl, sym, ap, ◌∙◌, inl, inr, Bool, true, false, Option, none, some, ◌==◌,
  if◌then◌else◌, Bool-cases, lookup, insert, remove, lookup-insert, lookup-remove,
}
use lightspeed_cloud_agents.Json.{Value, null, text, truthy}
use lightspeed_cloud_agents.Steps.{Provider}
use lightspeed_cloud_agents.Providers.{InferenceProviderSpec, value_of, is_text}

-- `.get("credentials_secret")` of a mapping that may be missing.
abbrev pub secret_in : Option Provider → Value
secret_in none = null
secret_in (some mapping) = value_of (lookup "credentials_secret" mapping)

-- The reference of the definition is added where the run has none.
abbrev pub add_reference : Value → Provider → Provider
add_reference reference provider =
    if truthy reference then insert "credentials_secret" reference provider else provider

abbrev pub with_reference : Bool → Bool → Value → Provider → Provider
with_reference false filled_in reference provider = remove "credentials_secret" provider
with_reference true true reference provider = provider
with_reference true false reference provider = add_reference reference provider

abbrev pub chosen_over_run : InferenceProviderSpec → Provider → Provider
chosen_over_run spec run_provider =
    insert "model" (text spec.model) (insert "name" (text spec.name) run_provider)

unfoldable pub activity_provider :
    Option InferenceProviderSpec → Provider → Option Provider → Provider
activity_provider none run_provider definition = run_provider
activity_provider (some spec) run_provider definition =
    with_reference (is_text spec.name (value_of (lookup "name" run_provider)))
      (truthy (value_of (lookup "credentials_secret" run_provider))) (secret_in definition)
      (chosen_over_run spec run_provider)

-- What an activity is told about its provider.
pub record Selects (spec : InferenceProviderSpec) (run_provider : Provider)
    (definition : Option Provider) (p : Provider) : Type 0 where
  pub name : lookup "name" p ≡ some (text spec.name)
  pub model : lookup "model" p ≡ some (text spec.model)
  pub foreign :
      is_text spec.name (value_of (lookup "name" run_provider)) ≡ false
      → lookup "credentials_secret" p ≡ none
  pub own :
      is_text spec.name (value_of (lookup "name" run_provider)) ≡ true
      → truthy (value_of (lookup "credentials_secret" run_provider)) ≡ true
      → lookup "credentials_secret" p ≡ lookup "credentials_secret" run_provider
  pub added :
      is_text spec.name (value_of (lookup "name" run_provider)) ≡ true
      → truthy (value_of (lookup "credentials_secret" run_provider)) ≡ false
      → truthy (secret_in definition) ≡ true
      → lookup "credentials_secret" p ≡ some (secret_in definition)

module _ (spec : InferenceProviderSpec) (run_provider : Provider) where
  at_key :
      (k : String)
      → lookup k (chosen_over_run spec run_provider) ≡ (
          if "model" == k
          then some (text spec.model)
          else if "name" == k
          then some (text spec.name)
          else lookup k run_provider)
  at_key k =
      lookup-insert "model" k (text spec.model) (insert "name" (text spec.name) run_provider)
      ∙ ap (λ r. if "model" == k then some (text spec.model) else r)
          (lookup-insert "name" k (text spec.name) run_provider)

  with_reference-keeps :
      (k : String) (same filled_in : Bool) (reference : Value) (p : Provider)
      → ("credentials_secret" == k) ≡ false
      → lookup k (with_reference same filled_in reference p) ≡ lookup k p
  with_reference-keeps k false filled_in reference p e =
      lookup-remove "credentials_secret" k p ∙ rw e refl
  with_reference-keeps k true true reference p e = refl
  with_reference-keeps k true false reference p e = elim (Bool-cases (truthy reference)) [
    | inl yes_ ↦ rw yes_ (lookup-insert "credentials_secret" k reference p ∙ rw e refl)
    | inr not_so ↦ rw not_so refl
  ]

  with_reference-Selects :
      (definition : Option Provider) (same filled_in : Bool)
      → is_text spec.name (value_of (lookup "name" run_provider)) ≡ same
      → truthy (value_of (lookup "credentials_secret" run_provider)) ≡ filled_in
      → Selects spec run_provider definition
          (with_reference same filled_in (secret_in definition) (chosen_over_run spec run_provider))
  with_reference-Selects definition same filled_in e f = record {
    name =
        with_reference-keeps "name" same filled_in (secret_in definition)
          (chosen_over_run spec run_provider) refl
        ∙ at_key "name";
    model =
        with_reference-keeps "model" same filled_in (secret_in definition)
          (chosen_over_run spec run_provider) refl
        ∙ at_key "model";
    foreign = λ h. is_foreign same filled_in (sym e ∙ h);
    own = λ h k. is_own same filled_in (sym e ∙ h) (sym f ∙ k);
    added = λ h k t. is_added same filled_in (sym e ∙ h) (sym f ∙ k) t;
  }
    where
      is_foreign :
          (x y : Bool)
          → x ≡ false
          → lookup "credentials_secret"
              (with_reference x y (secret_in definition) (chosen_over_run spec run_provider))
            ≡ none
      is_foreign true y h = cc
      is_foreign false y h =
          lookup-remove "credentials_secret" "credentials_secret"
            (chosen_over_run spec run_provider)

      is_own :
          (x y : Bool)
          → x ≡ true
          → y ≡ true
          → lookup "credentials_secret"
              (with_reference x y (secret_in definition) (chosen_over_run spec run_provider))
            ≡ lookup "credentials_secret" run_provider
      is_own true true h k = at_key "credentials_secret"
      is_own true false h k = cc
      is_own false y h k = cc

      is_added :
          (x y : Bool)
          → x ≡ true
          → y ≡ false
          → truthy (secret_in definition) ≡ true
          → lookup "credentials_secret"
              (with_reference x y (secret_in definition) (chosen_over_run spec run_provider))
            ≡ some (secret_in definition)
      is_added true false h k t = rw t (
          lookup-insert "credentials_secret" "credentials_secret" (secret_in definition)
            (chosen_over_run spec run_provider))
      is_added true true h k t = cc
      is_added false y h k t = cc

-- Where a step or its definition chooses the provider, the activity gets the chosen name and model.
-- It gets no reference to credentials when the run's provider has another name, the run's own
-- reference when the run has one for that name, and otherwise the definition's reference, whatever
-- provider the definition names with it.
pub activity_provider-Selects :
    (spec : InferenceProviderSpec) (run_provider : Provider) (definition : Option Provider)
    → Selects spec run_provider definition (activity_provider (some spec) run_provider definition)
unfolding activity_provider
activity_provider-Selects spec run_provider definition =
    with_reference-Selects spec run_provider definition _ _ refl refl
