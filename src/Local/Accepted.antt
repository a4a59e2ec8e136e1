-- ===== src/Local/Accepted.antt =====
-- What stands behind a response to `POST /run`.
use lightspeed_cloud_agents.Validation.Checks.{no_complaint}
use lightspeed_cloud_agents.Prelude.{
  ℕ, String, ◌≡◌, refl, subst, ◌⊎◌, inl, inr, Bool, true, false, not, Option, none, some, List, [],
  ◌∷◌, arith, if◌then◌else◌, Bool-cases, mem_text, All,
}
use lightspeed_cloud_agents.Json.{
  Items, cons, nil, Value, text, array, object, end, truthy, text_or,
}
use lightspeed_cloud_agents.Steps.{Provider}
use lightspeed_cloud_agents.RunStates.{
  already_exists, not_terminal, missing, not_connected, StoreAnswer, fails, gives, Store,
}
use lightspeed_cloud_agents.Local.Runner.{start}
use lightspeed_cloud_agents.Local.Api.{
  RunWorkflowRequest, Response, started, none_has_no_model_dump, bad_steps, bad_entries,
  bad_tools_of, has_unknown, stored_as, is_none_left, choose_provider, run_for, context_of,
  workflow_name_in, given_definition, start_with, checked_run, with_provider, with_definition,
  run_workflow,
}
use lightspeed_cloud_agents.Validation.{Problem, list_or_empty}
use lightspeed_cloud_agents.Validation.Policy.{ContentPolicy}
use lightspeed_cloud_agents.Validation.Submission.{
  ProviderEntry, absent, no_mapping, mapping, StepEntry, no_object, step_object, Spec,
  SubmittedDefinition, definition_provider_problems, validate_definition,
}
use lightspeed_cloud_agents.Validation.Graph.{IsFit, validate_definition-IsFit}

-- Every tool of the list is a registered name.
abbrev pub AreRegistered : List String → Items → Type 0
AreRegistered registered nil = Unit
AreRegistered registered (cons (text t) items) =
    (mem_text t registered ≡ true) × AreRegistered registered items
AreRegistered registered (cons other items) = ⊥

abbrev pub ToolsRegistered : List String → Value → Type 0
ToolsRegistered registered (array items) = AreRegistered registered items
ToolsRegistered registered _ = Unit

abbrev pub StepRegistered : List String → StepEntry → Type 0
StepRegistered registered no_object = Unit
StepRegistered registered (step_object s) = ToolsRegistered registered s.step.tools

abbrev pub NamesRegistered : List String → Option Spec → Type 0
NamesRegistered registered none = Unit
NamesRegistered registered (some spec) = All (StepRegistered registered) (list_or_empty spec.steps)

-- A run that is started is that of the request's definition, which is fit to run and names
-- registered tools only, with the request's provider or else the definition's. A run that is not
-- started stores nothing; and `model_dump` is not called on `None`.
pub record HasStarted (read : Value → SubmittedDefinition) (model_dump : Provider → Value)
    (registered : List String) (fresh_id : String) (request : RunWorkflowRequest) (now : ℕ)
    (before store : Store) : Type 0 where
  pub defn : Value
  pub provider : Provider
  pub given : request.definition ≡ some defn
  pub own_provider :
      (request.provider ≡ some provider)
      ⊎ ((request.provider ≡ none) × ((read defn).provider ≡ mapping provider))
  pub fit : IsFit (read defn)
  pub tools : NamesRegistered registered (read defn).spec
  pub stored :
      start
        (record {
          workflow_id = text_or request.workflow_id fresh_id;
          workflow_name = workflow_name_in defn;
          definition = defn;
          provider = model_dump provider;
          authz_context = object end;
          user_id = none;
          session_id = none;
          parent_workflow_id = none;
        })
        (context_of request)
        now
        before
      ≡ gives store

tools_registered :
    (registered : List String) (items : Items)
    → has_unknown registered items ≡ false
    → AreRegistered registered items
unfolding has_unknown
tools_registered registered nil h = tt
tools_registered registered (cons (text t) items) h =
    (ground (arith, h), tools_registered registered items (ground (arith, h)))
tools_registered registered (cons other items) h = ground (arith, h)

value_registered :
    (registered : List String) (v : Value)
    → bad_tools_of registered v ≡ false
    → ToolsRegistered registered v
value_registered registered (array items) h = tools_registered registered items h
value_registered registered v h = tt

entries_registered :
    (registered : List String) (es : List StepEntry)
    → bad_entries registered es ≡ false
    → All (StepRegistered registered) es
unfolding bad_entries
entries_registered registered [] h = tt
entries_registered registered (no_object ∷ es) h = (tt, entries_registered registered es h)
entries_registered registered (step_object s ∷ es) h = (
  value_registered registered s.step.tools (ground (arith, h)),
  entries_registered registered es (ground (arith, h)),
)

steps_registered :
    (registered : List String) (spec : Option Spec)
    → bad_steps registered spec ≡ false
    → NamesRegistered registered spec
steps_registered registered none h = tt
steps_registered registered (some spec) h =
    entries_registered registered (list_or_empty spec.steps) h

none_left : (ps : List Problem) → is_none_left ps ≡ true → ps ≡ []
none_left [] h = refl
none_left (p ∷ ps) h = ground (arith, h)

module _ (matches : String → String → Bool) (is_provider_config : Provider → Bool)
    (is_workflow_definition : Value → Bool) (read : Value → SubmittedDefinition)
    (model_dump : Provider → Value) (registered : List String) (policy : Option ContentPolicy)
    (fresh_id : String) (request : RunWorkflowRequest) (now : ℕ) (before : Store) where
  abbrev pub IsJustified : Response × Store → Type 0
  IsJustified (none_has_no_model_dump, store) = ⊥
  IsJustified (started, store) =
      HasStarted read model_dump registered fresh_id request now before store
  IsJustified (_, store) = store ≡ before

  if-IsJustified :
      (b : Bool) (x y : Response × Store)
      → (b ≡ true → IsJustified x)
      → (b ≡ false → IsJustified y)
      → IsJustified (if b then x else y)
  if-IsJustified true x y hx hy = hx refl
  if-IsJustified false x y hx hy = hy refl

  -- The provider's origin; it may be missing only where the definition's is no mapping, which
  -- validation complains about.
  abbrev HasOrigin : Value → Option Provider → Type 0
  HasOrigin defn none = (read defn).provider ≡ no_mapping
  HasOrigin defn (some p) =
      (request.provider ≡ some p) ⊎ ((request.provider ≡ none) × ((read defn).provider ≡ mapping p))

  stored-IsJustified :
      (defn : Value) (p : Provider) (answer : StoreAnswer Store)
      → start
          (run_for matches is_provider_config is_workflow_definition read model_dump registered
            policy fresh_id request defn p)
          (context_of request)
          now
          before
        ≡ answer
      → request.definition ≡ some defn
      → HasOrigin defn (some p)
      → IsFit (read defn)
      → NamesRegistered registered (read defn).spec
      → IsJustified (stored_as before answer)
  stored-IsJustified defn p (fails already_exists) made given origin fit tools = refl
  stored-IsJustified defn p (fails not_terminal) made given origin fit tools = refl
  stored-IsJustified defn p (fails missing) made given origin fit tools = refl
  stored-IsJustified defn p (fails not_connected) made given origin fit tools = refl
  stored-IsJustified defn p (gives s) made given origin fit tools = record {
    defn = defn;
    provider = p;
    given = given;
    own_provider = origin;
    fit = fit;
    tools = tools;
    stored = made;
  }

  start_with-IsJustified :
      (defn : Value) (p : Option Provider)
      → HasOrigin defn p
      → request.definition ≡ some defn
      → IsFit (read defn)
      → NamesRegistered registered (read defn).spec
      → IsJustified (
          start_with matches is_provider_config is_workflow_definition read model_dump registered
            policy fresh_id request now before defn p)
  start_with-IsJustified defn none origin given fit tools = absurd (
      no_complaint _ _ (subst (λ e. definition_provider_problems e ≡ []) origin fit.provider_sound))
  start_with-IsJustified defn (some p) origin given fit tools =
      stored-IsJustified defn p
        (start
          (run_for matches is_provider_config is_workflow_definition read model_dump registered
            policy fresh_id request defn p)
          (context_of request) now before)
        refl given origin fit tools

  checked_run-IsJustified :
      (defn : Value) (p : Option Provider)
      → HasOrigin defn p
      → request.definition ≡ some defn
      → IsJustified (
          checked_run matches is_provider_config is_workflow_definition read model_dump registered
            policy fresh_id request now before defn p)
  checked_run-IsJustified defn p origin given =
      let problems = validate_definition matches (read defn) policy in
      if-IsJustified (bad_steps registered (read defn).spec) _ _ (λ h. refl)
        (λ tools.
          if-IsJustified (not (is_none_left problems)) _ _ (λ h. refl)
            (λ quiet.
              if-IsJustified (not (is_workflow_definition defn)) _ _ (λ h. refl)
                (λ modelled.
                  start_with-IsJustified defn p origin given
                    (validate_definition-IsFit matches (read defn) policy
                      (none_left problems (ground (arith, quiet))))
                    (steps_registered registered (read defn).spec tools))))

  with_provider-IsJustified :
      (defn : Value) (own : Option Provider) (entry : ProviderEntry)
      → request.provider ≡ own
      → (read defn).provider ≡ entry
      → request.definition ≡ some defn
      → IsJustified (
          with_provider matches is_provider_config is_workflow_definition read model_dump registered
            policy fresh_id request now before defn
            (choose_provider matches is_provider_config is_workflow_definition read model_dump
              registered policy fresh_id own entry))
  with_provider-IsJustified defn (some p) entry o e given =
      checked_run-IsJustified defn (some p) (inl o) given
  with_provider-IsJustified defn none absent o e given = refl
  with_provider-IsJustified defn none no_mapping o e given =
      checked_run-IsJustified defn none e given
  with_provider-IsJustified defn none (mapping p) o e given =
      elim (Bool-cases (is_provider_config p)) [
        | inl yes_ ↦ rw yes_ (checked_run-IsJustified defn (some p) (inr (o, e)) given)
        | inr no_ ↦ rw no_ refl
      ]

  with_definition-IsJustified :
      (o : Option Value)
      → request.definition ≡ o
      → IsJustified (
          with_definition matches is_provider_config is_workflow_definition read model_dump
            registered policy fresh_id request now before
            (given_definition o))
  with_definition-IsJustified none given = refl
  with_definition-IsJustified (some defn) given = elim (Bool-cases (truthy defn)) [
    | inl filled ↦
        rw filled
          (with_provider-IsJustified defn request.provider (read defn).provider refl refl given)
    | inr empty ↦ rw empty refl
  ]

  -- A run is started only with the definition of the request, which is fit to run, as validation
  -- ensures, and names registered tools only, and with the request's provider or, where it has none,
  -- the definition's; the row that is then stored has this definition and this provider. A request
  -- that is refused leaves the store as it was. No request gets to the start without a provider.
  pub run_workflow-IsJustified : IsJustified (
      run_workflow matches is_provider_config is_workflow_definition read model_dump registered
        policy fresh_id request now before)
  unfolding run_workflow
  run_workflow-IsJustified = with_definition-IsJustified request.definition refl
