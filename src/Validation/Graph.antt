-- ===== src/Validation/Graph.antt =====
-- From a definition that passes validation to the graph of the local engine.
use lightspeed_cloud_agents.Prelude.{
  ℕ, ◌+◌, String, ◌≡◌, refl, ap, ◌∙◌, subst, ◌≢◌, inl, inr, Bool, false, ◌||◌, Option, none, some,
  List, [], ◌∷◌, map, arith, ◌==◌, Bool-cases, Option-cases, All, mem_text,
}
use lightspeed_cloud_agents.Steps.{McpEntry, RawStep}
use lightspeed_cloud_agents.Errors.{ok}
use lightspeed_cloud_agents.Normalize.{or_text, is_missing, apply_one_step_defaults}
use lightspeed_cloud_agents.Local.{Node, node_named, add_node, named_nodes, one_named, build_graph}
use lightspeed_cloud_agents.Local.Stored.{DistinctKeys}
use lightspeed_cloud_agents.Validation.{
  unknown_definition_fields, unknown_spec_fields, unknown, complain_of, definition_fields,
  spec_fields,
}
use lightspeed_cloud_agents.Validation.Policy.{ContentPolicy, Submitted}
use lightspeed_cloud_agents.Validation.Submission.{
  StepEntry, no_object, step_object, Spec, SubmittedDefinition, check_steps, add_object, objects,
  not_objects, with_step_of, with_defaults, definition_provider_problems, checked_objects,
  checked_entries, checked_spec, validate_definition,
}
use lightspeed_cloud_agents.Validation.Checks.{silent, AreSound, no_complaint, check_steps-AreSound}

-- Nodes for all steps, with distinct keys that were not seen.
abbrev NodesOf : List RawStep → List String → Type 0
NodesOf steps keys =
    (ns : List Node) × (named_nodes steps ≡ some ns)
    × All (λ n. mem_text n.output_key keys ≡ false) ns
    × DistinctKeys ns

unseen :
    (key k : String) (keys : List String)
    → mem_text k (key ∷ keys) ≡ false
    → ((key == k) ≡ false) × (mem_text k keys ≡ false)
unseen key k keys h = elim (Bool-cases (key == k)) [
  | inl same ↦ let seen = rw same at h in ground (arith, seen)
  | inr other ↦ (other, rw other at h)
]

apart :
    (key : String) (keys : List String) (ns : List Node)
    → All (λ n. mem_text n.output_key (key ∷ keys) ≡ false) ns
    → All (λ n. (key == n.output_key) ≡ false) ns × All (λ n. mem_text n.output_key keys ≡ false) ns
apart key keys [] h = (tt, tt)
apart key keys (n ∷ ns) h =
    let here = unseen key n.output_key keys h.0 in
    let rest = apart key keys ns h.1 in ((here.0, rest.0), (here.1, rest.1))

sound_nodes :
    (default : Option (List McpEntry)) (names keys : List String) (steps : List RawStep)
    → AreSound default names keys steps
    → NodesOf steps keys
unfolding named_nodes
sound_nodes default names keys [] h = ([], refl, tt, tt)
sound_nodes default names keys (step ∷ steps) (name, key, sound, rest) =
    let (ns, made, fresh_, distinct_) =
      sound_nodes default (name ∷ names) (key ∷ keys) steps rest in
    let (far, unused) = apart key keys ns fresh_ in
    let n : Node = record {
      name = name;
      output_key = key;
      is_gate = elim step.kind [ none ↦ false | some kind ↦ kind == "human-approval" ];
      step = step;
    } in
    (
      n ∷ ns,
      ap (λ o. add_node (node_named step o) (named_nodes steps)) sound.named
          ∙ ap (add_node (node_named step (some name))) made
          ∙ ap (λ o. some (record n { output_key = elim o [ none ↦ name | some k ↦ k ] } ∷ ns))
              sound.keyed,
      (sound.key_new, unused),
      (far, distinct_),
    )

abbrev defaulted : RawStep → RawStep
defaulted step = record step {
  kind = or_text step.kind "agent";
  name = or_text step.name "agent";
  output_key = or_text step.output_key "result";
}

one_step_defaulted : (step : RawStep) → apply_one_step_defaults step 1 ≡ ok (defaulted step)
unfolding apply_one_step_defaults
one_step_defaulted step = elim (Bool-cases (is_missing step.name || is_missing step.output_key)) [
  | inl some_missing ↦ rw some_missing refl
  | inr none_missing ↦ rw none_missing refl
]

-- What the local engine builds from steps whose defaulted ones are sound.
pub build_graph-built :
    (default : Option (List McpEntry)) (ss : List Submitted)
    → AreSound default [] [] (map (λ s. s.step) (with_defaults ss))
    → (ns : List Node) × (build_graph (map (λ s. s.step) ss) ≡ some ns) × DistinctKeys ns
unfolding build_graph
build_graph-built default [] h = ([], refl, tt)
build_graph-built default (s ∷ []) h =
    let one = one_step_defaulted s.step in
    let (ns, made, fresh_, distinct_) =
      sound_nodes default [] [] (defaulted s.step ∷ [])
        (subst (λ r. AreSound default [] [] ((with_step_of s r).step ∷ [])) one h) in
    (ns, ap one_named one ∙ made, distinct_)
build_graph-built default (s ∷ t ∷ ss) h =
    let (ns, made, fresh_, distinct_) =
      sound_nodes default [] [] (s.step ∷ t.step ∷ map (λ r. r.step) ss) h in
    (ns, made, distinct_)

-- A member that is no object is complained about.
complains : (i : ℕ) (es : List StepEntry) → objects es ≡ none → not_objects i es ≢ []
unfolding objects not_objects
complains i [] h = cc
complains i (no_object ∷ es) h = no_complaint _ _
complains i (step_object s ∷ es) h = complains (i + 1) es (behind_object s (objects es) h)
  where
    behind_object :
        (s : Submitted) (o : Option (List Submitted))
        → add_object (step_object s) o ≡ none
        → o ≡ none
    behind_object s none h = refl
    behind_object s (some ss) h = cc

-- A submitted definition that is fit to run: its spec has steps, all of them objects; with the
-- defaults of a lone step they are sound; and the local engine builds a graph from them, whose nodes
-- have distinct keys.
pub record IsFit (defn : SubmittedDefinition) : Type 0 where
  pub spec : Spec
  pub members : List StepEntry
  pub steps : List Submitted
  pub nodes : List Node
  pub has_spec : defn.spec ≡ some spec
  pub has_members : spec.steps ≡ some members
  pub has_steps : objects members ≡ some steps
  pub sound : AreSound spec.mcp_servers [] [] (map (λ s. s.step) (with_defaults steps))
  pub built : build_graph (map (λ s. s.step) steps) ≡ some nodes
  pub distinct_keys : DistinctKeys nodes
  pub provider_sound : definition_provider_problems defn.provider ≡ []

-- A definition that validation has no complaint about is fit to run: every step, a lone one with
-- its defaults, has a filled name and a filled output key that no other has, no reference in its
-- prompt to a later step, no secret in its MCP servers, and a valid number of retries; and the local
-- engine builds from them a graph with distinct keys.
pub validate_definition-IsFit :
    (matches : String → String → Bool) (defn : SubmittedDefinition) (policy : Option ContentPolicy)
    → validate_definition matches defn policy ≡ []
    → IsFit defn
unfolding validate_definition
validate_definition-IsFit matches defn policy h =
    let (a, rest) =
      silent (complain_of unknown_definition_fields (unknown definition_fields defn.fields)) _ h in
    elim (Option-cases defn.spec) [
      | inl missing ↦ absurd (no_complaint _ _ (rw missing at rest))
      | inr (spec, there) ↦ fit spec there (rw there at rest)
    ]
  where
    fit_objects :
        (spec : Spec) (members : List StepEntry) (o : Option (List Submitted))
        → defn.spec ≡ some spec
        → spec.steps ≡ some members
        → objects members ≡ o
        → (o ≡ none → not_objects 0 members ≢ [])
        → checked_objects matches defn spec policy members o ≡ []
        → IsFit defn
    fit_objects spec members none there listed read bad quiet = absurd (bad refl quiet)
    fit_objects spec members (some ss) there listed read bad quiet =
        let (a, rest) = silent (definition_provider_problems defn.provider) _ quiet in
        let (b, c) = silent (check_steps spec.mcp_servers 0 [] [] (with_defaults ss)) _ rest in
        let all_sound = check_steps-AreSound spec.mcp_servers 0 [] [] (with_defaults ss) b in
        let (ns, made, distinct_) = build_graph-built spec.mcp_servers ss all_sound in
        record {
          spec = spec;
          members = members;
          steps = ss;
          nodes = ns;
          has_spec = there;
          has_members = listed;
          has_steps = read;
          sound = all_sound;
          built = made;
          distinct_keys = distinct_;
          provider_sound = a;
        }

    fit_entries :
        (spec : Spec) (o : Option (List StepEntry))
        → defn.spec ≡ some spec
        → spec.steps ≡ o
        → checked_entries matches defn spec policy o ≡ []
        → IsFit defn
    fit_entries spec none there listed quiet = absurd (no_complaint _ _ quiet)
    fit_entries spec (some []) there listed quiet = absurd (no_complaint _ _ quiet)
    fit_entries spec (some (e ∷ es)) there listed quiet =
        fit_objects spec (e ∷ es) (objects (e ∷ es)) there listed refl (complains 0 (e ∷ es)) quiet

    fit :
        (spec : Spec)
        → defn.spec ≡ some spec
        → checked_spec matches defn policy (some spec) ≡ []
        → IsFit defn
    fit spec there quiet =
        let (a, rest) =
          silent (complain_of unknown_spec_fields (unknown spec_fields spec.fields)) _ quiet in
        fit_entries spec spec.steps there refl rest
