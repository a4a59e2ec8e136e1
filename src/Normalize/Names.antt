-- ===== src/Normalize/Names.antt =====
-- The names and the metadata of a normalized definition.
use lightspeed_cloud_agents.Prelude.{
  ℕ, suc, String, ◌≡◌, refl, ap, inl, inr, false, Option, List, [], ◌∷◌, map, arith, Bool-cases,
  length, mem_text,
}
use lightspeed_cloud_agents.Json.{Value}
use lightspeed_cloud_agents.Errors.{
  duplicate_step_name, Ensures, returns, Ensures-bind, Ensures-refuse, Ensures-ok,
}
use lightspeed_cloud_agents.Steps.{RawStep}
use lightspeed_cloud_agents.Normalize.{
  text_if_given, apply_one_step_defaults, Defaults, Definition, workflow_defaults_from_definition,
  AgentStep, Entry, is_gate, check_names, normalize_workflow_step, normalize_steps,
  normalize_definition,
}

-- Each name is new: not among the used ones, nor among those before it.
abbrev pub Fresh : List String → List String → Type 0
Fresh used [] = Unit
Fresh used (n ∷ ns) = (mem_text n used ≡ false) × Fresh (n ∷ used) ns

-- The first list is contained in the second.
abbrev Within : List String → List String → Type 0
Within used more = (n : String) → mem_text n more ≡ false → mem_text n used ≡ false

Within-cons :
    (k : String) (used more : List String) → Within used more → Within (k ∷ used) (k ∷ more)
Within-cons k used more w n h = ground (arith, w n)

Fresh-Within : (used more ns : List String) → Within used more → Fresh more ns → Fresh used ns
Fresh-Within used more [] w h = tt
Fresh-Within used more (n ∷ ns) w h =
    (w n h.0, Fresh-Within (n ∷ used) (n ∷ more) ns (Within-cons n used more w) h.1)

-- What a definition that normalizes gives: agent steps under distinct names, and one entry of
-- metadata for each of its steps.
pub record IsNamed (used : List String) (raws : List RawStep) (r : List AgentStep × List Entry)
    : Type 0 where
  pub fresh : Fresh used (map (λ (s : AgentStep). s.name) r.0)
  pub entries : length r.1 ≡ length raws

module _ (count : Value → Option ℕ) (defaults : Defaults) (step_count : ℕ) where
  normalize_steps-IsNamed :
      (used : List String) (raws : List RawStep)
      → Ensures (IsNamed used raws) (normalize_steps count used raws defaults step_count)
  unfolding normalize_steps
  normalize_steps-IsNamed used [] = returns _ (record { fresh = tt; entries = refl })
  normalize_steps-IsNamed used (raw ∷ raws) = elim (Bool-cases (is_gate raw)) [
    | inl g ↦ rw g (
        Ensures-bind (apply_one_step_defaults raw step_count) λ gate e1.
          let name = text_if_given gate.name "" in
          Ensures-refuse (mem_text name used) duplicate_step_name λ e2.
            Ensures-bind (normalize_steps count (name ∷ used) raws defaults step_count) λ rest e3.
              let h = Ensures-ok rest e3 (normalize_steps-IsNamed (name ∷ used) raws) in
              returns _ (record {
                fresh = Fresh-Within used (name ∷ used) _ (λ n k. ground arith) h.fresh;
                entries = ap suc h.entries;
              }))
    | inr a ↦ rw a (
        Ensures-bind (normalize_workflow_step count raw defaults step_count) λ normalized e1.
          Ensures-refuse (mem_text normalized.0.name used) duplicate_step_name λ e2.
            Ensures-bind (normalize_steps count (normalized.0.name ∷ used) raws defaults step_count)
              λ rest e3.
                let h =
                  Ensures-ok rest e3 (normalize_steps-IsNamed (normalized.0.name ∷ used) raws) in
                returns _ (record { fresh = (e2, h.fresh); entries = ap suc h.entries }))
  ]

-- Whatever the definition, normalizing it fails or gives agent steps under distinct names and one
-- entry of metadata for each step, approval gates included.
pub normalize_definition-IsNamed :
    (count : Value → Option ℕ) (definition : Definition)
    → Ensures (IsNamed [] definition.steps) (normalize_definition count definition)
unfolding normalize_definition
normalize_definition-IsNamed count definition =
    Ensures-bind (check_names [] definition.steps) λ u e.
      normalize_steps-IsNamed count (workflow_defaults_from_definition definition)
        (length definition.steps) [] definition.steps
