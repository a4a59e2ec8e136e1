-- ===== src/Validation/Checks.antt =====
-- What a definition without complaints has.
use lightspeed_cloud_agents.Validation.Policy.{Submitted}
use lightspeed_cloud_agents.Prelude.{
  ℕ, ◌+◌, String, ◌≡◌, refl, sym, ap, ◌∙◌, inl, inr, Bool, true, false, not, Option, none, some,
  List, [], ◌∷◌, ◌++◌, map, ◌==◌, Bool-cases, Option-cases, All, mem_text, codes,
}
use lightspeed_cloud_agents.Json.{option_or}
use lightspeed_cloud_agents.Steps.{McpEntry, RawStep}
use lightspeed_cloud_agents.Errors.{Error, Result, err, ok}
use lightspeed_cloud_agents.Credentials.{reject_secret_bearing_mcp}
use lightspeed_cloud_agents.Validation.{
  Problem, duplicate_name, bad_retries, bad_schema, undefined_reference, bearing_secret,
  complain_if, complain_of_error, output_schema_problems, template_references, among,
  reference_problems, valid_retries, skill_problems, server_problems, text_or_empty, list_or_empty,
}
use lightspeed_cloud_agents.Validation.Submission.{
  add_key, key_problems, field_problems, unknown_problems, check_steps,
}

pub silent {ℓ} : {A : Type ℓ} (xs ys : List A) → xs ++ ys ≡ [] → (xs ≡ []) × (ys ≡ [])
silent [] ys h = (refl, h)
silent (x ∷ xs) ys h = cc

pub quiet_if : (b : Bool) (p : Problem) → complain_if b p ≡ [] → b ≡ false
quiet_if true p h = cc
quiet_if false p h = refl

-- A result that gave no complaint is no error.
abbrev pub Succeeds : {A : Type 0} → Result A → Type 0
Succeeds (err e) = ⊥
Succeeds (ok a) = Unit

quiet_result :
    {A : Type 0} (p : Error → Problem) (r : Result A) → complain_of_error p r ≡ [] → Succeeds r
quiet_result p (err e) h = cc
quiet_result p (ok a) h = tt

-- A step with a name and a key of its own; the references of its prompt are keys of steps before it
-- or its own, its servers carry no secret, its retries are a count.
pub record IsSound (default : Option (List McpEntry)) (names keys : List String) (step : RawStep)
    (name key : String) : Type 0 where
  pub named : step.name ≡ some name
  pub name_filled : (name == "") ≡ false
  pub name_new : mem_text name names ≡ false
  pub keyed : step.output_key ≡ some key
  pub key_filled : (key == "") ≡ false
  pub key_new : mem_text key keys ≡ false
  pub retries_valid : valid_retries step.max_retries ≡ true
  pub known :
      All
        (λ ref. among (key ∷ keys) ref ≡ true)
        (template_references (codes (text_or_empty step.prompt)))
  pub clean : Succeeds (reject_secret_bearing_mcp (option_or step.mcp_servers default))

abbrev pub AreSound : Option (List McpEntry) → List String → List String → List RawStep → Type 0
AreSound default names keys [] = Unit
AreSound default names keys (step ∷ steps) =
    (name : String) × (key : String) × IsSound default names keys step name key
    × AreSound default (name ∷ names) (key ∷ keys) steps

quiet_references :
    (name : String) (keys : List String) (refs : List (List ℕ))
    → reference_problems name keys refs ≡ []
    → All (λ ref. among keys ref ≡ true) refs
unfolding reference_problems
quiet_references name keys [] h = tt
quiet_references name keys (ref ∷ refs) h =
    let (first, rest) =
      silent (complain_if (not (among keys ref)) (undefined_reference name ref))
        (reference_problems name keys refs) h in
    (
      negated (among keys ref)
          (quiet_if (not (among keys ref)) (undefined_reference name ref) first),
      quiet_references name keys refs rest,
    )
  where
    negated : (b : Bool) → not b ≡ false → b ≡ true
    negated true h = refl
    negated false h = sym h

quiet_key :
    (name : String) (o : Option String) (keys : List String)
    → key_problems name o keys ≡ []
    → (key : String) × (o ≡ some key) × ((key == "") ≡ false) × (mem_text key keys ≡ false)
quiet_key name none keys h = cc
quiet_key name (some key) keys h = elim (Bool-cases (key == "")) [
  | inl empty ↦ let seen = rw empty at h in cc
  | inr filled_ ↦ elim (Bool-cases (mem_text key keys)) [
    | inl old ↦ let seen = rw (filled_, old) at h in cc
    | inr new ↦ (key, refl, filled_, new)
  ]
]

-- The parts of a step's complaints that the guarantees rest on.
quiet_fields :
    (name : String) (keys : List String) (default : Option (List McpEntry)) (step : RawStep)
    → field_problems name keys default step ≡ []
    → (valid_retries step.max_retries ≡ true)
      × All (λ ref. among keys ref ≡ true) (template_references (codes (text_or_empty step.prompt)))
      × Succeeds (reject_secret_bearing_mcp (option_or step.mcp_servers default))
unfolding field_problems
quiet_fields name keys default step h =
    let servers = option_or step.mcp_servers default in
    let (a, h1) =
      silent (complain_if (not (valid_retries step.max_retries)) (bad_retries name)) _ h in
    let (b, h2) =
      silent
        (reference_problems name keys (template_references (codes (text_or_empty step.prompt)))) _
        h1 in
    let (c, h3) = silent (output_schema_problems (bad_schema name) step.output_schema) _ h2 in
    let (d, h4) = silent (skill_problems name (list_or_empty step.allowed_skills)) _ h3 in
    let (e, h5) = silent (server_problems name (list_or_empty servers)) _ h4 in
    let (f, h6) =
      silent (complain_of_error (bearing_secret name) (reject_secret_bearing_mcp servers)) _ h5 in
    (
      negated (valid_retries step.max_retries)
          (quiet_if (not (valid_retries step.max_retries)) (bad_retries name) a),
      quiet_references name keys (template_references (codes (text_or_empty step.prompt))) b,
      quiet_result (bearing_secret name) (reject_secret_bearing_mcp servers) f,
    )
  where
    negated : (b : Bool) → not b ≡ false → b ≡ true
    negated true h = refl
    negated false h = sym h

added_key :
    (key : String) (keys : List String)
    → (key == "") ≡ false
    → mem_text key keys ≡ false
    → add_key (some key) keys ≡ key ∷ keys
added_key key keys filled_ new = rw (filled_, new) refl

pub no_complaint : (p : Problem) (ps : List Problem) → p ∷ ps ≡ [] → ⊥
no_complaint p ps h = cc

pub check_steps-AreSound :
    (default : Option (List McpEntry)) (i : ℕ) (names keys : List String) (ss : List Submitted)
    → check_steps default i names keys ss ≡ []
    → AreSound default names keys (map (λ s. s.step) ss)
unfolding check_steps
check_steps-AreSound default i names keys [] h = tt
check_steps-AreSound default i names keys (s ∷ ss) h = elim (Option-cases s.step.name) [
  | inl unnamed ↦
      let (a, rest) = silent (unknown_problems i s.fields) _ (rw unnamed at h) in
      absurd (no_complaint _ _ rest)
  | inr (name, called) ↦
      let (a, h1) = silent (unknown_problems i s.fields) _ (rw called at h) in
      elim (Bool-cases (name == "")) [
        | inl empty ↦ absurd (no_complaint _ _ (rw empty at h1))
        | inr filled_ ↦
            let (b, h2) =
              silent (complain_if (mem_text name names) (duplicate_name name)) _
                (rw filled_ at h1) in
            let (c, h3) = silent (key_problems name s.step.output_key keys) _ h2 in
            let (key, keyed_by, key_filled_, key_new_) = quiet_key name s.step.output_key keys c in
            let keys' : add_key s.step.output_key keys ≡ key ∷ keys =
              ap (λ o. add_key o keys) keyed_by ∙ added_key key keys key_filled_ key_new_ in
            let (d, h4) =
              silent (field_problems name (key ∷ keys) default s.step) _ (rw keys' at h3) in
            let (retries_, known_, clean_) = quiet_fields name (key ∷ keys) default s.step d in
            (
              name,
              key,
              record {
                named = called;
                name_filled = filled_;
                name_new = quiet_if (mem_text name names) (duplicate_name name) b;
                keyed = keyed_by;
                key_filled = key_filled_;
                key_new = key_new_;
                retries_valid = retries_;
                known = known_;
                clean = clean_;
              },
              check_steps-AreSound default (i + 1) (name ∷ names) (key ∷ keys) ss h4,
            )
      ]
]
