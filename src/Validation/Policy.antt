-- ===== src/Validation/Policy.antt =====
-- Content policies: src/cloud_agents/workflow/security/content_policy.py.
use lightspeed_cloud_agents.Prelude.{
  ℕ, String, Bool, true, false, not, ◌&&◌, ◌||◌, Option, none, some, List, [], ◌∷◌, ◌++◌, ltb, ◌==◌,
  length, mem_text, codes, Dict, lookup,
}
use lightspeed_cloud_agents.Steps.{RawStep}

pub record BlockedPattern : Type 0 where
  pub pattern : String
  pub reason : String

pub record ContentPolicy : Type 0 where
  pub max_prompt_length : ℕ
  pub blocked_patterns : List BlockedPattern
  pub required_fields : List String
  pub allowed_namespaces : Option (List String)

-- A step of the submitted mapping: its keys, each with the truth of its value, and its fields.
pub record Submitted : Type 0 where
  pub fields : Dict Bool
  pub step : RawStep

-- The rule that is violated, the step, and the field, pattern's reason or namespace.
pub record Violation : Type 0 where
  pub rule : String
  pub step_name : String
  pub subject : String

abbrev pub violation_if : Bool → String → String → String → List Violation
violation_if true rule name subject =
    record { rule = rule; step_name = name; subject = subject } ∷ []
violation_if false rule name subject = []

abbrev pub or_unknown : Option String → String
or_unknown none = "unknown"
or_unknown (some name) = name

abbrev pub is_present : Option Bool → Bool
is_present none = false
is_present (some b) = b

unfoldable pub missing_fields : String → Dict Bool → List String → List Violation
missing_fields name present [] = []
missing_fields name present (f ∷ fs) =
    violation_if (not (is_present (lookup f present))) "required_field" name f
    ++ missing_fields name present fs

unfoldable pub outside : String → List String → List String → List Violation
outside name allowed [] = []
outside name allowed (ns ∷ nss) =
    violation_if (not (mem_text ns allowed)) "allowed_namespaces" name ns
    ++ outside name allowed nss

abbrev pub restricted : String → Option (List String) → Option (List String) → List Violation
restricted name none targets = []
restricted name (some allowed) none = []
restricted name (some allowed) (some targets) = outside name allowed targets

-- `matches` is the search for a pattern, ignoring case.
module _ (matches : String → String → Bool) where
  abbrev pub occurs : String → Option String → Bool
  occurs pattern none = false
  occurs pattern (some s) = not (s == "") && matches pattern s

  unfoldable pub blocked : RawStep → String → List BlockedPattern → List Violation
  blocked step name [] = []
  blocked step name (b ∷ bs) =
      violation_if (occurs b.pattern step.prompt || occurs b.pattern step.instructions)
        "blocked_pattern" name b.reason
      ++ blocked step name bs

  abbrev pub too_long : ℕ → Option String → Bool
  too_long limit none = false
  too_long limit (some s) = ltb limit (length (codes s))

  -- The violations of one step.
  unfoldable pub step_violations : ContentPolicy → Submitted → List Violation
  unfolding blocked missing_fields outside
  step_violations policy s =
      let name = or_unknown s.step.name in
      violation_if (too_long policy.max_prompt_length s.step.prompt) "max_prompt_length" name
        "prompt"
      ++ (violation_if (too_long policy.max_prompt_length s.step.instructions) "max_prompt_length"
            name "instructions"
          ++ (blocked s.step name policy.blocked_patterns
              ++ (missing_fields name s.fields policy.required_fields
                  ++ restricted name policy.allowed_namespaces s.step.target_namespaces)))

  unfoldable pub evaluate_steps : ContentPolicy → List Submitted → List Violation
  unfolding step_violations
  evaluate_steps policy [] = []
  evaluate_steps policy (s ∷ ss) = step_violations policy s ++ evaluate_steps policy ss

  unfoldable pub evaluate_content_policy : List Submitted → Option ContentPolicy → List Violation
  unfolding evaluate_steps
  evaluate_content_policy steps none = []
  evaluate_content_policy steps (some policy) = evaluate_steps policy steps
