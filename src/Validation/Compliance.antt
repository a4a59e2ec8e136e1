-- ===== src/Validation/Compliance.antt =====
-- What a content policy lets through.
use lightspeed_cloud_agents.Prelude.{
  String, ◌≡◌, refl, sym, ◌↔◌, Bool, true, false, not, ◌||◌, Option, none, some, List, [], ◌∷◌,
  ◌++◌, arith, All, mem_text, Dict, lookup,
}
use lightspeed_cloud_agents.Steps.{RawStep}
use lightspeed_cloud_agents.Validation.Policy.{
  BlockedPattern, ContentPolicy, Submitted, violation_if, or_unknown, is_present, missing_fields,
  outside, restricted, occurs, blocked, too_long, step_violations, evaluate_steps,
  evaluate_content_policy,
}
use lightspeed_cloud_agents.Validation.Checks.{silent}

-- The namespaces of a step are among those allowed, where the policy names some.
abbrev pub Within : Option (List String) → Option (List String) → Type 0
Within none targets = Unit
Within (some allowed) none = Unit
Within (some allowed) (some targets) = All (λ ns. mem_text ns allowed ≡ true) targets

-- No text is too long or matches a blocked pattern, every required field is there, and the
-- namespaces are allowed.
abbrev pub IsCompliant : (String → String → Bool) → ContentPolicy → Submitted → Type 0
IsCompliant matches policy s =
    (too_long matches policy.max_prompt_length s.step.prompt ≡ false)
    × (too_long matches policy.max_prompt_length s.step.instructions ≡ false)
    × All
        (λ b.
          (occurs matches b.pattern s.step.prompt || occurs matches b.pattern s.step.instructions)
          ≡ false)
        policy.blocked_patterns
    × All (λ f. is_present (lookup f s.fields) ≡ true) policy.required_fields
    × Within policy.allowed_namespaces s.step.target_namespaces

both {ℓ} : {A : Type ℓ} (xs ys : List A) → xs ≡ [] → ys ≡ [] → xs ++ ys ≡ []
both [] ys h k = k
both (x ∷ xs) ys h k = cc

no_violation :
    (b : Bool) (rule name subject : String) → (violation_if b rule name subject ≡ []) ↔ (b ≡ false)
no_violation true rule name subject = (λ h. cc, λ h. ground (arith, h))
no_violation false rule name subject = (λ h. refl, λ h. refl)

negated : (b : Bool) → (not b ≡ false) ↔ (b ≡ true)
negated true = (λ h. refl, λ h. refl)
negated false = (λ h. sym h, λ h. sym h)

missing_fields-nil :
    (name : String) (present : Dict Bool) (fs : List String)
    → (missing_fields name present fs ≡ []) ↔ All (λ f. is_present (lookup f present) ≡ true) fs
unfolding missing_fields
missing_fields-nil name present [] = (λ h. tt, λ h. refl)
missing_fields-nil name present (f ∷ fs) =
    let there = is_present (lookup f present) in
    let here = no_violation (not there) "required_field" name f in
    let rest = missing_fields-nil name present fs in
    (
      λ h.
          let (a, b) = silent (violation_if (not there) "required_field" name f) _ h in
          ((negated there).0 (here.0 a), rest.0 b),
      λ h. both _ _ (here.1 ((negated there).1 h.0)) (rest.1 h.1),
    )

outside-nil :
    (name : String) (allowed targets : List String)
    → (outside name allowed targets ≡ []) ↔ All (λ ns. mem_text ns allowed ≡ true) targets
unfolding outside
outside-nil name allowed [] = (λ h. tt, λ h. refl)
outside-nil name allowed (ns ∷ nss) =
    let here = no_violation (not (mem_text ns allowed)) "allowed_namespaces" name ns in
    let rest = outside-nil name allowed nss in
    (
      λ h.
          let (a, b) =
            silent (violation_if (not (mem_text ns allowed)) "allowed_namespaces" name ns) _ h in
          ((negated (mem_text ns allowed)).0 (here.0 a), rest.0 b),
      λ h. both _ _ (here.1 ((negated (mem_text ns allowed)).1 h.0)) (rest.1 h.1),
    )

restricted-nil :
    (name : String) (allowed targets : Option (List String))
    → (restricted name allowed targets ≡ []) ↔ Within allowed targets
restricted-nil name none targets = (λ h. tt, λ h. refl)
restricted-nil name (some allowed) none = (λ h. tt, λ h. refl)
restricted-nil name (some allowed) (some targets) = outside-nil name allowed targets

module _ (matches : String → String → Bool) where
  blocked-nil :
      (step : RawStep) (name : String) (bs : List BlockedPattern)
      → (blocked matches step name bs ≡ [])
        ↔ All
            (λ b.
              (occurs matches b.pattern step.prompt || occurs matches b.pattern step.instructions)
              ≡ false)
            bs
  unfolding blocked
  blocked-nil step name [] = (λ h. tt, λ h. refl)
  blocked-nil step name (b ∷ bs) =
      let found =
        occurs matches b.pattern step.prompt || occurs matches b.pattern step.instructions in
      let here = no_violation found "blocked_pattern" name b.reason in
      let rest = blocked-nil step name bs in
      (
        λ h.
            let (x, y) = silent (violation_if found "blocked_pattern" name b.reason) _ h in
            (here.0 x, rest.0 y),
        λ h. both _ _ (here.1 h.0) (rest.1 h.1),
      )

  step_violations-nil :
      (policy : ContentPolicy) (s : Submitted)
      → (step_violations matches policy s ≡ []) ↔ IsCompliant matches policy s
  unfolding step_violations
  step_violations-nil policy s =
      let name = or_unknown s.step.name in
      let long =
        no_violation (too_long matches policy.max_prompt_length s.step.prompt) "max_prompt_length"
          name "prompt" in
      let wordy =
        no_violation (too_long matches policy.max_prompt_length s.step.instructions)
          "max_prompt_length" name "instructions" in
      let bad = blocked-nil s.step name policy.blocked_patterns in
      let missing = missing_fields-nil name s.fields policy.required_fields in
      let spaces = restricted-nil name policy.allowed_namespaces s.step.target_namespaces in
      (
        λ h.
            let (a, h1) =
              silent
                (violation_if (too_long matches policy.max_prompt_length s.step.prompt)
                  "max_prompt_length" name "prompt")
                _ h in
            let (b, h2) =
              silent
                (violation_if (too_long matches policy.max_prompt_length s.step.instructions)
                  "max_prompt_length" name "instructions")
                _ h1 in
            let (c, h3) = silent (blocked matches s.step name policy.blocked_patterns) _ h2 in
            let (d, e) = silent (missing_fields name s.fields policy.required_fields) _ h3 in
            (long.0 a, wordy.0 b, bad.0 c, missing.0 d, spaces.0 e),
        λ (a, b, c, d, e).
            both _ _ (long.1 a)
              (both _ _ (wordy.1 b) (both _ _ (bad.1 c) (both _ _ (missing.1 d) (spaces.1 e)))),
      )

  evaluate_steps-nil :
      (policy : ContentPolicy) (ss : List Submitted)
      → (evaluate_steps matches policy ss ≡ []) ↔ All (IsCompliant matches policy) ss
  unfolding evaluate_steps
  evaluate_steps-nil policy [] = (λ h. tt, λ h. refl)
  evaluate_steps-nil policy (s ∷ ss) =
      let here = step_violations-nil policy s in
      let rest = evaluate_steps-nil policy ss in
      (
        λ h. let (a, b) = silent (step_violations matches policy s) _ h in (here.0 a, rest.0 b),
        λ h. both _ _ (here.1 h.0) (rest.1 h.1),
      )

  -- The steps of a definition violate a policy nowhere exactly when each of them is compliant: no
  -- prompt and no instructions are longer than allowed or match a blocked pattern, every required
  -- field is given, and the namespaces are among those allowed.
  pub evaluate_content_policy_iff :
      (policy : ContentPolicy) (ss : List Submitted)
      → (evaluate_content_policy matches ss (some policy) ≡ [])
        ↔ All (IsCompliant matches policy) ss
  unfolding evaluate_content_policy
  evaluate_content_policy_iff policy ss = evaluate_steps-nil policy ss
