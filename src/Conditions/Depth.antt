-- ===== src/Conditions/Depth.antt =====
-- How deep the calls of `evaluate_condition` nest.
use lightspeed_cloud_agents.Prelude.{
  ℕ, suc, ◌≡◌, refl, sym, ◌∙◌, Bool, true, false, Option, none, some, List, [], ◌∷◌, arith,
  if◌then◌else◌, All, codes, contains, Dict,
}
use lightspeed_cloud_agents.Conditions.{
  strip, split_by, StepView, Verdict, verdict, unparseable, too_deep, Atom, parse_atom, find_step,
  atom_verdict, any_part, all_parts, or_word, and_word, evaluate_condition,
}
use lightspeed_cloud_agents.Conditions.Parts.{Lacks, strip-Lacks, split_by-keeps, split_by-splits}

abbrev pub is_too_deep : Verdict → Bool
is_too_deep too_deep = true
is_too_deep _ = false

any_part-shallow :
    (evaluate : List ℕ → Verdict) (ps : List (List ℕ))
    → All (λ p. is_too_deep (evaluate p) ≡ false) ps
    → is_too_deep (any_part evaluate ps) ≡ false
unfolding any_part
any_part-shallow evaluate [] h = refl
any_part-shallow evaluate (p ∷ ps) h = one (evaluate p) h.0 (any_part-shallow evaluate ps h.1)
  where
    one :
        (v : Verdict)
        → is_too_deep v ≡ false
        → is_too_deep (any_part evaluate ps) ≡ false
        → is_too_deep (elim v [
          | verdict b ↦ (if b then verdict true else any_part evaluate ps)
          | unparseable ↦ unparseable
          | too_deep ↦ too_deep
        ])
          ≡ false
    one (verdict true) here rest = refl
    one (verdict false) here rest = rest
    one unparseable here rest = refl
    one too_deep here rest = here

all_parts-shallow :
    (evaluate : List ℕ → Verdict) (ps : List (List ℕ))
    → All (λ p. is_too_deep (evaluate p) ≡ false) ps
    → is_too_deep (all_parts evaluate ps) ≡ false
unfolding all_parts
all_parts-shallow evaluate [] h = refl
all_parts-shallow evaluate (p ∷ ps) h = one (evaluate p) h.0 (all_parts-shallow evaluate ps h.1)
  where
    one :
        (v : Verdict)
        → is_too_deep v ≡ false
        → is_too_deep (all_parts evaluate ps) ≡ false
        → is_too_deep (elim v [
          | verdict b ↦ (if b then all_parts evaluate ps else verdict false)
          | unparseable ↦ unparseable
          | too_deep ↦ too_deep
        ])
          ≡ false
    one (verdict true) here rest = rest
    one (verdict false) here rest = refl
    one unparseable here rest = refl
    one too_deep here rest = here

atom-shallow :
    (steps : Dict StepView) (o : Option Atom) → is_too_deep (atom_verdict steps o) ≡ false
unfolding find_step
atom-shallow steps none = refl
atom-shallow steps (some atom) = refl

choose :
    (a b : Bool) (x y z : Verdict)
    → (a ≡ true → is_too_deep x ≡ false)
    → (a ≡ false → b ≡ true → is_too_deep y ≡ false)
    → is_too_deep z ≡ false
    → is_too_deep (if a then x else if b then y else z) ≡ false
choose true b x y z hx hy hz = hx refl
choose false true x y z hx hy hz = hy refl refl
choose false false x y z hx hy hz = hz

clash : true ≡ false → ⊥
clash h = ground (arith, h)

-- The tails of the two words behind their first space.
abbrev or_tail : List ℕ
or_tail = codes "or "

abbrev and_tail : List ℕ
and_tail = codes "and "

module _ (steps : Dict StepView) (n : ℕ) where
  atom-enough :
      (s : List ℕ)
      → Lacks 32 or_tail s
      → Lacks 32 and_tail s
      → is_too_deep (evaluate_condition steps (suc n) s) ≡ false
  unfolding evaluate_condition
  atom-enough s no_or no_and =
      choose (contains (strip s) or_word) (contains (strip s) and_word) _ _
        (atom_verdict steps (parse_atom (strip s)))
        (λ h. absurd (clash (sym h ∙ strip-Lacks 32 or_tail s no_or)))
        (λ none_ h. absurd (clash (sym h ∙ strip-Lacks 32 and_tail s no_and)))
        (atom-shallow steps (parse_atom (strip s)))

module _ (steps : Dict StepView) (n : ℕ) where
  each_atom :
      (ps : List (List ℕ))
      → All (Lacks 32 or_tail) ps
      → All (Lacks 32 and_tail) ps
      → All (λ p. is_too_deep (evaluate_condition steps (suc n) (strip p)) ≡ false) ps
  each_atom [] h k = tt
  each_atom (p ∷ ps) h k = (
    atom-enough steps n (strip p) (strip-Lacks 32 or_tail p h.0) (strip-Lacks 32 and_tail p k.0),
    each_atom ps h.1 k.1,
  )

  -- The conjunction of a text without `or`.
  conjunction_parts :
      (s : List ℕ)
      → Lacks 32 or_tail s
      → is_too_deep
          (all_parts (λ p. evaluate_condition steps (suc n) (strip p)) (split_by and_word 0 s))
        ≡ false
  conjunction_parts s no_or =
      all_parts-shallow (λ p. evaluate_condition steps (suc n) (strip p)) (split_by and_word 0 s)
        (each_atom (split_by and_word 0 s) (split_by-keeps 32 or_tail and_word 0 s no_or)
          (split_by-splits 32 and_tail 0 s))

  conjunction-enough :
      (s : List ℕ)
      → Lacks 32 or_tail s
      → is_too_deep (evaluate_condition steps (suc (suc n)) s) ≡ false
  unfolding evaluate_condition
  conjunction-enough s no_or =
      choose (contains (strip s) or_word) (contains (strip s) and_word) _ _
        (atom_verdict steps (parse_atom (strip s)))
        (λ h. absurd (clash (sym h ∙ strip-Lacks 32 or_tail s no_or)))
        (λ none_ h. conjunction_parts (strip s) (strip-Lacks 32 or_tail s no_or))
        (atom-shallow steps (parse_atom (strip s)))

  each_conjunction :
      (ps : List (List ℕ))
      → All (Lacks 32 or_tail) ps
      → All (λ p. is_too_deep (evaluate_condition steps (suc (suc n)) (strip p)) ≡ false) ps
  each_conjunction [] h = tt
  each_conjunction (p ∷ ps) h =
      (conjunction-enough (strip p) (strip-Lacks 32 or_tail p h.0), each_conjunction ps h.1)

-- The evaluation of a condition ends: three levels of nested calls are enough for every text, so
-- that with three or more the evaluation never runs out of depth.
pub evaluate_condition-enough :
    (steps : Dict StepView) (n : ℕ) (condition : List ℕ)
    → is_too_deep (evaluate_condition steps (suc (suc (suc n))) condition) ≡ false
unfolding evaluate_condition
evaluate_condition-enough steps n s =
    choose (contains (strip s) or_word) (contains (strip s) and_word) _ _
      (atom_verdict steps (parse_atom (strip s)))
      (λ h.
        any_part-shallow (λ p. evaluate_condition steps (suc (suc n)) (strip p))
          (split_by or_word 0 (strip s))
          (each_conjunction steps n (split_by or_word 0 (strip s))
            (split_by-splits 32 or_tail 0 (strip s))))
      (λ no_or h. conjunction_parts steps (suc n) (strip s) no_or)
      (atom-shallow steps (parse_atom (strip s)))
