-- ===== src/Normalize/Contexts.antt =====
-- How contexts and images are inherited.
use lightspeed_cloud_agents.Prelude.{
  String, ◌≡◌, refl, ap, ◌∙◌, subst, inl, inr, Option, none, some, [], ◌∷◌, eq_iff, ◌==◌,
  if◌then◌else◌, Bool-cases, Dict, lookup, insert, lookup-insert,
}
use lightspeed_cloud_agents.Json.{Value, option_or}
use lightspeed_cloud_agents.Normalize.{merge_context}

-- The value under a key that a later entry of the list gives, or else the one that is there.
pub overlay : String → Dict Value → Option Value → Option Value
overlay k [] before = before
overlay k ((j, v) ∷ d) before = overlay k d (if j == k then some v else before)

lookup-merge :
    (k : String) (w s : Dict Value) → lookup k (merge_context w s) ≡ overlay k s (lookup k w)
unfolding merge_context overlay
lookup-merge k w [] = refl
lookup-merge k w ((j, v) ∷ s) =
    lookup-merge k (insert j v w) s ∙ ap (overlay k s) (lookup-insert j k v w)

-- No key occurs twice, as in a Python dictionary.
abbrev pub IsDict : Dict Value → Type 0
IsDict [] = Unit
IsDict ((k, v) ∷ d) = (lookup k d ≡ none) × IsDict d

overlay-lookup :
    (k : String) (s : Dict Value) (before : Option Value)
    → IsDict s
    → overlay k s before ≡ option_or (lookup k s) before
unfolding overlay lookup
overlay-lookup k [] before h = refl
overlay-lookup k ((j, v) ∷ s) before h = elim (Bool-cases (j == k)) [
  | inl e ↦
      let gone = subst (λ i. lookup i s ≡ none) ((eq_iff j k).0 e) h.0 in
      rw (e, overlay-lookup k s (some v) h.1) (rw gone)
  | inr e ↦ rw e (overlay-lookup k s before h.1)
]

-- In the merged context every key has the step's value where the step's context has the key, and
-- the workflow's value elsewhere.
pub lookup-merge_context :
    (k : String) (workflow_context step_context : Dict Value)
    → IsDict step_context
    → lookup k (merge_context workflow_context step_context)
      ≡ option_or (lookup k step_context) (lookup k workflow_context)
lookup-merge_context k w s h = lookup-merge k w s ∙ overlay-lookup k s (lookup k w) h
