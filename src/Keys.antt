-- ===== src/Keys.antt =====
-- Dictionaries with distinct keys, and what filtering their values does to a lookup.
use lightspeed_cloud_agents.Prelude.{
  String, ◌≡◌, refl, ap, ◌∙◌, subst, inl, inr, Bool, false, Option, none, some, [], ◌∷◌, arith,
  eq_iff, ◌==◌, if◌then◌else◌, Bool-cases, Dict, lookup, insert, keep_values, lookup-insert,
}

module _ {V : Type 0} where
  abbrev pub Distinct : Dict V → Type 0
  Distinct [] = Unit
  Distinct ((k, v) ∷ d) = (lookup k d ≡ none) × Distinct d

  abbrev pub kept_if : (V → Bool) → Option V → Option V
  kept_if p none = none
  kept_if p (some v) = if p v then some v else none

  pub lookup-keep_values :
      (p : V → Bool) (k : String) (d : Dict V)
      → Distinct d
      → lookup k (keep_values p d) ≡ kept_if p (lookup k d)
  unfolding lookup keep_values
  lookup-keep_values p k [] h = refl
  lookup-keep_values p k ((j, v) ∷ d) h = elim (Bool-cases (j == k)) [
    | inl same ↦
        let gone = subst (λ r. lookup r d ≡ none) ((eq_iff j k).0 same) h.0 in
        let rest = lookup-keep_values p k d h.1 ∙ ap (kept_if p) gone in
        elim (Bool-cases (p v)) [
          | inl yes_ ↦ rw (yes_, same, yes_) refl
          | inr not_so ↦ rw (not_so, same, not_so) rest
        ]
    | inr other ↦
        let rest = lookup-keep_values p k d h.1 in
        elim (Bool-cases (p v)) [
          | inl yes_ ↦ rw (yes_, other) rest
          | inr not_so ↦ rw (not_so, other) rest
        ]
  ]

  unlike :
      (k j : String) (v : V) (d : Dict V)
      → (j == k) ≡ false
      → lookup j d ≡ none
      → (if k == j then some v else lookup j d) ≡ none
  unlike k j v d other h = ground (arith, eq_iff k j, eq_iff j k, h)

  pub insert-Distinct : (k : String) (v : V) (d : Dict V) → Distinct d → Distinct (insert k v d)
  unfolding insert lookup
  insert-Distinct k v [] h = (refl, tt)
  insert-Distinct k v ((j, w) ∷ d) h = elim (Bool-cases (j == k)) [
    | inl same ↦ rw same h
    | inr other ↦
        rw other (lookup-insert k j v d ∙ unlike k j v d other h.0, insert-Distinct k v d h.1)
  ]

  pub keep_values-Distinct : (p : V → Bool) (d : Dict V) → Distinct d → Distinct (keep_values p d)
  unfolding keep_values lookup
  keep_values-Distinct p [] h = tt
  keep_values-Distinct p ((j, v) ∷ d) h = elim (Bool-cases (p v)) [
    | inl yes_ ↦
        rw yes_ (lookup-keep_values p j d h.1 ∙ ap (kept_if p) h.0, keep_values-Distinct p d h.1)
    | inr not_so ↦ rw not_so (keep_values-Distinct p d h.1)
  ]
