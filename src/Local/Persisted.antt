-- ===== src/Local/Persisted.antt =====
-- What the loop persists: the results under new keys.
use lightspeed_cloud_agents.Prelude.{
  ℕ, String, ◌≡◌, refl, sym, ap, ◌∙◌, subst, inl, inr, Bool, true, false, not, ◌||◌, Option, none,
  some, List, [], ◌∷◌, ◌++◌, arith, eq_iff, ◌==◌, Bool-cases, mem_text, codes, starts_with, Dict,
  lookup, insert, lookup-insert,
}
use lightspeed_cloud_agents.Keys.{Distinct}
use lightspeed_cloud_agents.RunStates.{StepData, RunState, with_step}
use lightspeed_cloud_agents.Local.{GraphState, Node}
use lightspeed_cloud_agents.Local.Segments.{
  announce, new_results, as_stored, persist, keys_of, recorded, keys_after,
}

abbrev pub is_some : Option StepData → Bool
is_some none = false
is_some (some data_) = true

-- What the row has for a result.
abbrev pub stored_of : String → Option StepData → Option StepData
stored_of k none = none
stored_of k (some data_) = some (as_stored k data_)

abbrev pub unless : Bool → Option StepData → Option StepData
unless true o = none
unless false o = o

abbrev or_kept : Option StepData → Option StepData → Option StepData
or_kept none old = old
or_kept (some new) old = some new

lookup-new_results :
    (keys : List String) (k : String) (results : Dict StepData)
    → lookup k (new_results keys results) ≡ unless (mem_text k keys) (lookup k results)
unfolding lookup new_results
lookup-new_results keys k [] = elim (Bool-cases (mem_text k keys)) [
  | inl old ↦ rw old refl
  | inr new ↦ rw new refl
]
lookup-new_results keys k ((j, v) ∷ results) =
    let rest = lookup-new_results keys k results in
    elim (Bool-cases (j == k)) [
      | inl same ↦ elim (Bool-cases (mem_text k keys)) [
        | inl old ↦
            let old_j = subst (λ x. mem_text x keys ≡ true) (sym ((eq_iff j k).0 same)) old in
            rw (old_j, old) (rw old at rest)
        | inr new ↦
            let new_j = subst (λ x. mem_text x keys ≡ false) (sym ((eq_iff j k).0 same)) new in
            rw (new_j, new, same) refl
      ]
      | inr other ↦ elim (Bool-cases (mem_text j keys)) [
        | inl old ↦ rw (old, other) rest
        | inr new ↦ rw (new, other) rest
      ]
    ]

new_results-Distinct :
    (keys : List String) (results : Dict StepData)
    → Distinct results
    → Distinct (new_results keys results)
unfolding new_results
new_results-Distinct keys [] h = tt
new_results-Distinct keys ((j, v) ∷ results) h = elim (Bool-cases (mem_text j keys)) [
  | inl old ↦ rw old (new_results-Distinct keys results h.1)
  | inr new ↦ rw new (
    lookup-new_results keys j results
        ∙ ap (unless (mem_text j keys)) h.0
        ∙ unless_none (mem_text j keys),
    new_results-Distinct keys results h.1,
  )
]
  where
    unless_none : (b : Bool) → unless b none ≡ none
    unless_none true = refl
    unless_none false = refl

lookup-persist :
    (now : ℕ) (k : String) (new : Dict StepData) (row : RunState)
    → Distinct new
    → lookup k (persist now new row).steps
      ≡ or_kept (stored_of k (lookup k new)) (lookup k row.steps)
unfolding persist lookup
lookup-persist now k [] row h = refl
lookup-persist now k ((j, v) ∷ new) row h =
    let rest = lookup-persist now k new (with_step (as_stored j v) now row) h.1 in
    let at = lookup-insert j k (as_stored j v) row.steps in
    elim (Bool-cases (j == k)) [
      | inl same ↦
          let e = (eq_iff j k).0 same in
          let gone = subst (λ x. lookup x new ≡ none) e h.0 in
          rest
          ∙ ap (λ o. or_kept (stored_of k o) (lookup k (insert j (as_stored j v) row.steps))) gone
          ∙ at
          ∙ rw same (ap (λ x. some (as_stored x v)) e)
      | inr other ↦ rw other (rest ∙ ap (or_kept (stored_of k (lookup k new))) (at ∙ rw other refl))
    ]

announce_steps :
    (now : ℕ) (ns : List Node) (row : RunState) → (announce now ns row).steps ≡ row.steps
announce_steps now [] row = refl
announce_steps now (n ∷ ns) row = elim (Bool-cases (starts_with (codes n.name) (codes "__"))) [
  | inl own ↦ rw own refl
  | inr step ↦ rw step refl
]

pub mem-keys_of : (k : String) (d : Dict StepData) → mem_text k (keys_of d) ≡ is_some (lookup k d)
unfolding lookup
mem-keys_of k [] = refl
mem-keys_of k ((j, v) ∷ d) = elim (Bool-cases (j == k)) [
  | inl same ↦ rw same refl
  | inr other ↦ rw other (mem-keys_of k d)
]

mem_append :
    (k : String) (xs ys : List String) → mem_text k (xs ++ ys) ≡ (mem_text k xs || mem_text k ys)
mem_append k [] ys = refl
mem_append k (x ∷ xs) ys = ground (arith, mem_append k xs ys)

-- The row has each result.
abbrev pub Full : GraphState → RunState → Type 0
Full g row = (k : String) → lookup k row.steps ≡ stored_of k (lookup k g.step_results)

-- The row has the results under the persisted keys, and no others.
pub record Kept (keys : List String) (g : GraphState) (row : RunState) : Type 0 where
  pub distinct : Distinct g.step_results
  pub present : (k : String) → mem_text k keys ≡ true → is_some (lookup k g.step_results) ≡ true
  pub stored :
      (k : String)
      → lookup k row.steps ≡ unless (not (mem_text k keys)) (stored_of k (lookup k g.step_results))

fill :
    (k : String) (m : Bool) (o : Option StepData)
    → or_kept (stored_of k (unless m o)) (unless (not m) (stored_of k o)) ≡ stored_of k o
fill k true none = refl
fill k true (some data_) = refl
fill k false none = refl
fill k false (some data_) = refl

pub recorded-Full :
    (now : ℕ) (ns : List Node) (keys : List String) (g : GraphState) (row : RunState)
    → Kept keys g row
    → Full g (recorded now ns keys g row)
unfolding recorded
recorded-Full now ns keys g row kept k =
    let new = new_results keys g.step_results in
    lookup-persist now k new (announce now ns row)
      (new_results-Distinct keys g.step_results kept.distinct)
    ∙ ap (λ d. or_kept (stored_of k (lookup k new)) (lookup k d)) (announce_steps now ns row)
    ∙ ap (or_kept (stored_of k (lookup k new))) (kept.stored k)
    ∙ ap
        (λ o.
          or_kept (stored_of k o)
            (unless (not (mem_text k keys)) (stored_of k (lookup k g.step_results))))
        (lookup-new_results keys k g.step_results)
    ∙ fill k (mem_text k keys) (lookup k g.step_results)

either_way :
    (m : Bool) (o : Option StepData)
    → (m ≡ true → is_some o ≡ true)
    → (m || is_some (unless m o)) ≡ is_some o
either_way true o h = sym (h refl)
either_way false o h = refl

-- The keys that are persisted then are those of the results.
pub keys_after-exact :
    (keys : List String) (g : GraphState) (row : RunState)
    → Kept keys g row
    → (k : String) → mem_text k (keys_after keys g) ≡ is_some (lookup k g.step_results)
keys_after-exact keys g row kept k =
    mem_append k keys (keys_of (new_results keys g.step_results))
    ∙ ap (λ b. mem_text k keys || b)
        (mem-keys_of k (new_results keys g.step_results)
          ∙ ap is_some (lookup-new_results keys k g.step_results))
    ∙ either_way (mem_text k keys) (lookup k g.step_results) (kept.present k)
