-- ===== src/Definitions.antt =====
-- The store of definitions: src/cloud_agents/workflow/core/definition_store.py, without a persistence
-- backend, as the service creates it. The time of creation is left out.
pub mod Versions
mod Tests
use lightspeed_cloud_agents.Prelude.{
  ℕ, zero, suc, ◌+◌, ◌-◌, ◌*◌, ◌/◌, ◌%◌, ◌^◌, ◌≤◌, ◌<◌, String, ◌≡◌, refl, sym, ap, ◌∙◌, subst, ◌≢◌,
  ◌↔◌, ◌⊎◌, inl, inr, Bool, true, false, not, ◌&&◌, ◌||◌, Option, none, some, List, [], ◌∷◌, ◌++◌,
  map, append-nil, append_assoc, arith, eq_iff, eq_refl, ltb, leb, nat_eq, ◌==◌, if◌then◌else◌,
  ltb→lt, nat_eq→eq, Bool-cases, Option-cases, length, get_elem?, take, is_empty, any, all, keep_if,
  All, length-append, All-append, mem_text, codes, to_lower, lower, is_word, is_space, starts_with,
  contains, same_text, starts_with_self, lower-append, Dict, lookup, insert, remove, keep_values,
  lookup-insert, lookup-remove,
}

module _ (D : Type 0) where
  pub record StoredDefinition : Type 0 where
    pub name : String
    pub version : ℕ
    pub definition : D
    pub active : Bool

  -- `_versions`, each name's oldest first. The entry of a name in `_definitions` is the very object
  -- that stands last in its list, so it has no copy here.
  abbrev pub DefinitionStore : Type 0
  DefinitionStore = Dict (List StoredDefinition)

  abbrev pub listed : Option (List StoredDefinition) → List StoredDefinition
  listed none = []
  listed (some versions) = versions

  unfoldable pub versions_of : String → DefinitionStore → List StoredDefinition
  versions_of name store = listed (lookup name store)

  unfoldable pub latest : List StoredDefinition → Option StoredDefinition
  latest [] = none
  latest (s ∷ []) = some s
  latest (s ∷ t ∷ versions) = latest (t ∷ versions)

  abbrev pub only_active : Option StoredDefinition → Option StoredDefinition
  only_active none = none
  only_active (some s) = if s.active then some s else none

  -- The version that `save` makes.
  abbrev pub new_version : String → D → List StoredDefinition → StoredDefinition
  new_version name definition versions = record {
    name = name;
    version = length versions + 1;
    definition = definition;
    active = true;
  }

  -- `name` is the definition's own, from its metadata.
  unfoldable pub save : String → D → DefinitionStore → StoredDefinition × DefinitionStore
  unfolding versions_of
  save name definition store =
      let versions = versions_of name store in
      let stored = new_version name definition versions in
      (stored, insert name (versions ++ stored ∷ []) store)

  unfoldable pub get : String → DefinitionStore → Option StoredDefinition
  unfolding versions_of latest
  get name store = only_active (latest (versions_of name store))

  unfoldable pub get_version : String → ℕ → DefinitionStore → Option StoredDefinition
  unfolding versions_of
  get_version name zero store = none
  get_version name (suc n) store = get_elem? (versions_of name store) n

  unfoldable pub list_all : DefinitionStore → List StoredDefinition
  unfolding latest
  list_all [] = []
  list_all ((name, versions) ∷ store) = elim (only_active (latest versions)) [
    | none ↦ list_all store
    | some s ↦ s ∷ list_all store
  ]

  -- `stored.active = False`, on the last object of the list.
  unfoldable pub deactivate_latest : List StoredDefinition → List StoredDefinition
  deactivate_latest [] = []
  deactivate_latest (s ∷ []) = record s { active = false } ∷ []
  deactivate_latest (s ∷ t ∷ versions) = s ∷ deactivate_latest (t ∷ versions)

  abbrev pub deleted : String → DefinitionStore → Option StoredDefinition → Bool × DefinitionStore
  deleted name store none = (false, store)
  deleted name store (some s) =
      (true, insert name (deactivate_latest (versions_of name store)) store)

  unfoldable pub delete : String → DefinitionStore → Bool × DefinitionStore
  unfolding get versions_of deactivate_latest
  delete name store = deleted name store (get name store)
