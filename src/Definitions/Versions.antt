-- ===== src/Definitions/Versions.antt =====
-- Versions are there to stay.
use lightspeed_cloud_agents.Prelude.{
  ℕ, zero, suc, ◌+◌, String, ◌≡◌, refl, sym, ◌∙◌, subst, inl, inr, Option, none, some, List, [],
  ◌∷◌, ◌++◌, arith, eq_iff, eq_refl, ◌==◌, Bool-cases, length, get_elem?, lookup, insert,
  lookup-insert,
}
use lightspeed_cloud_agents.Definitions.{
  StoredDefinition, DefinitionStore, listed, versions_of, latest, only_active, new_version, save,
  get, get_version, deactivate_latest, deleted, delete,
}

module _ (D : Type 0) where
  pub data Call : Type 0 where
    saving : String → D → Call
    deleting : String → Call

  abbrev pub call : Call → DefinitionStore D → DefinitionStore D
  call (saving name definition) store = (save D name definition store).1
  call (deleting name) store = (delete D name store).1

  unfoldable pub after : List Call → DefinitionStore D → DefinitionStore D
  after [] store = store
  after (c ∷ calls) store = after calls (call c store)

  -- A version of a name, whether it is active or not.
  abbrev pub Has : String → ℕ → D → Option (StoredDefinition D) → Type 0
  Has name version definition none = ⊥
  Has name version definition (some s) =
      (s.name ≡ name) × (s.version ≡ version) × (s.definition ≡ definition)

  Has-append :
      (name : String) (version n : ℕ) (definition : D) (xs ys : List (StoredDefinition D))
      → Has name version definition (get_elem? xs n)
      → Has name version definition (get_elem? (xs ++ ys) n)
  Has-append name version n definition [] ys h = absurd h
  Has-append name version zero definition (x ∷ xs) ys h = h
  Has-append name version (suc n) definition (x ∷ xs) ys h =
      Has-append name version n definition xs ys h

  Has-deactivate_latest :
      (name : String) (version n : ℕ) (definition : D) (xs : List (StoredDefinition D))
      → Has name version definition (get_elem? xs n)
      → Has name version definition (get_elem? (deactivate_latest D xs) n)
  unfolding deactivate_latest
  Has-deactivate_latest name version n definition [] h = h
  Has-deactivate_latest name version zero definition (x ∷ []) h = h
  Has-deactivate_latest name version (suc n) definition (x ∷ []) h = h
  Has-deactivate_latest name version zero definition (x ∷ y ∷ xs) h = h
  Has-deactivate_latest name version (suc n) definition (x ∷ y ∷ xs) h =
      Has-deactivate_latest name version n definition (y ∷ xs) h

  get_elem?-length :
      (xs : List (StoredDefinition D)) (s : StoredDefinition D)
      → get_elem? (xs ++ s ∷ []) (length xs) ≡ some s
  get_elem?-length [] s = refl
  get_elem?-length (x ∷ xs) s = get_elem?-length xs s

  -- The lists of a name grow and change in place.
  Has-insert :
      (name other : String) (version n : ℕ) (definition : D) (store : DefinitionStore D)
      (changed : List (StoredDefinition D))
      → (name ≡ other
          → Has name version definition (get_elem? (versions_of D name store) n)
          → Has name version definition (get_elem? changed n))
      → Has name version definition (get_elem? (versions_of D name store) n)
      → Has name version definition (get_elem? (versions_of D name (insert other changed store)) n)
  unfolding versions_of
  Has-insert name other version n definition store changed keeps h =
      elim (Bool-cases (other == name)) [
        | inl same ↦
            let now : lookup name (insert other changed store) ≡ some changed =
              lookup-insert other name changed store ∙ rw same refl in
            subst (λ o. Has name version definition (get_elem? (listed D o) n)) (sym now)
              (keeps (sym ((eq_iff other name).0 same)) h)
        | inr differs ↦
            let now : lookup name (insert other changed store) ≡ lookup name store =
              lookup-insert other name changed store ∙ rw differs refl in
            subst (λ o. Has name version definition (get_elem? (listed D o) n)) (sym now) h
      ]

  call-Has :
      (c : Call) (name : String) (version n : ℕ) (definition : D) (store : DefinitionStore D)
      → Has name version definition (get_elem? (versions_of D name store) n)
      → Has name version definition (get_elem? (versions_of D name (call c store)) n)
  unfolding save delete get
  call-Has (saving other d) name version n definition store h =
      Has-insert name other version n definition store _
        (λ same k.
          Has-append name version n definition (versions_of D other store) _
            (subst (λ o. Has name version definition (get_elem? (versions_of D o store) n)) same k))
        h
  call-Has (deleting other) name version n definition store h =
      gone (only_active D (latest D (versions_of D other store)))
    where
      gone :
          (o : Option (StoredDefinition D))
          → Has name version definition
              (get_elem? (versions_of D name (deleted D other store o).1) n)
      gone none = h
      gone (some s) =
          Has-insert name other version n definition store _
            (λ same k. Has-deactivate_latest name version n definition (versions_of D other store) (
              subst (λ o. Has name version definition (get_elem? (versions_of D o store) n)) same
                k))
            h

  after-Has :
      (calls : List Call) (name : String) (version n : ℕ) (definition : D)
      (store : DefinitionStore D)
      → Has name version definition (get_elem? (versions_of D name store) n)
      → Has name version definition (get_elem? (versions_of D name (after calls store)) n)
  unfolding after
  after-Has [] name version n definition store h = h
  after-Has (c ∷ calls) name version n definition store h =
      after-Has calls name version n definition (call c store)
        (call-Has c name version n definition store h)

  saved-Has :
      (name : String) (definition : D) (store : DefinitionStore D)
      → Has name (length (versions_of D name store) + 1) definition (
          get_elem?
            (versions_of D name (save D name definition store).1)
            (length (versions_of D name store)))
  unfolding save versions_of
  saved-Has name definition store =
      let versions = versions_of D name store in
      let stored = new_version D name definition versions in
      let now : lookup name (insert name (versions ++ stored ∷ []) store)
          ≡ some (versions ++ stored ∷ []) =
        lookup-insert name name (versions ++ stored ∷ []) store ∙ rw (eq_refl name) refl in
      subst
        (λ o. Has name (length versions + 1) definition (get_elem? (listed D o) (length versions)))
        (sym now)
        (subst (Has name (length versions + 1) definition) (sym (get_elem?-length versions stored))
          (refl, refl, refl))

  -- A definition that was saved is found again under its name and its version number for ever:
  -- whatever is saved or deleted afterwards, under its name or others, the version still has this
  -- definition.
  pub get_version-save :
      (name : String) (definition : D) (store : DefinitionStore D) (calls : List Call)
      → Has name (save D name definition store).0.version definition (
          get_version D name
            (save D name definition store).0.version
            (after calls (save D name definition store).1))
  unfolding get_version save
  get_version-save name definition store calls =
      let n = length (versions_of D name store) in
      let later = after calls (save D name definition store).1 in
      let counted : suc n ≡ n + 1 = omega arith in
      subst (λ v. Has name (n + 1) definition (get_version D name v later)) counted
        (after-Has calls name (n + 1) n definition (save D name definition store).1
          (saved-Has name definition store))
