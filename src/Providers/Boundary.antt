-- ===== src/Providers/Boundary.antt =====
-- Which provider a step may run with, and whose credentials it gets.
use lightspeed_cloud_agents.Prelude.{
  String, ◌≡◌, refl, ap, subst, ◌↔◌, ◌⊎◌, inl, inr, Bool, true, false, not, Option, none, some,
  arith, eq_iff, eq_refl, ◌==◌, if◌then◌else◌, lookup,
}
use lightspeed_cloud_agents.Json.{
  Value, null, boolean, natural, negative, text, array, object, truthy, or_else,
}
use lightspeed_cloud_agents.Errors.{
  Error, no_run_provider, cross_provider, ok, ◌>>=◌, refuse, bind_ok, refuse_ok,
}
use lightspeed_cloud_agents.Steps.{Provider}
use lightspeed_cloud_agents.Credentials.{validate_credential_reference}
use lightspeed_cloud_agents.Credentials.References.{
  IsReference, validate_credential_reference-IsReference,
}
use lightspeed_cloud_agents.Providers.{
  InferenceProviderSpec, value_of, is_text, enforce_provider_boundary, Selected, reference_for,
  check_reference, select_provider,
}

-- A mapping whose name is a given text, which is not empty.
abbrev pub Names : Provider → String → Type 0
Names mapping s = (lookup "name" mapping ≡ some (text s)) × ((s == "") ≡ false)

named_value :
    (o : Option Value) (s : String)
    → (not (truthy (value_of o)) ≡ false)
    → (not (is_text s (value_of o)) ≡ false)
    → (o ≡ some (text s)) × ((s == "") ≡ false)
named_value none s h k = cc
named_value (some (text t)) s h k = (ap (λ u. some (text u)) e, rw (← e) (ground arith))
  where
    e : t ≡ s
    e = (eq_iff t s).0 (ground arith)
named_value (some null) s h k = cc
named_value (some (boolean b)) s h k = cc
named_value (some (natural n)) s h k = cc
named_value (some (negative n)) s h k = cc
named_value (some (array vs)) s h k = cc
named_value (some (object fs)) s h k = cc

refuse_last : (t : Bool) (e : Error) → refuse t e ≡ ok tt → t ≡ false
refuse_last true e h = cc
refuse_last false e h = refl

-- A selected provider crosses no boundary exactly when the run's provider has its very name, and
-- that name is not empty.
enforce_provider_boundary_iff :
    (spec : InferenceProviderSpec) (run_provider : Provider)
    → (enforce_provider_boundary (some spec) run_provider ≡ ok tt) ↔ Names run_provider spec.name
unfolding enforce_provider_boundary
enforce_provider_boundary_iff spec run_provider = (
  λ h.
      let (a, k) =
        refuse_ok (not (truthy (value_of (lookup "name" run_provider)))) no_run_provider _ h in
      named_value (lookup "name" run_provider) spec.name a (refuse_last _ cross_provider k),
  λ h. rw (h.0, h.1, eq_refl spec.name) refl,
)

-- Where a step's reference to credentials comes from: nowhere, or from a mapping that names the
-- step's provider, either the run's or the definition's; and it is a well-formed reference.
abbrev pub Own : InferenceProviderSpec → Provider → Provider → Value → Type 0
Own spec run_provider definition v =
    (v ≡ null)
    ⊎ ((r : String) × (mapping : Provider) × ((mapping ≡ run_provider) ⊎ (mapping ≡ definition))
        × (is_text spec.name (value_of (lookup "name" mapping)) ≡ true)
        × (lookup "credentials_secret" mapping ≡ some (text r))
        × (v ≡ text r)
        × IsReference (text r) r)

-- What passes the check of a reference.
abbrev Passed : Value → Value → Type 0
Passed v u =
    ((v ≡ null) × (u ≡ null))
    ⊎ ((r : String) × (v ≡ text r) × (u ≡ text r) × IsReference (text r) r)

passed :
    (v u : Value) → (validate_credential_reference v >>= λ ref. ok (text ref)) ≡ ok u → Passed v u
passed v u h =
    let (r, e, k) = bind_ok (validate_credential_reference v) (λ ref. ok (text ref)) h in
    let i = validate_credential_reference-IsReference v r e in
    inr (r, i.unchanged, ground arith, subst (λ w. IsReference w r) i.unchanged i)

checked : (v u : Value) → check_reference v ≡ ok u → Passed v u
checked null u h = inl (refl, ground arith)
checked v u h = passed v u h

reference_for-text :
    (s r : String) (mapping : Provider)
    → reference_for s mapping ≡ text r
    → (is_text s (value_of (lookup "name" mapping)) ≡ true)
      × (lookup "credentials_secret" mapping ≡ some (text r))
reference_for-text s r mapping h =
    let (a, b) = split (is_text s (value_of (lookup "name" mapping))) h in
    (a, held (lookup "credentials_secret" mapping) b)
  where
    split :
        (t : Bool)
        → (if t then value_of (lookup "credentials_secret" mapping) else null) ≡ text r
        → (t ≡ true) × (value_of (lookup "credentials_secret" mapping) ≡ text r)
    split true e = (refl, e)
    split false e = cc

    held : (o : Option Value) → value_of o ≡ text r → o ≡ some (text r)
    held none e = cc
    held (some v) e = ap some e

or_else-text : (a b : Value) (r : String) → or_else a b ≡ text r → (a ≡ text r) ⊎ (b ≡ text r)
or_else-text null b r h = inr h
or_else-text a b r h = inl h

Own-reference :
    (spec : InferenceProviderSpec) (run_provider definition : Provider) (u : Value)
    → Passed (or_else (reference_for spec.name run_provider) (reference_for spec.name definition)) u
    → Own spec run_provider definition u
Own-reference spec run_provider definition u (inl (e, k)) = inl k
Own-reference spec run_provider definition u (inr (r, e, k, i)) =
    elim (or_else-text (reference_for spec.name run_provider) _ r e) [
      | inl f ↦
          let (a, b) = reference_for-text spec.name r run_provider f in
          inr (r, run_provider, inl refl, a, b, k, i)
      | inr f ↦
          let (a, b) = reference_for-text spec.name r definition f in
          inr (r, definition, inr refl, a, b, k, i)
    ]

-- What the selection for a chosen provider guarantees.
pub record IsOwn (spec : InferenceProviderSpec) (run_provider definition : Provider)
    (sel : Selected) : Type 0 where
  pub run_names : Names run_provider spec.name
  pub name : sel.name ≡ text spec.name
  pub model : sel.model ≡ text spec.model
  pub credentials : Own spec run_provider definition sel.credentials_secret

-- A step that chooses its own provider gets through only where the run's provider has that name;
-- it runs with the chosen name and model, and its reference to credentials, if it has one, is a
-- well-formed reference taken from the run's or the definition's mapping for that very provider:
-- never the credentials of another one.
pub select_provider-IsOwn :
    (spec : InferenceProviderSpec) (run_provider definition : Provider) (sel : Selected)
    → select_provider (some spec) run_provider definition ≡ ok sel
    → IsOwn spec run_provider definition sel
unfolding select_provider
select_provider-IsOwn spec run_provider definition sel h =
    let (u, b, k) = bind_ok (enforce_provider_boundary (some spec) run_provider) _ h in
    let (v, c, e) =
      bind_ok
        (check_reference
          (or_else (reference_for spec.name run_provider) (reference_for spec.name definition)))
        _ k in
    record {
      run_names = (enforce_provider_boundary_iff spec run_provider).0 b;
      name = ground arith;
      model = ground arith;
      credentials =
          subst (λ w. Own spec run_provider definition w) (ground arith)
            (Own-reference spec run_provider definition v (checked _ v c));
    }
