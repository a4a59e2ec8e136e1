-- ===== src/Errors.antt =====
-- The `ValueError`s of normalization, one constructor for each `raise`, and results that may be one.
use lightspeed_cloud_agents.Prelude.{◌≡◌, refl, subst, Bool, true, false}

pub data Error : Type 0 where
  names_missing human_approval_step unknown_step_type name_required bad_timeout : Error
  invalid_provider unapproved_provider unknown_provider_fields : Error
  no_run_provider cross_provider : Error
  bad_credential_reference secret_value : Error
  credentialed_url secret_header secret_like_header credential_header_value : Error
  ungated_credentials secret_bearing_key : Error
  conflicting_service_account bad_tools bad_workflow_context bad_step_context invalid_step : Error
  duplicate_step_name : Error

-- A call that raised, or one that returned.
pub data Result {ℓ} (A : Type ℓ) : Type ℓ where
  err : (raised : Error) → Result A
  ok : (returned : A) → Result A

module _ {ℓ κ} {A : Type ℓ} {B : Type κ} where
  infixl 5 ◌>>=◌
  abbrev pub ◌>>=◌ : Result A → (A → Result B) → Result B
  err raised >>= next = err raised
  ok a >>= next = next a

  -- A `do` block that returned had each of its steps return.
  pub bind_ok :
      (first : Result A) (next : A → Result B) {last : B}
      → (first >>= next) ≡ ok last
      → (a : A) × (first ≡ ok a) × (next a ≡ ok last)
  bind_ok (err raised) next returned = cc
  bind_ok (ok a) next returned = (a, refl, returned)

-- `if test: raise e`.
abbrev pub refuse : Bool → Error → Result (Unit {0})
refuse true e = err e
refuse false e = ok tt

module _ {κ} {B : Type κ} where
  infixl 5 ◌>>◌
  abbrev pub ◌>>◌ : Result (Unit {0}) → Result B → Result B
  checked >> rest = checked >>= λ u. rest

  pub refuse_ok :
      (t : Bool) (e : Error) (k : Result B) {b : B}
      → (refuse t e >> k) ≡ ok b
      → (t ≡ false) × (k ≡ ok b)
  refuse_ok true e k h = cc
  refuse_ok false e k h = (refl, h)

-- The value of a result that returned has a property.
pub data Ensures {ℓ κ} {A : Type ℓ} (P : A → Type κ) : Result A → Type (ℓ ⊔ κ) where
  returns : (a : A) → P a → Ensures P (ok a)
  raises : (e : Error) → Ensures P (err e)

module _ {ℓ κ μ} {A : Type ℓ} {B : Type κ} {P : B → Type μ} where
  pub Ensures-bind :
      (m : Result A) {f : A → Result B}
      → ((a : A) → m ≡ ok a → Ensures P (f a))
      → Ensures P (m >>= f)
  Ensures-bind (ok a) h = h a refl
  Ensures-bind (err e) h = raises e

module _ {κ μ} {B : Type κ} {P : B → Type μ} where
  pub Ensures-refuse :
      (t : Bool) (e : Error) {k : Result B}
      → (t ≡ false → Ensures P k)
      → Ensures P (refuse t e >> k)
  Ensures-refuse true e h = raises e
  Ensures-refuse false e h = h refl

  pub Ensures-ok : {r : Result B} (b : B) → r ≡ ok b → Ensures P r → P b
  Ensures-ok b h (returns a p) = subst P (value h) p
    where
      value : {a b : B} → ok a ≡ ok b → a ≡ b
      value e = cc
  Ensures-ok b h (raises e) = cc
