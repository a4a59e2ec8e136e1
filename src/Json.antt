-- ===== src/Json.antt =====
-- JSON values as the program passes them round, with Python's truth test. Numbers are integers, by
-- sign and size: the modelled code reads no fraction.
use lightspeed_cloud_agents.Prelude.{
  ℕ, String, Bool, true, false, not, Option, none, some, [], ◌∷◌, nat_eq, ◌==◌, if◌then◌else◌, Dict,
}

mutual
  pub data Fields : Type 0 where
    end : Fields
    field : (key : String) (value : Value) → Fields → Fields

  pub data Items : Type 0 where
    cons : Value → Items → Items
    nil : Items

  pub data Value : Type 0 where
    null : Value
    text : String → Value
    boolean : Bool → Value
    natural negative : ℕ → Value
    object : Fields → Value
    array : Items → Value

-- `bool(value)`. `negative n` is -(n + 1).
abbrev pub truthy : Value → Bool
truthy null = false
truthy (boolean b) = b
truthy (natural n) = not (nat_eq n 0)
truthy (negative n) = true
truthy (text s) = not (s == "")
truthy (array nil) = false
truthy (array (cons v vs)) = true
truthy (object end) = false
truthy (object (field k v fs)) = true

abbrev pub is_null : Value → Bool
is_null null = true
is_null _ = false

-- `a if a is not None else b`.
abbrev pub or_else : Value → Value → Value
or_else null b = b
or_else a _ = a

-- The object as a dictionary.
unfoldable pub entries : Fields → Dict Value
entries end = []
entries (field k v fs) = (k, v) ∷ entries fs

-- The truth test of an optional text: `None` and `""` fail it.
abbrev pub has_text : Option String → Bool
has_text none = false
has_text (some s) = not (s == "")

-- `a or b` and `a if a is not None else b`, on optional values.
abbrev pub text_or : Option String → String → String
text_or none d = d
text_or (some s) d = if s == "" then d else s

abbrev pub option_or {ℓ} : {A : Type ℓ} → Option A → Option A → Option A
option_or none b = b
option_or (some a) b = some a
