-- ===== src/Alerts/Meant.antt =====
-- Which of two optional texts `or` gives.
use lightspeed_cloud_agents.Prelude.{
  String, ◌≡◌, refl, sym, ap, subst, ◌⊎◌, inl, inr, ◌↔◌, false, Option, none, some, arith, eq_iff,
  ◌==◌, if◌then◌else◌, Bool-cases,
}
use lightspeed_cloud_agents.Json.{text_or}

abbrev pub IsBlank : Option String → Type 0
IsBlank o = (o ≡ none) ⊎ (o ≡ some "")

abbrev pub if_filled : String → Option String
if_filled n = if n == "" then none else some n

text_of : Option String → String
text_of none = ""
text_of (some s) = s

if_filled-some : (n name : String) → if_filled n ≡ some name → ((name == "") ≡ false) × (n ≡ name)
unfolding text_of
if_filled-some n name h = elim (Bool-cases (n == "")) [
  | inl e ↦ let seen = rw e at h in ground (arith, seen)
  | inr e ↦
      let same : n ≡ name = ap text_of (rw e at h) in (subst (λ s. (s == "") ≡ false) same e, same)
]

not_blank : (name : String) → "" ≡ name → (name == "") ≡ false → ⊥
not_blank name e given = cc ((eq_iff name "").1 (sym e))

default_named :
    (default : Option String) (name : String)
    → text_or default "" ≡ name
    → (name == "") ≡ false
    → default ≡ some name
default_named none name e given = absurd (not_blank name e given)
default_named (some s) name e given = elim (Bool-cases (s == "")) [
  | inl blank ↦ absurd (not_blank name (rw blank at e) given)
  | inr filled ↦ ap some (rw filled at e)
]

-- The texts that `or` chooses between.
pub meant_iff :
    (label default : Option String) (name : String)
    → (if_filled (text_or label (text_or default "")) ≡ some name)
      ↔ (((name == "") ≡ false) × ((label ≡ some name) ⊎ (IsBlank label × (default ≡ some name))))
meant_iff label default name = (
  named label,
  λ (given, h). elim h [
    | inl e ↦ rw (e, given, given) refl
    | inr both ↦ elim both.0 [
      | inl b ↦ rw (b, both.1, given, given) refl
      | inr b ↦ rw (b, both.1, given, given) refl
    ]
  ],
)
  where
    named :
        (o : Option String)
        → if_filled (text_or o (text_or default "")) ≡ some name
        → ((name == "") ≡ false) × ((o ≡ some name) ⊎ (IsBlank o × (default ≡ some name)))
    named none h =
        let (given, same) = if_filled-some (text_or default "") name h in
        (given, inr (inl refl, default_named default name same given))
    named (some s) h = elim (Bool-cases (s == "")) [
      | inl e ↦
          let (given, same) = if_filled-some (text_or default "") name (rw e at h) in
          (given, inr (inr (ap some ((eq_iff s "").0 e)), default_named default name same given))
      | inr e ↦ let (given, same) = if_filled-some s name (rw e at h) in (given, inl (ap some same))
    ]
