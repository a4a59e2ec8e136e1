-- ===== src/Credentials/Infixes.antt =====
-- What the tests on texts say of them.
use lightspeed_cloud_agents.Prelude.{
  ℕ, String, ◌≡◌, refl, sym, ap, subst, ◌↔◌, inl, inr, Bool, true, false, List, [], ◌∷◌, ◌++◌,
  arith, nat_eq→eq, Bool-cases, any, All, starts_with, contains, same_text, starts_with_self,
}

-- A test that is false exactly where a statement does not hold.
pub refuted {ℓ} : {S : Type ℓ} (b : Bool) → (b ≡ true) ↔ S → (b ≡ false) ↔ (¬ S)
refuted true r = (λ h. ground (arith, h), λ n. absurd (n (r.0 refl)))
refuted false r = (λ h s. let seen = r.1 s in ground (arith, seen), λ n. refl)

pub any_refuted {κ} :
    (Q : String → Type κ) (p : String → Bool)
    → ((m : String) → (p m ≡ false) ↔ Q m)
    → (ms : List String) → (any p ms ≡ false) ↔ All Q ms
any_refuted Q p r [] = (λ h. tt, λ h. refl)
any_refuted Q p r (m ∷ ms) =
    let rest = any_refuted Q p r ms in
    (
      λ h. ((r m).0 (ground (arith, h)), rest.0 (ground (arith, h))),
      λ h. let here = (r m).1 h.0 in let there = rest.1 h.1 in ground (arith, here, there),
    )

abbrev pub IsPrefix : List ℕ → List ℕ → Type 0
IsPrefix p s = (rest : List ℕ) × (s ≡ p ++ rest)

abbrev pub IsInfix : List ℕ → List ℕ → Type 0
IsInfix p s = (front : List ℕ) × (rest : List ℕ) × (s ≡ front ++ (p ++ rest))

prefix_of : (s p : List ℕ) → starts_with s p ≡ true → IsPrefix p s
unfolding starts_with
prefix_of s [] h = (s, refl)
prefix_of [] (d ∷ p) h = ground (arith, h)
prefix_of (c ∷ s) (d ∷ p) h =
    let (rest, e) = prefix_of s p (ground (arith, h)) in
    let same = nat_eq→eq c d (ground (arith, h)) in (rest, cc)

pub starts_with_iff : (s p : List ℕ) → (starts_with s p ≡ true) ↔ IsPrefix p s
starts_with_iff s p = (
  prefix_of s p,
  λ (rest, e). subst (λ t. starts_with t p ≡ true) (sym e) (starts_with_self p rest),
)

infix_of : (s p : List ℕ) → contains s p ≡ true → IsInfix p s
unfolding contains
infix_of [] p h = let (rest, e) = prefix_of [] p h in ([], rest, e)
infix_of (c ∷ s) p h = elim (Bool-cases (starts_with (c ∷ s) p)) [
  | inl here ↦ let (rest, e) = prefix_of (c ∷ s) p here in ([], rest, e)
  | inr not_here ↦
      let (front, rest, e) = infix_of s p (ground (arith, h, not_here)) in
      (c ∷ front, rest, ap (λ t. c ∷ t) e)
]

contains_front : (s p : List ℕ) → starts_with s p ≡ true → contains s p ≡ true
unfolding contains
contains_front [] p h = h
contains_front (c ∷ s) p h = rw h refl

contains_self : (front p rest : List ℕ) → contains (front ++ (p ++ rest)) p ≡ true
unfolding contains
contains_self [] p rest = contains_front (p ++ rest) p (starts_with_self p rest)
contains_self (c ∷ front) p rest = ground (arith, contains_self front p rest)

pub contains_iff : (s p : List ℕ) → (contains s p ≡ true) ↔ IsInfix p s
contains_iff s p = (
  infix_of s p,
  λ (front, rest, e). subst (λ t. contains t p ≡ true) (sym e) (contains_self front p rest),
)

same_of : (s t : List ℕ) → same_text s t ≡ true → s ≡ t
unfolding same_text
same_of [] [] h = refl
same_of [] (d ∷ t) h = ground (arith, h)
same_of (c ∷ s) [] h = ground (arith, h)
same_of (c ∷ s) (d ∷ t) h =
    let e = same_of s t (ground (arith, h)) in let same = nat_eq→eq c d (ground (arith, h)) in cc

same_self : (s : List ℕ) → same_text s s ≡ true
unfolding same_text
same_self [] = refl
same_self (c ∷ s) = ground (arith, same_self s)

pub same_text_iff : (s t : List ℕ) → (same_text s t ≡ true) ↔ (s ≡ t)
same_text_iff s t = (same_of s t, λ e. subst (λ u. same_text s u ≡ true) e (same_self s))
