-- ===== src/Conditions/Parts.antt =====
-- The parts of a text that is stripped and split.
use lightspeed_cloud_agents.Prelude.{
  ℕ, zero, suc, ◌-◌, ◌≡◌, refl, ap, subst, inl, inr, Bool, true, false, ◌&&◌, ◌||◌, List, [], ◌∷◌,
  ◌++◌, arith, nat_eq, Bool-cases, length, is_empty, All, is_space, starts_with, contains,
}
use lightspeed_cloud_agents.Conditions.{strip_front, strip_back, strip, split_by}

-- A text without a word; words are not empty.
abbrev pub Lacks : ℕ → List ℕ → List ℕ → Type 0
Lacks d ds s = contains s (d ∷ ds) ≡ false

or-false : (a b : Bool) → (a || b) ≡ false → (a ≡ false) × (b ≡ false)
or-false true b h = ground (arith, h)
or-false false b h = (refl, h)

starts_prefix : (p t sep : List ℕ) → starts_with (p ++ t) sep ≡ false → starts_with p sep ≡ false
unfolding starts_with
starts_prefix p t [] h = h
starts_prefix [] t (d ∷ ds) h = refl
starts_prefix (c ∷ p) t (d ∷ ds) h = elim (Bool-cases (nat_eq c d)) [
  | inl same ↦ rw same (starts_prefix p t ds (rw same at h))
  | inr other ↦ rw other refl
]

prefix-Lacks : (d : ℕ) (ds p t : List ℕ) → Lacks d ds (p ++ t) → Lacks d ds p
unfolding contains starts_with
prefix-Lacks d ds [] t h = refl
prefix-Lacks d ds (c ∷ p) t h =
    let (first, rest) =
      or-false (starts_with (c ∷ p ++ t) (d ∷ ds)) (contains (p ++ t) (d ∷ ds)) h in
    rw (starts_prefix (c ∷ p) t (d ∷ ds) first) (prefix-Lacks d ds p t rest)

tail-Lacks : (d c : ℕ) (ds s : List ℕ) → Lacks d ds (c ∷ s) → Lacks d ds s
unfolding contains
tail-Lacks d c ds s h = (or-false (starts_with (c ∷ s) (d ∷ ds)) (contains s (d ∷ ds)) h).1

front-Lacks : (d : ℕ) (ds s : List ℕ) → Lacks d ds s → Lacks d ds (strip_front s)
unfolding strip_front
front-Lacks d ds [] h = h
front-Lacks d ds (c ∷ s) h = elim (Bool-cases (is_space c)) [
  | inl space ↦ rw space (front-Lacks d ds s (tail-Lacks d c ds s h))
  | inr other ↦ rw other h
]

strip_back-prefix : (s : List ℕ) → (t : List ℕ) × (s ≡ strip_back s ++ t)
unfolding strip_back
strip_back-prefix [] = ([], refl)
strip_back-prefix (c ∷ s) = elim (Bool-cases (is_empty (strip_back s) && is_space c)) [
  | inl gone ↦ (c ∷ s, rw gone refl)
  | inr stays ↦ let (t, same) = strip_back-prefix s in (t, rw stays (ap (λ r. c ∷ r) same))
]

pub strip-Lacks : (d : ℕ) (ds s : List ℕ) → Lacks d ds s → Lacks d ds (strip s)
strip-Lacks d ds s h =
    let (t, same) = strip_back-prefix (strip_front s) in
    prefix-Lacks d ds (strip s) t (subst (Lacks d ds) same (front-Lacks d ds s h))

-- The first part of a text, and what stands behind it.
abbrev Headed : List ℕ → List ℕ → Type 0
Headed sep s =
    (h : List ℕ) × (ps : List (List ℕ)) × (t : List ℕ) × (split_by sep 0 s ≡ h ∷ ps) × (s ≡ h ++ t)

split_by-head : (sep s : List ℕ) → Headed sep s
unfolding split_by
split_by-head sep [] = ([], [], [], refl, refl)
split_by-head sep (c ∷ s) = elim (Bool-cases (starts_with (c ∷ s) sep)) [
  | inl cut_ ↦ ([], split_by sep (length sep - 1) s, c ∷ s, rw cut_ refl, refl)
  | inr on_ ↦
      let (h, ps, t, parts, same) = split_by-head sep s in
      (c ∷ h, ps, t, rw (on_, parts) refl, ap (λ r. c ∷ r) same)
]

-- Every part lacks what the text lacks.
pub split_by-keeps :
    (d : ℕ) (ds sep : List ℕ) (skip : ℕ) (s : List ℕ)
    → Lacks d ds s
    → All (Lacks d ds) (split_by sep skip s)
unfolding split_by contains starts_with
split_by-keeps d ds sep skip [] h = (h, tt)
split_by-keeps d ds sep (suc skip) (c ∷ s) h =
    split_by-keeps d ds sep skip s (tail-Lacks d c ds s h)
split_by-keeps d ds sep zero (c ∷ s) h =
    let rest = tail-Lacks d c ds s h in
    elim (Bool-cases (starts_with (c ∷ s) sep)) [
      | inl cut_ ↦ rw cut_ (refl, split_by-keeps d ds sep (length sep - 1) s rest)
      | inr on_ ↦
          let (p, ps, t, parts, same) = split_by-head sep s in
          let all_ : All (Lacks d ds) (p ∷ ps) =
            subst (All (Lacks d ds)) parts (split_by-keeps d ds sep 0 s rest) in
          let first = prefix-Lacks d ds (c ∷ p) t (subst (λ r. Lacks d ds (c ∷ r)) same h) in
          rw (on_, parts) (first, all_.1)
    ]

-- No part has the separator.
pub split_by-splits :
    (d : ℕ) (ds : List ℕ) (skip : ℕ) (s : List ℕ) → All (Lacks d ds) (split_by (d ∷ ds) skip s)
unfolding split_by contains starts_with
split_by-splits d ds skip [] = (refl, tt)
split_by-splits d ds (suc skip) (c ∷ s) = split_by-splits d ds skip s
split_by-splits d ds zero (c ∷ s) = elim (Bool-cases (starts_with (c ∷ s) (d ∷ ds))) [
  | inl cut_ ↦ rw cut_ (refl, split_by-splits d ds (length (d ∷ ds) - 1) s)
  | inr on_ ↦
      let (p, ps, t, parts, same) = split_by-head (d ∷ ds) s in
      let all_ : All (Lacks d ds) (p ∷ ps) =
        subst (All (Lacks d ds)) parts (split_by-splits d ds 0 s) in
      let first =
        starts_prefix (c ∷ p) t (d ∷ ds)
          (subst (λ r. starts_with (c ∷ r) (d ∷ ds) ≡ false) same on_) in
      rw (on_, parts) (rw first all_.0, all_.1)
]
