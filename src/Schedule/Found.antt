-- ===== src/Schedule/Found.antt =====
-- What the search for references finds in a text.
use lightspeed_cloud_agents.Prelude.{
  ℕ, zero, suc, ◌+◌, ◌≡◌, refl, sym, ap, ◌∙◌, subst, inl, inr, true, false, List, [], ◌∷◌, ◌++◌,
  arith, Bool-cases, length, is_empty, All, codes, is_word, starts_with, starts_with_self,
}
use lightspeed_cloud_agents.Schedule.{word_at, drop, reference_at, find_references}
use lightspeed_cloud_agents.Credentials.Infixes.{starts_with_iff}

abbrev pub IsWord : List ℕ → Type 0
IsWord w = (is_empty w ≡ false) × All (λ c. is_word c ≡ true) w

-- No word goes on here.
abbrev pub Stops : List ℕ → Type 0
Stops [] = Unit
Stops (c ∷ s) = is_word c ≡ false

-- The matches of `steps.<word>` in a text, from the left and without an overlap, each with as long
-- a word as there is.
pub data Finds : List ℕ → List (List ℕ) → Type 0 where
  over : Finds [] []
  hit :
      (s w rest : List ℕ) (refs : List (List ℕ))
      → s ≡ codes "steps." ++ (w ++ rest)
      → IsWord w
      → Stops rest
      → Finds rest refs
      → Finds s (w ∷ refs)
  miss :
      (c : ℕ) (s : List ℕ) (refs : List (List ℕ))
      → ((w rest : List ℕ) → IsWord w → c ∷ s ≡ codes "steps." ++ (w ++ rest) → ⊥)
      → Finds s refs
      → Finds (c ∷ s) refs

word_split : (s : List ℕ) → s ≡ word_at s ++ drop (length (word_at s)) s
unfolding word_at
word_split [] = refl
word_split (c ∷ s) = elim (Bool-cases (is_word c)) [
  | inl w ↦ rw w (ap (λ t. c ∷ t) (word_split s))
  | inr n ↦ rw n refl
]

word-Stops : (s : List ℕ) → Stops (drop (length (word_at s)) s)
unfolding word_at
word-Stops [] = tt
word-Stops (c ∷ s) = elim (Bool-cases (is_word c)) [ inl w ↦ rw w (word-Stops s) | inr n ↦ rw n n ]

word_chars : (s : List ℕ) → All (λ c. is_word c ≡ true) (word_at s)
unfolding word_at
word_chars [] = tt
word_chars (c ∷ s) = elim (Bool-cases (is_word c)) [
  | inl w ↦ rw w (w, word_chars s)
  | inr n ↦ rw n tt
]

word_there : (w rest : List ℕ) → IsWord w → is_empty (word_at (w ++ rest)) ≡ false
unfolding word_at
word_there [] rest h = ground (arith, h.0)
word_there (c ∷ w) rest h = rw h.1.0 refl

drop-drop : (n k m : ℕ) (t : List ℕ) → m ≡ n + k → drop m t ≡ drop k (drop n t)
drop-drop zero k m t h = ap (λ r. drop r t) (omega (arith, h))
drop-drop (suc n) zero zero [] h = refl
drop-drop (suc n) (suc k) zero [] h = refl
drop-drop (suc n) zero (suc m) [] h = refl
drop-drop (suc n) (suc k) (suc m) [] h = refl
drop-drop (suc n) k zero (x ∷ t) h = absurd (omega (arith, h))
drop-drop (suc n) k (suc m) (x ∷ t) h = drop-drop n k m t (omega (arith, h))

-- The reference at the front, if it is not empty.
reference_hit :
    (c : ℕ) (s : List ℕ) (refs : List (List ℕ))
    → is_empty (reference_at (c ∷ s)) ≡ false
    → Finds (drop (5 + length (reference_at (c ∷ s))) s) refs
    → Finds (c ∷ s) (reference_at (c ∷ s) ∷ refs)
unfolding reference_at
reference_hit c s refs filled found = elim (Bool-cases (starts_with (c ∷ s) (codes "steps."))) [
  | inr n ↦ let seen = rw n at filled in ground (arith, seen)
  | inl y ↦
      let (rest, e) = (starts_with_iff (c ∷ s) (codes "steps.")).0 y in
      let behind : drop 5 s ≡ rest = ap (drop 6) e in
      let w = word_at (drop 5 s) in
      let five : drop (5 + length w) s ≡ drop (length w) (drop 5 s) =
        drop-drop 5 (length w) (5 + length w) s refl in
      let filled' : is_empty w ≡ false = rw y at filled in
      let found' : Finds (drop (5 + length w) s) refs = rw y at found in
      rw y (
        hit (c ∷ s) w (drop (length w) (drop 5 s)) refs
          (e ∙ ap (λ t. codes "steps." ++ t) (sym behind ∙ word_split (drop 5 s)))
          (filled', word_chars (drop 5 s)) (word-Stops (drop 5 s))
          (subst (λ t. Finds t refs) five found'))
]

reference_miss :
    (s : List ℕ)
    → is_empty (reference_at s) ≡ true
    → (w rest : List ℕ) → IsWord w
    → s ≡ codes "steps." ++ (w ++ rest)
    → ⊥
unfolding reference_at
reference_miss s none_ w rest word e =
    let at_front : is_empty (reference_at (codes "steps." ++ (w ++ rest))) ≡ true =
      subst (λ t. is_empty (reference_at t) ≡ true) e none_ in
    let starts = starts_with_self (codes "steps.") (w ++ rest) in
    let seen = rw starts at at_front in clash (sym seen ∙ word_there w rest word)
  where
    clash : true ≡ false → ⊥
    clash h = ground (arith, h)

found_from : (s : List ℕ) (n : ℕ) → Finds (drop n s) (find_references n s)
unfolding find_references
found_from [] zero = over
found_from [] (suc n) = over
found_from (c ∷ s) (suc n) = found_from s n
found_from (c ∷ s) zero =
    let next = found_from s (5 + length (reference_at (c ∷ s))) in
    let onward = found_from s 0 in
    elim (Bool-cases (is_empty (reference_at (c ∷ s)))) [
      | inl none_ ↦ rw none_ (miss c s _ (reference_miss (c ∷ s) none_) onward)
      | inr some_ ↦ rw some_ (reference_hit c s _ some_ next)
    ]

pub find_references-Finds : (s : List ℕ) → Finds s (find_references 0 s)
find_references-Finds s = found_from s 0
