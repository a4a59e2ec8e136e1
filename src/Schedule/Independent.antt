-- ===== src/Schedule/Independent.antt =====
-- When no step of a group refers to another.
use lightspeed_cloud_agents.Prelude.{
  ℕ, String, ◌≡◌, refl, ◌≢◌, Bool, false, Option, none, some, List, [], ◌∷◌, ◌++◌, arith, ◌==◌, All,
  any, codes, same_text,
}
use lightspeed_cloud_agents.Steps.{RawStep}
use lightspeed_cloud_agents.Schedule.{
  references, codes_or_empty, identifier, member_names, refers_to, has_internal_dependency,
}
use lightspeed_cloud_agents.Schedule.Found.{Finds, find_references-Finds}
use lightspeed_cloud_agents.Credentials.Infixes.{refuted, same_text_iff}

-- No reference in the step's prompt and condition is this name.
abbrev pub Unmentioned : RawStep → String → Type 0
Unmentioned m s =
    (refs : List (List ℕ)) × Finds
      (codes_or_empty m.prompt ++ (codes " " ++ codes_or_empty m.condition)) refs
    × All (λ r. r ≢ codes s) refs

none_same :
    (s : List ℕ) (rs : List (List ℕ)) → any (λ r. same_text r s) rs ≡ false → All (λ r. r ≢ s) rs
none_same s [] h = tt
none_same s (r ∷ rs) h = (
  (refuted (same_text r s) (same_text_iff r s)).0 (ground (arith, h)),
  none_same s rs (ground (arith, h)),
)

abbrev pub WhereFilled : (String → Type 0) → Option String → Type 0
WhereFilled P none = Unit
WhereFilled P (some s) = (s == "") ≡ false → P s

-- No step of the group refers to the name or to the output key of a step of the group.
abbrev pub IsIndependent : List RawStep → Type 0
IsIndependent ms =
    All
      (λ m.
        All (λ n. WhereFilled (Unmentioned m) n.name × WhereFilled (Unmentioned m) n.output_key) ms)
      ms

All-left {κ} : (P : String → Type κ) (xs ys : List String) → All P (xs ++ ys) → All P xs × All P ys
All-left P [] ys h = (tt, h)
All-left P (x ∷ xs) ys h = let (front, back) = All-left P xs ys h.1 in ((h.0, front), back)

identifier-WhereFilled :
    (P : String → Type 0) (o : Option String) → All P (identifier o) → WhereFilled P o
identifier-WhereFilled P none h = tt
identifier-WhereFilled P (some s) h = λ given. (rw given at h).0

member_names-WhereFilled :
    (P : String → Type 0) (ms : List RawStep)
    → All P (member_names ms)
    → All (λ n. WhereFilled P n.name × WhereFilled P n.output_key) ms
unfolding member_names
member_names-WhereFilled P [] h = tt
member_names-WhereFilled P (m ∷ ms) h =
    let (own, others) = All-left P (identifier m.name) _ h in
    let (key, rest) = All-left P (identifier m.output_key) (member_names ms) others in
    (
      (identifier-WhereFilled P m.name own, identifier-WhereFilled P m.output_key key),
      member_names-WhereFilled P ms rest,
    )

any-none {ℓ} :
    {A : Type ℓ} (p : A → Bool) (xs : List A) → any p xs ≡ false → All (λ x. p x ≡ false) xs
any-none p [] h = tt
any-none p (x ∷ xs) h = (ground (arith, h), any-none p xs (ground (arith, h)))

-- If none of the references is a name of the list, each name is none of the references.
each_name :
    (f : List ℕ → String → Bool) (rs : List (List ℕ)) (n : String) (ns : List String)
    → any (λ r. any (f r) (n ∷ ns)) rs ≡ false
    → (any (λ r. f r n) rs ≡ false) × (any (λ r. any (f r) ns) rs ≡ false)
each_name f [] n ns h = (refl, refl)
each_name f (r ∷ rs) n ns h =
    let (here, rest) = each_name f rs n ns (ground (arith, h)) in
    (ground (arith, h, here), ground (arith, h, rest))

unmatched_names :
    (f : List ℕ → String → Bool) (rs : List (List ℕ)) (ns : List String)
    → any (λ r. any (f r) ns) rs ≡ false
    → All (λ n. any (λ r. f r n) rs ≡ false) ns
unmatched_names f rs [] h = tt
unmatched_names f rs (n ∷ ns) h =
    let (here, rest) = each_name f rs n ns h in (here, unmatched_names f rs ns rest)

All-map {ℓ κ} :
    {A : Type ℓ} (P Q : A → Type κ) → ((x : A) → P x → Q x) → (xs : List A) → All P xs → All Q xs
All-map P Q f [] h = tt
All-map P Q f (x ∷ xs) h = (f x h.0, All-map P Q f xs h.1)

pub independent : (ms : List RawStep) → has_internal_dependency ms ≡ false → IsIndependent ms
unfolding has_internal_dependency references
independent ms h =
    All-map (λ m. refers_to (member_names ms) m ≡ false) _
      (λ m none_.
        let written = codes_or_empty m.prompt ++ (codes " " ++ codes_or_empty m.condition) in
        member_names-WhereFilled (Unmentioned m) ms (
          All-map (λ n. any (λ r. same_text r (codes n)) (references m) ≡ false) (Unmentioned m)
            (λ n unlike. (
              references m,
              find_references-Finds written,
              none_same (codes n) (references m) unlike,
            ))
            (member_names ms)
            (unmatched_names (λ r n. same_text r (codes n)) (references m) (member_names ms)
              none_)))
      ms (any-none (refers_to (member_names ms)) ms h)
