-- ===== src/Schedule/Units.antt =====
-- What `chunk_parallel_groups` makes of a list of steps.
use lightspeed_cloud_agents.Prelude.{
  ℕ, zero, suc, ◌≤◌, String, ◌≡◌, refl, sym, ap, ◌∙◌, ◌⊎◌, inl, inr, true, false, Option, none,
  some, List, [], ◌∷◌, ◌++◌, append-nil, append_assoc, arith, eq_iff, ◌==◌, Bool-cases, length, All,
  All-append,
}
use lightspeed_cloud_agents.Steps.{RawStep}
use lightspeed_cloud_agents.Schedule.Independent.{IsIndependent, independent}
use lightspeed_cloud_agents.Schedule.{
  Chunk, has_internal_dependency, in_group, group_front, group_back, singles, group_chunks,
  chunks_at, chunk_loop, chunk_parallel_groups,
}

unfoldable pub members_of : List Chunk → List RawStep
members_of [] = []
members_of (c ∷ cs) = c.members ++ members_of cs

members_of-append : (cs ds : List Chunk) → members_of (cs ++ ds) ≡ members_of cs ++ members_of ds
unfolding members_of
members_of-append [] ds = refl
members_of-append (c ∷ cs) ds =
    rw (members_of-append cs ds) (sym (append_assoc c.members (members_of cs) (members_of ds)))

members_of-singles : (ms : List RawStep) → members_of (singles ms) ≡ ms
unfolding members_of singles
members_of-singles [] = refl
members_of-singles (m ∷ ms) = rw (members_of-singles ms)

members_of-group_chunks : (g : String) (ms : List RawStep) → members_of (group_chunks g ms) ≡ ms
unfolding group_chunks members_of
members_of-group_chunks g ms = elim (Bool-cases (has_internal_dependency ms)) [
  | inl e ↦ rw e (members_of-singles ms)
  | inr e ↦ rw e (append-nil ms)
]

front-append-back : (g : String) (ms : List RawStep) → group_front g ms ++ group_back g ms ≡ ms
unfolding group_front group_back
front-append-back g [] = refl
front-append-back g (m ∷ ms) = elim (Bool-cases (in_group g m)) [
  | inl e ↦ rw e (ap (λ r. m ∷ r) (front-append-back g ms))
  | inr e ↦ rw e
]

length-group_back-le : (g : String) (ms : List RawStep) → length (group_back g ms) ≤ length ms
unfolding group_back
length-group_back-le g [] = omega arith
length-group_back-le g (m ∷ ms) = ground (arith, length-group_back-le g ms)

-- One turn of the loop: the units hold the steps taken, and fewer steps are left.
record Taken (m : RawStep) (ms : List RawStep) (r : List Chunk × List RawStep) : Type 0 where
  kept : members_of r.0 ++ r.1 ≡ m ∷ ms
  fewer : length r.1 ≤ length ms

chunks_at-Taken :
    (o : Option String) (m : RawStep) (ms : List RawStep) → Taken m ms (chunks_at o m ms)
unfolding chunks_at members_of
chunks_at-Taken none m ms = record { kept = refl; fewer = omega arith }
chunks_at-Taken (some g) m ms = elim (Bool-cases (g == "")) [
  | inl e ↦ rw e (record { kept = refl; fewer = omega arith })
  | inr e ↦ rw e (record {
    kept =
        rw (members_of-group_chunks g (m ∷ group_front g ms))
          (ap (λ r. m ∷ r) (front-append-back g ms));
    fewer = length-group_back-le g ms;
  })
]

chunk_loop-members :
    (turns : ℕ) (steps : List RawStep)
    → length steps ≤ turns
    → members_of (chunk_loop turns steps) ≡ steps
unfolding chunk_loop
chunk_loop-members zero [] h = unfold members_of in refl
chunk_loop-members zero (m ∷ ms) h = absurd (omega arith)
chunk_loop-members (suc turns) [] h = unfold members_of in refl
chunk_loop-members (suc turns) (m ∷ ms) h =
    let t = chunks_at-Taken m.parallel_group m ms in
    members_of-append (chunks_at m.parallel_group m ms).0
      (chunk_loop turns (chunks_at m.parallel_group m ms).1)
    ∙ ap (λ r. members_of (chunks_at m.parallel_group m ms).0 ++ r)
        (chunk_loop-members turns (chunks_at m.parallel_group m ms).1 (omega (arith, t.fewer)))
    ∙ t.kept

-- The units of the schedule, laid end to end, are the steps in their order: no step is lost,
-- repeated or moved, so the turns that the loop is given are enough.
pub chunk_parallel_groups-members :
    (steps : List RawStep) → members_of (chunk_parallel_groups steps) ≡ steps
unfolding chunk_parallel_groups
chunk_parallel_groups-members steps = chunk_loop-members (length steps) steps (omega arith)

-- All the steps of a list are in a group.
abbrev pub AllIn : String → List RawStep → Type 0
AllIn g = All (λ m. in_group g m ≡ true)

-- A unit is one step on its own, or a named group whose members all carry its name, with no
-- member that refers to another.
abbrev pub IsUnit : Chunk → Type 0
IsUnit c =
    ((c.group ≡ none) × (length c.members ≡ 1))
    ⊎ ((g : String) × (c.group ≡ some g)
        × ((g == "") ≡ false)
        × (1 ≤ length c.members)
        × AllIn g c.members
        × IsIndependent c.members)

singles-IsUnit : (ms : List RawStep) → All IsUnit (singles ms)
unfolding singles
singles-IsUnit [] = tt
singles-IsUnit (m ∷ ms) = (inl (refl, refl), singles-IsUnit ms)

front-AllIn : (g : String) (ms : List RawStep) → AllIn g (group_front g ms)
unfolding group_front
front-AllIn g [] = tt
front-AllIn g (m ∷ ms) = elim (Bool-cases (in_group g m)) [
  | inl e ↦ rw e (e, front-AllIn g ms)
  | inr e ↦ rw e tt
]

group_chunks-IsUnit :
    (g : String) (m : RawStep) (ms : List RawStep)
    → (g == "") ≡ false
    → AllIn g (m ∷ ms)
    → All IsUnit (group_chunks g (m ∷ ms))
unfolding group_chunks
group_chunks-IsUnit g m ms filled inside = elim (Bool-cases (has_internal_dependency (m ∷ ms))) [
  | inl e ↦ rw e (singles-IsUnit (m ∷ ms))
  | inr e ↦ rw e (inr (g, refl, filled, omega arith, inside, independent (m ∷ ms) e), tt)
]

chunks_at-IsUnit :
    (o : Option String) (m : RawStep) (ms : List RawStep)
    → m.parallel_group ≡ o
    → All IsUnit (chunks_at o m ms).0
unfolding chunks_at
chunks_at-IsUnit none m ms e = (inl (refl, refl), tt)
chunks_at-IsUnit (some g) m ms e = elim (Bool-cases (g == "")) [
  | inl h ↦ rw h (inl (refl, refl), tt)
  | inr h ↦
      rw h (group_chunks-IsUnit g m (group_front g ms) h (own m.parallel_group e, front-AllIn g ms))
]
  where
    own : (o : Option String) → o ≡ some g → (elim o [ none ↦ false | some k ↦ k == g ]) ≡ true
    own none p = cc
    own (some k) p = (eq_iff k g).1 (ground arith)

chunk_loop-IsUnit : (turns : ℕ) (steps : List RawStep) → All IsUnit (chunk_loop turns steps)
unfolding chunk_loop
chunk_loop-IsUnit zero steps = tt
chunk_loop-IsUnit (suc turns) [] = tt
chunk_loop-IsUnit (suc turns) (m ∷ ms) =
    All-append IsUnit (chunks_at m.parallel_group m ms).0 _
      (chunks_at-IsUnit m.parallel_group m ms refl)
      (chunk_loop-IsUnit turns (chunks_at m.parallel_group m ms).1)

-- Every unit of the schedule is one step on its own, or a group of at least one step whose
-- members all carry the group's non-empty name, where no reference `steps.<word>` in a member's
-- prompt or condition, read from the left with the longest words, is the non-empty name or output
-- key of a member of the group.
pub chunk_parallel_groups-IsUnit : (steps : List RawStep) → All IsUnit (chunk_parallel_groups steps)
unfolding chunk_parallel_groups
chunk_parallel_groups-IsUnit steps = chunk_loop-IsUnit (length steps) steps
