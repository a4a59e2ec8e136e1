-- ===== src/Spawner/Slots.antt =====
-- How many pods there are.
use lightspeed_cloud_agents.Prelude.{
  ℕ, suc, ◌+◌, ◌≤◌, ◌≡◌, refl, ap, ◌∙◌, subst, Bool, true, false, Option, none, some, arith, leb,
  if◌then◌else◌,
}
use lightspeed_cloud_agents.Spawner.{
  pos, increment, decrement, at_least_zero, reaches, Spawner, reserve, spawned, spawn_failed, freed,
  Step, reserves, refuses, spawns, fails, destroys, destroys_nothing, FindsPod, Reached, starts,
  goes,
}

-- The count is that of the pods and the waiting calls, and is within the limit.
pub record IsExact (max_pods : ℕ) (s : Spawner) : Type 0 where
  same_limit : s.max_pods ≡ max_pods
  pub counted : s.active_count ≡ pos (s.spawning + s.live)
  pub bounded : s.spawning + s.live ≤ max_pods

abbrev or_this : Spawner → Option Spawner → Spawner
or_this s none = s
or_this s (some t) = t

-- The counts of a reservation, from the answer to the test.
taken :
    (max_pods : ℕ) (s t : Spawner) (full : Bool)
    → reaches s.active_count s.max_pods ≡ full
    → (if full
        then none
        else some (record s { active_count = increment s.active_count; spawning = suc s.spawning }))
      ≡ some t
    → IsExact max_pods s
    → IsExact max_pods t
taken max_pods s t true room made h = ground (arith, made)
taken max_pods s t false room made h =
    let below : leb max_pods (s.spawning + s.live) ≡ false =
      rw⁻¹ h.same_limit (subst (λ z. reaches z s.max_pods ≡ false) h.counted room) in
    subst (IsExact max_pods) (ap (or_this s) made) (record {
      same_limit = h.same_limit;
      counted = ap increment h.counted ∙ ap pos (omega arith);
      bounded = ground (arith, below);
    })

one_less : (n m : ℕ) → n ≡ suc m → decrement (pos n) ≡ pos m
one_less n m h = ap (λ k. decrement (pos k)) h

Step-IsExact :
    (max_pods : ℕ) (s t : Spawner) (step : Step s t)
    → FindsPod step
    → IsExact max_pods s
    → IsExact max_pods t
unfolding reserve spawned spawn_failed freed
Step-IsExact max_pods s _ (reserves t made) found h =
    taken max_pods s t (reaches s.active_count s.max_pods) refl made h
Step-IsExact max_pods s _ (refuses full) found h = h
Step-IsExact max_pods s _ (spawns others here) found h = record {
  same_limit = h.same_limit;
  counted = h.counted ∙ ap pos (omega (arith, here));
  bounded = omega (arith, here, h.bounded);
}
Step-IsExact max_pods s _ (fails others here) found h = record {
  same_limit = h.same_limit;
  counted =
      ap decrement h.counted
      ∙ one_less (s.spawning + s.live) (others + s.live) (omega (arith, here));
  bounded = omega (arith, here, h.bounded);
}
Step-IsExact max_pods s _ (destroys pods here) found h = record {
  same_limit = h.same_limit;
  counted =
      ap (λ z. at_least_zero z)
        (ap decrement h.counted
          ∙ one_less (s.spawning + s.live) (s.spawning + pods) (omega (arith, here)));
  bounded = omega (arith, here, h.bounded);
}
Step-IsExact max_pods s _ destroys_nothing found h = absurd found

-- Where each destroy destroys a pod, in any order of calls: the count is the number of the pods and
-- of the calls that wait for one, cancelled and failed calls give their slots back, and there are
-- never more of them than the limit.
pub Reached-IsExact : (max_pods : ℕ) (s : Spawner) → Reached max_pods s → IsExact max_pods s
Reached-IsExact max_pods _ starts = record {
  same_limit = refl;
  counted = refl;
  bounded = omega arith;
}
Reached-IsExact max_pods _ (goes s t before step found) =
    Step-IsExact max_pods s t step found (Reached-IsExact max_pods s before)
