-- ===== src/Spawner/Tests.antt =====
-- A spawner with one slot.
use lightspeed_cloud_agents.Prelude.{◌≡◌, refl, none, some}
use lightspeed_cloud_agents.Spawner.{
  pos, Spawner, reserve, spawned, freed, reserves, spawns, new_spawner, Reached, starts, goes,
}
use lightspeed_cloud_agents.Spawner.Slots.{IsExact, Reached-IsExact}

abbrev one_waits : Spawner
one_waits = record { active_count = pos 1; max_pods = 1; spawning = 1; live = 0 }

first_taken : reserve (new_spawner 1) ≡ some one_waits
unfolding reserve
first_taken = refl

first_pod : Reached 1 (spawned one_waits 0)
first_pod =
    goes one_waits (spawned one_waits 0)
      (goes (new_spawner 1) one_waits starts (reserves one_waits first_taken) tt) (spawns 0 refl) tt

Reached-IsExact_example : IsExact 1 (spawned one_waits 0)
Reached-IsExact_example = Reached-IsExact 1 (spawned one_waits 0) first_pod

second_refused : reserve (spawned one_waits 0) ≡ none
unfolding reserve spawned
second_refused = refl

-- A destroy that finds no pod frees a slot all the same: there is room for a second pod.
slot_of_nothing :
    reserve (freed (spawned one_waits 0) 1)
    ≡ some (record { active_count = pos 1; max_pods = 1; spawning = 1; live = 1 })
unfolding reserve spawned freed
slot_of_nothing = refl
