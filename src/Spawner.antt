-- ===== src/Spawner.antt =====
-- The slots of a spawner: `spawn` and `destroy` of src/cloud_agents/spawner/base.py. A call is cut at
-- its awaits of the implementation; the count is changed under a lock. The count may fall below
-- zero, so it is an integer.
pub mod Slots
mod Tests
use lightspeed_cloud_agents.Prelude.{
  ℕ, zero, suc, ◌+◌, ◌-◌, ◌*◌, ◌/◌, ◌%◌, ◌^◌, ◌≤◌, ◌<◌, String, ◌≡◌, refl, sym, ap, ◌∙◌, subst, ◌≢◌,
  ◌↔◌, ◌⊎◌, inl, inr, Bool, true, false, not, ◌&&◌, ◌||◌, Option, none, some, List, [], ◌∷◌, ◌++◌,
  map, append-nil, append_assoc, arith, eq_iff, eq_refl, ltb, leb, nat_eq, ◌==◌, if◌then◌else◌,
  ltb→lt, nat_eq→eq, Bool-cases, Option-cases, length, get_elem?, take, is_empty, any, all, keep_if,
  All, length-append, All-append, mem_text, codes, to_lower, lower, is_word, is_space, starts_with,
  contains, same_text, starts_with_self, lower-append, Dict, lookup, insert, remove, keep_values,
  lookup-insert, lookup-remove,
}

-- `pos n` is n, and `negsuc n` is -(n + 1).
pub data ℤ : Type 0 where
  pos negsuc : ℕ → ℤ

abbrev pub increment : ℤ → ℤ
increment (pos n) = pos (suc n)
increment (negsuc zero) = pos 0
increment (negsuc (suc n)) = negsuc n

abbrev pub decrement : ℤ → ℤ
decrement (pos zero) = negsuc 0
decrement (pos (suc n)) = pos n
decrement (negsuc n) = negsuc (suc n)

-- `max(0, z)`, and `z >= limit`.
abbrev pub at_least_zero : ℤ → ℤ
at_least_zero (pos n) = pos n
at_least_zero (negsuc n) = pos 0

abbrev pub reaches : ℤ → ℕ → Bool
reaches (pos n) limit = leb limit n
reaches (negsuc n) limit = false

-- The spawner's fields; and the calls of `spawn` that wait for the implementation and the pods that
-- are there, of which it keeps no account.
pub record Spawner : Type 0 where
  pub active_count : ℤ
  pub max_pods : ℕ
  pub spawning : ℕ
  pub live : ℕ

-- `spawn`, up to the call of the implementation; `none` is the `RuntimeError`.
unfoldable pub reserve : Spawner → Option Spawner
reserve s =
    if reaches s.active_count s.max_pods
    then none
    else some (record s { active_count = increment s.active_count; spawning = suc s.spawning })

-- How a waiting call goes on: its pod is there, or an exception gives the slot back.
unfoldable pub spawned : Spawner → ℕ → Spawner
spawned s others = record s { spawning = others; live = suc s.live }

unfoldable pub spawn_failed : Spawner → ℕ → Spawner
spawn_failed s others = record s { active_count = decrement s.active_count; spawning = others }

-- The end of `destroy`, with the pods that are there then: one fewer, or as many as before where the
-- pod was gone already or the implementation raised.
unfoldable pub freed : Spawner → ℕ → Spawner
freed s pods = record s { active_count = at_least_zero (decrement s.active_count); live = pods }

-- The steps of a spawner, in any order.
pub data Step (s : Spawner) : Spawner → Type 0 where
  reserves : (t : Spawner) → reserve s ≡ some t → Step s t
  refuses : reserve s ≡ none → Step s s
  spawns : (others : ℕ) → s.spawning ≡ suc others → Step s (spawned s others)
  fails : (others : ℕ) → s.spawning ≡ suc others → Step s (spawn_failed s others)
  destroys : (pods : ℕ) → s.live ≡ suc pods → Step s (freed s pods)
  destroys_nothing : Step s (freed s s.live)

abbrev pub new_spawner : ℕ → Spawner
new_spawner max_pods = record { active_count = pos 0; max_pods = max_pods; spawning = 0; live = 0 }

-- Unless it is the end of a `destroy` that destroyed no pod.
abbrev pub FindsPod : {s t : Spawner} → Step s t → Type 0
FindsPod destroys_nothing = ⊥
FindsPod _ = Unit

-- The spawners that are reached where each `destroy` destroys a pod.
pub data Reached (max_pods : ℕ) : Spawner → Type 0 where
  starts : Reached max_pods (new_spawner max_pods)
  goes :
      (s t : Spawner) → Reached max_pods s → (step : Step s t) → FindsPod step → Reached max_pods t
