-- ===== src/Schedule/Tests.antt =====
-- The theorems on scheduling at concrete inputs, and runs of the code.
use lightspeed_cloud_agents.Prelude.{
  String, ◌≡◌, refl, some, List, [], ◌∷◌, map, length, All, is_word, starts_with,
}
use lightspeed_cloud_agents.Steps.{RawStep, blank}
use lightspeed_cloud_agents.Schedule.{chunk_parallel_groups}
use lightspeed_cloud_agents.Schedule.Units.{
  members_of, chunk_parallel_groups-members, IsUnit, chunk_parallel_groups-IsUnit,
}

abbrev step_of : String → String → String → RawStep
step_of name group prompt = record blank {
  name = some name;
  output_key = some name;
  prompt = some prompt;
  parallel_group = some group;
}

abbrev pair : List RawStep
pair =
    step_of "a" "g" "look"
    ∷ step_of "b" "g" "watch"
    ∷ step_of "c" "" "see {{ steps.a.output.x }}"
    ∷ []

abbrev dependent : List RawStep
dependent = step_of "a" "g" "look" ∷ step_of "b" "g" "read {{ steps.a.output.x }}" ∷ []

pair_chunks : map (λ c. length c.members) (chunk_parallel_groups pair) ≡ 2 ∷ 1 ∷ []
unfolding chunk_parallel_groups starts_with is_word
pair_chunks = refl

dependent_chunks : map (λ c. length c.members) (chunk_parallel_groups dependent) ≡ 1 ∷ 1 ∷ []
unfolding chunk_parallel_groups starts_with is_word
dependent_chunks = refl

chunk_parallel_groups-members_example : members_of (chunk_parallel_groups pair) ≡ pair
chunk_parallel_groups-members_example = chunk_parallel_groups-members pair

chunk_parallel_groups-IsUnit_example : All IsUnit (chunk_parallel_groups dependent)
chunk_parallel_groups-IsUnit_example = chunk_parallel_groups-IsUnit dependent
