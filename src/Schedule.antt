-- ===== src/Schedule.antt =====
-- Group scheduling: `chunk_parallel_groups` of src/cloud_agents/workflow/core/execution.py.
pub mod Found
pub mod Independent
pub mod Units
mod Tests
use lightspeed_cloud_agents.Prelude.{
  ℕ, zero, suc, ◌+◌, String, Bool, false, Option, none, some, List, [], ◌∷◌, ◌++◌, ◌==◌,
  if◌then◌else◌, length, is_empty, any, codes, is_word, starts_with, same_text,
}
use lightspeed_cloud_agents.Steps.{RawStep}

-- A unit of the schedule: a group that runs concurrently, or one step.
pub record Chunk : Type 0 where
  pub group : Option String
  pub members : List RawStep

-- The run of word characters at the front.
unfoldable pub word_at : List ℕ → List ℕ
word_at [] = []
word_at (c ∷ s) = let rest = word_at s in if is_word c then c ∷ rest else []

-- The text behind the first n characters.
abbrev pub drop : ℕ → List ℕ → List ℕ
drop zero s = s
drop (suc n) [] = []
drop (suc n) (c ∷ s) = drop n s

-- The word of a reference `steps.<word>` at the front of the text, empty if there is none.
unfoldable pub reference_at : List ℕ → List ℕ
unfolding word_at
reference_at s = if starts_with s (codes "steps.") then word_at (drop 6 s) else []

-- `re.findall` of the references: `skip` characters belong to the match before.
unfoldable pub find_references : ℕ → List ℕ → List (List ℕ)
unfolding reference_at
find_references skip [] = []
find_references (suc skip) (c ∷ s) = find_references skip s
find_references zero (c ∷ s) =
    let word = reference_at (c ∷ s) in
    let next = find_references (5 + length word) s in
    let onward = find_references 0 s in if is_empty word then onward else word ∷ next

abbrev pub codes_or_empty : Option String → List ℕ
codes_or_empty none = []
codes_or_empty (some s) = codes s

-- The steps that a member's prompt and condition refer to.
unfoldable pub references : RawStep → List (List ℕ)
unfolding find_references
references m =
    find_references 0 (codes_or_empty m.prompt ++ (codes " " ++ codes_or_empty m.condition))

-- The name and the output key of a member, where they are not empty.
abbrev pub identifier : Option String → List String
identifier none = []
identifier (some s) = if s == "" then [] else s ∷ []

unfoldable pub member_names : List RawStep → List String
member_names [] = []
member_names (m ∷ ms) = identifier m.name ++ (identifier m.output_key ++ member_names ms)

abbrev pub refers_to : List String → RawStep → Bool
refers_to names m = any (λ r. any (λ n. same_text r (codes n)) names) (references m)

unfoldable pub has_internal_dependency : List RawStep → Bool
unfolding references member_names same_text
has_internal_dependency members = any (refers_to (member_names members)) members

-- `step.get("parallel_group") == group`.
abbrev pub in_group : String → RawStep → Bool
in_group g m = elim m.parallel_group [ none ↦ false | some h ↦ h == g ]

-- The inner loop: the steps of the group at the front, and what follows them.
unfoldable pub group_front : String → List RawStep → List RawStep
group_front g [] = []
group_front g (m ∷ ms) = let rest = group_front g ms in if in_group g m then m ∷ rest else []

unfoldable pub group_back : String → List RawStep → List RawStep
group_back g [] = []
group_back g (m ∷ ms) = let rest = group_back g ms in if in_group g m then rest else m ∷ ms

unfoldable pub singles : List RawStep → List Chunk
singles [] = []
singles (m ∷ ms) = record { group = none; members = m ∷ [] } ∷ singles ms

unfoldable pub group_chunks : String → List RawStep → List Chunk
unfolding singles has_internal_dependency
group_chunks g members =
    if has_internal_dependency members
    then singles members
    else record { group = some g; members = members } ∷ []

-- The units that the first step begins, by its group, and the steps behind them.
unfoldable pub chunks_at : Option String → RawStep → List RawStep → List Chunk × List RawStep
unfolding group_chunks group_front group_back
chunks_at none m ms = (record { group = none; members = m ∷ [] } ∷ [], ms)
chunks_at (some g) m ms =
    if g == ""
    then (record { group = none; members = m ∷ [] } ∷ [], ms)
    else (group_chunks g (m ∷ group_front g ms), group_back g ms)

-- The outer loop, over the turns left: one turn takes at least one step.
unfoldable pub chunk_loop : ℕ → List RawStep → List Chunk
unfolding chunks_at
chunk_loop zero steps = []
chunk_loop (suc turns) [] = []
chunk_loop (suc turns) (m ∷ ms) =
    let (chunks, rest) = chunks_at m.parallel_group m ms in chunks ++ chunk_loop turns rest

unfoldable pub chunk_parallel_groups : List RawStep → List Chunk
unfolding chunk_loop
chunk_parallel_groups steps = chunk_loop (length steps) steps
