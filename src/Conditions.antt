-- ===== src/Conditions.antt =====
-- Conditions of steps: `evaluate_condition` of src/cloud_agents/workflow/core/conditions.py. Texts are
-- lists of their characters' codes.
pub mod Parts
pub mod Depth
pub mod Printed
mod Tests
use lightspeed_cloud_agents.Prelude.{
  ℕ, zero, suc, ◌+◌, ◌-◌, ◌*◌, ◌/◌, ◌%◌, ◌^◌, ◌≤◌, ◌<◌, String, ◌≡◌, refl, sym, ap, ◌∙◌, subst, ◌≢◌,
  ◌↔◌, ◌⊎◌, inl, inr, Bool, true, false, not, ◌&&◌, ◌||◌, Option, none, some, List, [], ◌∷◌, ◌++◌,
  map, append-nil, append_assoc, arith, eq_iff, eq_refl, ltb, leb, nat_eq, ◌==◌, if◌then◌else◌,
  ltb→lt, nat_eq→eq, Bool-cases, Option-cases, length, get_elem?, take, is_empty, any, all, keep_if,
  All, length-append, All-append, mem_text, codes, to_lower, lower, is_word, is_space, starts_with,
  contains, same_text, starts_with_self, lower-append, Dict, lookup, insert, remove, keep_values,
  lookup-insert, lookup-remove,
}
use lightspeed_cloud_agents.Json.{
  Fields, end, field, Items, cons, nil, Value, null, text, boolean, natural, negative, object,
  array, truthy, is_null, or_else, entries, has_text, text_or, option_or,
}
use lightspeed_cloud_agents.Schedule.{
  Chunk, word_at, drop, reference_at, find_references, codes_or_empty, references, identifier,
  member_names, refers_to, has_internal_dependency, in_group, group_front, group_back, singles,
  group_chunks, chunks_at, chunk_loop, chunk_parallel_groups,
}

-- `s.lstrip()`, `s.rstrip()` and `s.strip()`.
unfoldable pub strip_front : List ℕ → List ℕ
strip_front [] = []
strip_front (c ∷ s) = let rest = strip_front s in if is_space c then rest else c ∷ s

unfoldable pub strip_back : List ℕ → List ℕ
strip_back [] = []
strip_back (c ∷ s) = let rest = strip_back s in if is_empty rest && is_space c then [] else c ∷ rest

abbrev pub strip : List ℕ → List ℕ
strip s = strip_back (strip_front s)

abbrev pub push : ℕ → List (List ℕ) → List (List ℕ)
push c [] = (c ∷ []) ∷ []
push c (p ∷ ps) = (c ∷ p) ∷ ps

-- `s.split(sep)`: `skip` characters belong to the separator before.
unfoldable pub split_by : List ℕ → ℕ → List ℕ → List (List ℕ)
split_by sep skip [] = [] ∷ []
split_by sep (suc skip) (c ∷ s) = split_by sep skip s
split_by sep zero (c ∷ s) =
    let apart = split_by sep (length sep - 1) s in
    let onward = split_by sep 0 s in if starts_with (c ∷ s) sep then [] ∷ apart else push c onward

-- A step's result, as conditions see it.
pub record StepView : Type 0 where
  pub status : String
  pub output : Option Fields

-- How an evaluation ends: `unparseable` is the `ValueError`.
pub data Verdict : Type 0 where
  verdict : Bool → Verdict
  unparseable : Verdict
  too_deep : Verdict

-- The field of an atom, its operator, and what follows.
pub data Selector : Type 0 where
  of_status of_approved : Selector
  of_output : List ℕ → Selector

pub data Operator : Type 0 where
  no_operator equals differs : Operator

pub record Atom : Type 0 where
  pub step_name : List ℕ
  pub selector : Selector
  pub operator : Operator
  pub raw_value : List ℕ

-- `\s*(==|!=)?\s*(.*)$`, on what follows the field. A line break in the value fails.
abbrev pub operator_at : List ℕ → Operator × List ℕ
operator_at s =
    if starts_with s (codes "==")
    then (equals, drop 2 s)
    else if starts_with s (codes "!=")
    then (differs, drop 2 s)
    else (no_operator, s)

abbrev pub atom_with : List ℕ → Selector → List ℕ → Option Atom
atom_with name selector s =
    let (op, behind_op) = operator_at (strip_front s) in
    let value = strip_front behind_op in
    if any (λ c. nat_eq c 10) value
    then none
    else some
        (record { step_name = name; selector = selector; operator = op; raw_value = strip value })

abbrev pub output_atom : List ℕ → List ℕ → List ℕ → Option Atom
output_atom name key s =
    if is_empty key then none else atom_with name (of_output key) (drop (length key) s)

-- The field behind `steps.<name>.`.
abbrev pub field_atom : List ℕ → List ℕ → Option Atom
field_atom name s =
    if starts_with s (codes "status")
    then atom_with name of_status (drop 6 s)
    else if starts_with s (codes "approved")
    then atom_with name of_approved (drop 8 s)
    else if starts_with s (codes "output.")
    then output_atom name (word_at (drop 7 s)) (drop 7 s)
    else none

-- The name behind `steps.`, given with the text that it begins.
abbrev pub named_atom : List ℕ → List ℕ → Option Atom
named_atom name s =
    let behind_name = drop (length name) s in
    if not (is_empty name) && starts_with behind_name (codes ".")
    then field_atom name (drop 1 behind_name)
    else none

-- `CONDITION_PATTERN.match`.
unfoldable pub parse_atom : List ℕ → Option Atom
unfolding word_at strip_front strip_back
parse_atom s =
    if starts_with s (codes "steps.") then named_atom (word_at (drop 6 s)) (drop 6 s) else none

-- `output.get(key)`, with a default where there is no output.
unfoldable pub find_entry : List ℕ → Dict Value → Option Value
find_entry key [] = none
find_entry key ((k, v) ∷ d) = if same_text (codes k) key then some v else find_entry key d

abbrev pub value_or : Value → Option Value → Value
value_or default none = default
value_or default (some v) = v

abbrev pub output_entry : Value → List ℕ → Option Fields → Value
output_entry default key none = default
output_entry default key (some fields) = value_or default (find_entry key (entries fields))

abbrev pub actual_value : Selector → StepView → Value
actual_value of_status result = text result.status
actual_value of_approved result = output_entry (boolean false) (codes "approved") result.output
actual_value (of_output key) result = output_entry null key result.output

-- The literal of a comparison.
pub data Literal : Type 0 where
  literal_bool : Bool → Literal
  literal_null : Literal
  literal_text : List ℕ → Literal

-- `s.endswith(q)` for a character, and `s[1:-1]`.
unfoldable pub ends_with : ℕ → List ℕ → Bool
ends_with q [] = false
ends_with q (c ∷ []) = nat_eq c q
ends_with q (c ∷ d ∷ s) = ends_with q (d ∷ s)

abbrev pub inside : List ℕ → List ℕ
inside s = take (length s - 2) (drop 1 s)

abbrev pub quoted_by : ℕ → List ℕ → Bool
quoted_by q s = starts_with s (q ∷ []) && ends_with q s

unfoldable pub literal_of : List ℕ → Literal
unfolding ends_with
literal_of s =
    if same_text s (codes "true")
    then literal_bool true
    else if same_text s (codes "false")
    then literal_bool false
    else if same_text s (codes "null")
    then literal_null
    else if quoted_by 34 s || quoted_by 39 s
    then literal_text (inside s)
    else literal_text s

-- Python's `==`: `True` is 1 and `False` is 0.
abbrev pub equals_literal : Value → Literal → Bool
equals_literal (boolean true) (literal_bool b) = b
equals_literal (boolean false) (literal_bool b) = not b
equals_literal (natural n) (literal_bool true) = nat_eq n 1
equals_literal (natural n) (literal_bool false) = nat_eq n 0
equals_literal null literal_null = true
equals_literal (text s) (literal_text t) = same_text (codes s) t
equals_literal _ _ = false

abbrev pub compared : Operator → Value → List ℕ → Bool
compared no_operator actual raw = truthy actual
compared equals actual raw = equals_literal actual (literal_of raw)
compared differs actual raw = not (equals_literal actual (literal_of raw))

-- The results of the steps, by their keys.
unfoldable pub find_step : List ℕ → Dict StepView → Option StepView
find_step name [] = none
find_step name ((k, r) ∷ steps) = if same_text (codes k) name then some r else find_step name steps

abbrev pub judged : Atom → Option StepView → Bool
judged atom none = false
judged atom (some result) =
    compared atom.operator (actual_value atom.selector result) atom.raw_value

abbrev pub atom_verdict : Dict StepView → Option Atom → Verdict
atom_verdict steps none = unparseable
atom_verdict steps (some atom) = verdict (judged atom (find_step atom.step_name steps))

-- `any` and `all` over the parts, which are evaluated as far as needed.
unfoldable pub any_part : (List ℕ → Verdict) → List (List ℕ) → Verdict
any_part evaluate [] = verdict false
any_part evaluate (p ∷ ps) = elim (evaluate p) [
  | verdict b ↦ (if b then verdict true else any_part evaluate ps)
  | unparseable ↦ unparseable
  | too_deep ↦ too_deep
]

unfoldable pub all_parts : (List ℕ → Verdict) → List (List ℕ) → Verdict
all_parts evaluate [] = verdict true
all_parts evaluate (p ∷ ps) = elim (evaluate p) [
  | verdict b ↦ (if b then all_parts evaluate ps else verdict false)
  | unparseable ↦ unparseable
  | too_deep ↦ too_deep
]

abbrev pub or_word : List ℕ
or_word = codes " or "

abbrev pub and_word : List ℕ
and_word = codes " and "

-- `evaluate_condition`, with the calls that may be nested.
unfoldable pub evaluate_condition : Dict StepView → ℕ → List ℕ → Verdict
unfolding strip_front strip_back split_by parse_atom find_step any_part all_parts
evaluate_condition steps zero condition = too_deep
evaluate_condition steps (suc depth) condition =
    let stripped = strip condition in
    if contains stripped or_word
    then any_part (λ p. evaluate_condition steps depth (strip p)) (split_by or_word 0 stripped)
    else if contains stripped and_word
    then all_parts (λ p. evaluate_condition steps depth (strip p)) (split_by and_word 0 stripped)
    else atom_verdict steps (parse_atom stripped)
