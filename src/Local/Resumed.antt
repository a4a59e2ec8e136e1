-- ===== src/Local/Resumed.antt =====
-- Resumption: the steps that a segment does not run again.
use lightspeed_cloud_agents.Local.Touched.{completed_kept}
use lightspeed_cloud_agents.Prelude.{
  ℕ, String, ◌≡◌, refl, sym, ap, ◌∙◌, Bool, true, false, Option, none, some, List, [], ◌∷◌, ◌++◌,
  if◌then◌else◌, All, lookup,
}
use lightspeed_cloud_agents.Json.{Fields, has_text}
use lightspeed_cloud_agents.RunStates.{RunState}
use lightspeed_cloud_agents.Local.{
  GraphState, Node, has_status, NodeEnd, leaves, raises, interrupted, StepServices, run_node,
}
use lightspeed_cloud_agents.Local.Segments.{
  Ending, completed, failed, paused, crashed, cancelled_run, Segment, any_failed, recorded,
  keys_after, after_node, loop,
}

-- Results that the checks of a turn do not stop at, and those they do.
abbrev halted : GraphState → Option Ending
halted g =
    if any_failed g.step_results
    then some failed
    else if has_text g.paused_at_step
    then some paused
    else none

-- How a segment ended, and in which state.
abbrev end_of : Segment → Ending × GraphState
end_of s = (s.ending, s.graph)

module _ (services : StepServices) (policy : Option Fields) where
  -- A segment without its row: how it ends, and in which state.
  abbrev next_of : (GraphState → Ending × GraphState) → GraphState → NodeEnd → Ending × GraphState
  next_of go g (leaves g') = go g'
  next_of go g (raises error) = (crashed, g)
  next_of go g interrupted = (cancelled_run, g)

  abbrev turn_of : GraphState → Option Ending → Ending × GraphState → Ending × GraphState
  turn_of g none next = next
  turn_of g (some e) next = (e, g)

  pub outcome : List Node → GraphState → Ending × GraphState
  outcome [] g = turn_of g (halted g) (completed, g)
  outcome (n ∷ ns) g = turn_of g (halted g) (next_of (outcome ns) g (run_node services policy n g))

  module _ (now : ℕ) where
    turn_case :
        (a b : Bool) (g : GraphState) (bad wait rest : Segment) (next : Ending × GraphState)
        → end_of bad ≡ (failed, g)
        → end_of wait ≡ (paused, g)
        → end_of rest ≡ next
        → end_of (if a then bad else if b then wait else rest)
          ≡ turn_of g (if a then some failed else if b then some paused else none) next
    turn_case true b g bad wait rest next h k l = h
    turn_case false true g bad wait rest next h k l = k
    turn_case false false g bad wait rest next h k l = l

    node_case :
        (ns : List Node) (go : GraphState → Segment)
        → ((g' : GraphState) → end_of (go g') ≡ outcome ns g')
        → (g : GraphState) (row : RunState) (x : NodeEnd)
        → end_of (after_node now go g row x) ≡ next_of (outcome ns) g x
    node_case ns go same g row (leaves g') = same g'
    node_case ns go same g row (raises error) = refl
    node_case ns go same g row interrupted = refl

    loop-outcome :
        (ns : List Node) (keys : List String) (g : GraphState) (row : RunState)
        → end_of (loop services policy now ns keys g row) ≡ outcome ns g
    unfolding loop outcome
    loop-outcome [] keys g row =
        turn_case (any_failed g.step_results) (has_text g.paused_at_step) g _ _ _ _ refl refl refl
    loop-outcome (n ∷ ns) keys g row =
        turn_case (any_failed g.step_results) (has_text g.paused_at_step) g _ _ _ _ refl refl (
          node_case ns
            (λ g'.
              loop services policy now ns (keys_after keys g) g' (recorded now (n ∷ ns) keys g row))
            (λ g'. loop-outcome ns (keys_after keys g) g' (recorded now (n ∷ ns) keys g row)) g
            (recorded now (n ∷ ns) keys g row) (run_node services policy n g))

  abbrev AreCompleted : List Node → GraphState → Type 0
  AreCompleted ns g =
      All (λ n. has_status "completed" (lookup n.output_key g.step_results) ≡ true) ns

  turn_twice :
      (g : GraphState) (o : Option Ending) (next : Ending × GraphState)
      → turn_of g o (turn_of g o next) ≡ turn_of g o next
  turn_twice g none next = refl
  turn_twice g (some e) next = refl

  outcome_turn :
      (ns : List Node) (g : GraphState) → turn_of g (halted g) (outcome ns g) ≡ outcome ns g
  unfolding outcome
  outcome_turn [] g = turn_twice g (halted g) (completed, g)
  outcome_turn (n ∷ ns) g =
      turn_twice g (halted g) (next_of (outcome ns) g (run_node services policy n g))

  outcome-skips :
      (before after : List Node) (g : GraphState)
      → AreCompleted before g
      → outcome (before ++ after) g ≡ outcome after g
  unfolding outcome
  outcome-skips [] after g h = refl
  outcome-skips (n ∷ before) after g h =
      ap (λ x. turn_of g (halted g) (next_of (outcome (before ++ after)) g x))
        (completed_kept services policy n g h.0)
      ∙ ap (turn_of g (halted g)) (outcome-skips before after g h.1)
      ∙ outcome_turn after g

  -- A segment that finds the results of some first steps completed ends as if the definition
  -- began behind these steps: the same way, and in the same state, whatever is persisted. No step
  -- that is completed runs again.
  pub loop-skips :
      (now later : ℕ) (before after : List Node) (keys keys' : List String) (g : GraphState)
      (row row' : RunState)
      → AreCompleted before g
      → ((loop services policy now (before ++ after) keys g row).ending
          ≡ (loop services policy later after keys' g row').ending)
        × ((loop services policy now (before ++ after) keys g row).graph
            ≡ (loop services policy later after keys' g row').graph)
  loop-skips now later before after keys keys' g row row' h =
      let same =
        loop-outcome now (before ++ after) keys g row
        ∙ outcome-skips before after g h
        ∙ sym (loop-outcome later after keys' g row') in
      (ap (λ s. s.0) same, ap (λ s. s.1) same)
