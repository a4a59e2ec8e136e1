-- ===== src/Local/Loop.antt =====
-- Induction over a segment: what the loop does at each node, as a rule for a property of segments.
use lightspeed_cloud_agents.Prelude.{
  ℕ, String, ◌≡◌, refl, sym, ◌∙◌, Bool, true, false, Option, List, [], ◌∷◌, arith, if◌then◌else◌,
}
use lightspeed_cloud_agents.Json.{Fields, has_text}
use lightspeed_cloud_agents.RunStates.{RunState}
use lightspeed_cloud_agents.Local.{
  GraphState, Node, NodeEnd, leaves, raises, interrupted, StepServices, run_node,
}
use lightspeed_cloud_agents.Local.Segments.{
  Ending, completed, failed, paused, crashed, cancelled_run, Segment, any_failed, recorded,
  keys_after, stopped, after_node, loop,
}

abbrev pub is_done : Ending → Bool
is_done completed = true
is_done _ = false

pub clash : true ≡ false → ⊥
clash h = ground (arith, h)

module _ {ℓ} (services : StepServices) (policy : Option Fields) (now : ℕ)
    (P : Segment → Type ℓ) where
  if-both :
      (b : Bool) {x y : Segment} → (b ≡ true → P x) → (b ≡ false → P y) → P (if b then x else y)
  if-both true hx hy = hx refl
  if-both false hx hy = hy refl

  -- A turn with a node to come either ends the segment in this state, or goes on with the node's.
  pub loop-cases :
      (n : Node) (ns : List Node) (keys : List String) (g : GraphState) (row : RunState)
      → ((e : Ending) (r : RunState)
          → is_done e ≡ false
          → r.steps ≡ (recorded now (n ∷ ns) keys g row).steps
          → P (stopped e g r))
      → ((g' : GraphState)
          → run_node services policy n g ≡ leaves g'
          → any_failed g.step_results ≡ false
          → has_text g.paused_at_step ≡ false
          → P (
              loop services policy now ns
                (keys_after keys g)
                g'
                (recorded now (n ∷ ns) keys g row)))
      → P (loop services policy now (n ∷ ns) keys g row)
  unfolding loop
  loop-cases n ns keys g row stops goes =
      if-both (any_failed g.step_results) (λ h. stops failed _ refl refl)
        (λ fine.
          if-both (has_text g.paused_at_step) (λ h. stops paused _ refl refl)
            (λ free. node_case fine free (run_node services policy n g) refl))
    where
      node_case :
          any_failed g.step_results ≡ false
          → has_text g.paused_at_step ≡ false
          → (x : NodeEnd) → run_node services policy n g ≡ x
          → P (
              after_node now
                (λ g'.
                  loop services policy now ns
                    (keys_after keys g)
                    g'
                    (recorded now (n ∷ ns) keys g row))
                g
                (recorded now (n ∷ ns) keys g row)
                x)
      node_case fine free (leaves g') h = goes g' h fine free
      node_case fine free (raises error) h = stops crashed _ refl refl
      node_case fine free interrupted h = stops cancelled_run _ refl refl

  -- A turn in a state with a pause ends the segment.
  pub loop_paused :
      (ns : List Node) (keys : List String) (g : GraphState) (row : RunState)
      → has_text g.paused_at_step ≡ true
      → ((e : Ending) (r : RunState)
          → is_done e ≡ false
          → r.steps ≡ (recorded now ns keys g row).steps
          → P (stopped e g r))
      → P (loop services policy now ns keys g row)
  unfolding loop
  loop_paused [] keys g row pause stops =
      if-both (any_failed g.step_results) (λ h. stops failed _ refl refl)
        (λ fine.
          if-both (has_text g.paused_at_step) (λ h. stops paused _ refl refl)
            (λ free. absurd (clash (sym pause ∙ free))))
  loop_paused (n ∷ ns) keys g row pause stops =
      loop-cases n ns keys g row stops (λ g' h fine free. absurd (clash (sym pause ∙ free)))

  -- The turn after the last node.
  pub loop_last :
      (keys : List String) (g : GraphState) (row : RunState)
      → ((e : Ending) (r : RunState)
          → is_done e ≡ false
          → r.steps ≡ (recorded now [] keys g row).steps
          → P (stopped e g r))
      → ((r : RunState)
          → r.steps ≡ (recorded now [] keys g row).steps
          → any_failed g.step_results ≡ false
          → has_text g.paused_at_step ≡ false
          → P (stopped completed g r))
      → P (loop services policy now [] keys g row)
  unfolding loop
  loop_last keys g row stops done =
      if-both (any_failed g.step_results) (λ h. stops failed _ refl refl)
        (λ fine.
          if-both (has_text g.paused_at_step) (λ h. stops paused _ refl refl)
            (λ free. done _ refl fine free))
