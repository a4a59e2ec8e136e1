-- ===== src/Local/Gates.antt =====
-- Approval gates of the local engine.
use lightspeed_cloud_agents.Local.Segments.{Segment, recorded, keys_after, loop}
use lightspeed_cloud_agents.Local.Touched.{run_node-lookup}
use lightspeed_cloud_agents.Local.Loop.{is_done, loop-cases, loop_paused}
use lightspeed_cloud_agents.Prelude.{
  ℕ, String, ◌≡◌, refl, ap, ◌∙◌, subst, true, false, Option, none, List, [], ◌∷◌, ◌++◌, ◌==◌, All,
  lookup,
}
use lightspeed_cloud_agents.Json.{Fields, has_text}
use lightspeed_cloud_agents.RunStates.{RunState}
use lightspeed_cloud_agents.Local.{
  GraphState, Node, has_status, NodeEnd, leaves, raises, interrupted, wants_auto_approve,
  StepServices, approval_step, run_node,
}

-- No node of the list has the key.
abbrev pub Away : String → List Node → Type 0
Away k ns = All (λ n. (n.output_key == k) ≡ false) ns

-- What a gate needs to hold the engine up: it is an approval step with a name, nothing is approved
-- by itself, and no decision is recorded.
abbrev IsClosed : Option Fields → Node → GraphState → Type 0
IsClosed policy gate g =
    (gate.is_gate ≡ true)
    × ((gate.name == "") ≡ false)
    × (wants_auto_approve policy ≡ false)
    × (has_status "completed" (lookup gate.output_key g.step_results) ≡ false)

-- A segment that is not completed and left the results under these keys as they were.
abbrev pub Spares : (String → Type 0) → GraphState → Segment → Type 0
Spares Spared g s =
    (is_done s.ending ≡ false)
    × ((k : String) → Spared k → lookup k s.graph.step_results ≡ lookup k g.step_results)

abbrev paused_in : NodeEnd → Option String
paused_in (leaves g) = g.paused_at_step
paused_in (raises error) = none
paused_in interrupted = none

closed_waits :
    (services : StepServices) (policy : Option Fields) (gate : Node) (g g' : GraphState)
    → IsClosed policy gate g
    → run_node services policy gate g ≡ leaves g'
    → has_text g'.paused_at_step ≡ true
unfolding run_node approval_step
closed_waits services policy gate g g' (is_it, named, by_hand, open_) h =
    let waits = rw (is_it, open_, by_hand) at h in
    subst (λ o. has_text o ≡ true) (ap paused_in waits) (rw named refl)

module _ (services : StepServices) (policy : Option Fields) (now : ℕ) where
  -- A closed gate holds the engine up: a segment that has it to come, behind steps with other keys,
  -- is not completed, and of all results it changes at most those of these steps and the gate's, so
  -- that no step behind the gate gets a result.
  pub closed_gate-Spares :
      (before after : List Node) (gate : Node) (keys : List String) (g : GraphState)
      (row : RunState)
      → IsClosed policy gate g
      → Away gate.output_key before
      → Spares
          (λ k. Away k (before ++ gate ∷ []))
          g
          (loop services policy now (before ++ gate ∷ after) keys g row)
  closed_gate-Spares [] after gate keys g row closed away =
      loop-cases services policy now (Spares (λ k. Away k (gate ∷ [])) g) gate after keys g row
        (λ e r unfinished same_steps. (unfinished, λ k spared. refl))
        (λ g' h fine free.
          loop_paused services policy now (Spares (λ k. Away k (gate ∷ [])) g) after
            (keys_after keys g) g' (recorded now (gate ∷ after) keys g row)
            (closed_waits services policy gate g g' closed h)
            (λ e r' unfinished same_steps.
              (unfinished, λ k spared. run_node-lookup services policy gate g g' h k spared.0)))
  closed_gate-Spares (n ∷ before) after gate keys g row closed away =
      loop-cases services policy now (Spares (λ k. Away k (n ∷ before ++ gate ∷ [])) g) n
        (before ++ gate ∷ after) keys g row
        (λ e r unfinished same_steps. (unfinished, λ k spared. refl))
        (λ g' h fine free.
          let same = run_node-lookup services policy n g g' h in
          let still : IsClosed policy gate g' =
            (closed.0, closed.1, closed.2, rw (same gate.output_key away.0) closed.3) in
          let rest =
            closed_gate-Spares before after gate (keys_after keys g) g'
              (recorded now (n ∷ before ++ gate ∷ after) keys g row) still away.1 in
          (rest.0, λ k spared. rest.1 k spared.1 ∙ same k spared.0))
