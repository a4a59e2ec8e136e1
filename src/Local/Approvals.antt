-- ===== src/Local/Approvals.antt =====
-- Approvals of the local runner: which are taken, and how the run moves on.
use lightspeed_cloud_agents.Prelude.{
  ℕ, String, ◌≡◌, refl, sym, ap, ◌∙◌, subst, inl, inr, true, false, Option, none, some, List, [],
  ◌∷◌, arith, eq_iff, eq_refl, ◌==◌, Bool-cases, All, Dict, lookup, lookup-insert,
}
use lightspeed_cloud_agents.Json.{Fields, Value}
use lightspeed_cloud_agents.Steps.{RawStep}
use lightspeed_cloud_agents.RunStates.{RunState, equals_text}
use lightspeed_cloud_agents.Local.{
  GraphState, Node, build_graph, has_status, NodeEnd, leaves, StepServices, run_node,
}
use lightspeed_cloud_agents.Local.Segments.{Segment, keys_of, recorded, keys_after, loop, execute}
use lightspeed_cloud_agents.Local.Runner.{
  ApprovalDecision, Reply, refused, accepted, gate_key_in, step_defs, decision_result, approved_row,
  decided, restored, approve, resume_from_store,
}
use lightspeed_cloud_agents.Local.Touched.{
  PausesAt, run_node-PausesAt, run_node-lookup, completed_kept,
}
use lightspeed_cloud_agents.Local.Loop.{loop-cases, loop_last}

module _ (services : StepServices) (policy : Option Fields) (now : ℕ) (key name : String) where
  abbrev IsDecided : GraphState → Type 0
  IsDecided g = has_status "completed" (lookup key g.step_results) ≡ true

  -- Of the nodes, those with this name have this key.
  abbrev NamedByKey : List Node → Type 0
  NamedByKey ns = All (λ n. (n.output_key == key) ≡ false → (n.name == name) ≡ false) ns

  after_decision :
      (n : Node) (g g' : GraphState)
      → run_node services policy n g ≡ leaves g'
      → IsDecided g
      → equals_text name g.paused_at_step ≡ false
      → ((n.output_key == key) ≡ false → (n.name == name) ≡ false)
      → IsDecided g' × (equals_text name g'.paused_at_step ≡ false)
  after_decision n g g' h decided free other_name = elim (Bool-cases (n.output_key == key)) [
    | inl same ↦
        let own =
          subst (λ k. has_status "completed" (lookup k g.step_results) ≡ true)
            (sym ((eq_iff n.output_key key).0 same)) decided in
        let same_end = sym (completed_kept services policy n g own) ∙ h in
        subst (Decided_end) same_end (decided, free)
    | inr other ↦ (
      ap (has_status "completed") (run_node-lookup services policy n g g' h key other) ∙ decided,
      elim (subst (PausesAt n.name g.paused_at_step) h (run_node-PausesAt services policy n g)) [
        | inl before ↦ ap (equals_text name) before ∙ free
        | inr here ↦ ap (equals_text name) here ∙ other_name other
      ],
    )
  ]
    where
      Decided_end : NodeEnd → Type 0
      Decided_end (leaves g) = IsDecided g × (equals_text name g.paused_at_step ≡ false)
      Decided_end _ = Unit

  loop-moves_on :
      (ns : List Node) (keys : List String) (g : GraphState) (row : RunState)
      → IsDecided g
      → equals_text name g.paused_at_step ≡ false
      → NamedByKey ns
      → equals_text name (loop services policy now ns keys g row).graph.paused_at_step ≡ false
  loop-moves_on [] keys g row ready free unique =
      loop_last services policy now (λ s. equals_text name s.graph.paused_at_step ≡ false) keys g
        row (λ e r unfinished steps. free) (λ r steps fine done. free)
  loop-moves_on (n ∷ ns) keys g row ready free unique =
      loop-cases services policy now (λ s. equals_text name s.graph.paused_at_step ≡ false) n ns
        keys g row (λ e r unfinished steps. free)
        (λ g' h fine done.
          let next = after_decision n g g' h ready free unique.0 in
          loop-moves_on ns (keys_after keys g) g' (recorded now (n ∷ ns) keys g row) next.0 next.1
            unique.1)

-- What an approval needs, and the row that it makes.
abbrev IsApproved :
    (Value → List RawStep) → ApprovalDecision → ℕ → RunState → Option RunState → Type 0
IsApproved steps_of decision now row' found =
    (row : RunState) × (defs : Dict RawStep) × (found ≡ some row)
    × ((row.status == "paused") ≡ true)
    × (equals_text decision.step_name row.current_step ≡ true)
    × (step_defs [] (steps_of row.definition) ≡ some defs)
    × (approved_row (gate_key_in decision.step_name (lookup decision.step_name defs)) decision now
          row
        ≡ row')

row_of : RunState → Reply → RunState
row_of fallback (refused r) = fallback
row_of fallback (accepted row) = row

decided-accepted :
    (decision : ApprovalDecision) (now : ℕ) (row row' : RunState) (o : Option (Dict RawStep))
    → decided decision now row o ≡ accepted row'
    → (defs : Dict RawStep) × (o ≡ some defs)
      × (approved_row
            (gate_key_in decision.step_name (lookup decision.step_name defs))
            decision
            now
            row
          ≡ row')
unfolding approved_row row_of
decided-accepted decision now row row' none h = ground (arith, h)
decided-accepted decision now row row' (some defs) h = (defs, refl, ap (row_of row') h)

approve-taken :
    (steps_of : Value → List RawStep) (decision : ApprovalDecision) (now : ℕ) (row' : RunState)
    (found : Option RunState)
    → approve steps_of decision now found ≡ accepted row'
    → IsApproved steps_of decision now row' found
unfolding approve
approve-taken steps_of decision now row' none h = ground (arith, h)
approve-taken steps_of decision now row' (some row) h = elim (Bool-cases (row.status == "paused")) [
  | inl paused_ ↦ elim (Bool-cases (equals_text decision.step_name row.current_step)) [
    | inl here ↦
        let (defs, read, made) =
          decided-accepted decision now row row' (step_defs [] (steps_of row.definition))
            (rw (paused_, here) at h) in
        (row, defs, refl, paused_, here, read, made)
    | inr elsewhere ↦ let seen = rw (paused_, elsewhere) at h in ground (arith, seen)
  ]
  | inr other ↦ let seen = rw other at h in ground (arith, seen)
]

abbrev segment_of : Segment → Option Segment → Segment
segment_of s none = s
segment_of s (some t) = t

resumed_with :
    (services : StepServices) (policy : Option Fields) (later : ℕ) (row refreshed : RunState)
    (o : Option (List Node)) (s : Segment)
    → (elim o [
      | none ↦ none
      | some ns ↦ some (execute services policy later ns (restored row) refreshed)
    ])
      ≡ some s
    → (ns : List Node) × (o ≡ some ns)
      × (execute services policy later ns (restored row) refreshed ≡ s)
resumed_with services policy later row refreshed none s h = ground (arith, h)
resumed_with services policy later row refreshed (some ns) s h = (ns, refl, ap (segment_of s) h)

-- The graph's step of a gate's name has the key that the runner looks up for it.
abbrev pub KeysAgree : (Value → List RawStep) → String → Value → Type 0
KeysAgree steps_of name definition =
    (defs : Dict RawStep) (ns : List Node)
    → step_defs [] (steps_of definition) ≡ some defs
    → build_graph (steps_of definition) ≡ some ns
    → All
        (λ n.
          (n.output_key == gate_key_in name (lookup name defs)) ≡ false → (n.name == name) ≡ false)
        ns

-- If an approval was taken, and the graph's steps of the gate's name have the key under which the
-- runner records the decision, then the segment that the resumption starts does not wait at a step
-- of this name, whatever the decision was: it ends, or waits at a step of another name.
pub approve-moves_on :
    (steps_of : Value → List RawStep) (services : StepServices) (policy : Option Fields)
    (now later : ℕ) (decision : ApprovalDecision) (found : Option RunState)
    (row' refreshed : RunState) (s : Segment)
    → approve steps_of decision now found ≡ accepted row'
    → KeysAgree steps_of decision.step_name row'.definition
    → resume_from_store steps_of services policy later row' refreshed ≡ some s
    → equals_text decision.step_name s.graph.paused_at_step ≡ false
unfolding resume_from_store execute approved_row
approve-moves_on steps_of services policy now later decision found row' refreshed s taken agree
      resumed =
    let (row, defs, there, paused_, here, read, made) =
      approve-taken steps_of decision now row' found taken in
    let key = gate_key_in decision.step_name (lookup decision.step_name defs) in
    let same_definition : row'.definition ≡ row.definition = ap (λ r. r.definition) (sym made) in
    let read' : step_defs [] (steps_of row'.definition) ≡ some defs =
      ap (λ d. step_defs [] (steps_of d)) same_definition ∙ read in
    let in_row : lookup key row'.steps ≡ some (decision_result key decision) =
      ap (λ r. lookup key r.steps) (sym made)
      ∙ lookup-insert key key (decision_result key decision) row.steps
      ∙ rw (eq_refl key) refl in
    elim (Bool-cases (refreshed.status == "cancelled")) [
      | inl gone ↦ let seen = rw gone at resumed in ground (arith, seen)
      | inr live ↦
          let (ns, built, run) =
            resumed_with services policy later row' refreshed
              (build_graph (steps_of row'.definition)) s (rw live at resumed) in
          subst (λ t. equals_text decision.step_name t.graph.paused_at_step ≡ false) run
            (loop-moves_on services policy later key decision.step_name ns (keys_of row'.steps)
              (restored row') refreshed (ap (has_status "completed") in_row) refl
              (agree defs ns read' built))
    ]
