-- ===== src/Local/Tests.antt =====
-- Small runs of the local engine.
use lightspeed_cloud_agents.Conditions.{find_entry, literal_of, evaluate_condition}
use lightspeed_cloud_agents.Local.Judged.{to_workflow_state, condition_holds}
use lightspeed_cloud_agents.Retry.{max_attempts_for, returned, turn, retry_loop, run_with_retries}
use lightspeed_cloud_agents.Prelude.{
  String, ◌≡◌, refl, sym, ap, ◌∙◌, subst, inl, Bool, true, false, Option, none, some, List, [], ◌∷◌,
  ◌==◌, All, is_word, is_space, starts_with, contains, same_text, Dict, lookup, insert,
}
use lightspeed_cloud_agents.Json.{Value, null, entries}
use lightspeed_cloud_agents.Steps.{RawStep, blank}
use lightspeed_cloud_agents.Normalize.{apply_one_step_defaults}
use lightspeed_cloud_agents.RunStates.{RunState, new_row, equals_text}
use lightspeed_cloud_agents.Local.{
  GraphState, Node, named_nodes, build_graph, status_only, StepServices, agent_step, approval_step,
  run_node,
}
use lightspeed_cloud_agents.Local.Segments.{
  completed, Segment, new_results, persist, recorded, loop, execute,
}
use lightspeed_cloud_agents.Local.Runner.{
  ApprovalDecision, accepted, gate_key_in, step_defs, approved_row, restored, approve,
  resume_from_store, fresh_state,
}
use lightspeed_cloud_agents.Local.Gates.{Away, Spares, closed_gate-Spares}
use lightspeed_cloud_agents.Local.Resumed.{loop-skips}
use lightspeed_cloud_agents.Local.Stored.{execute-Full}
use lightspeed_cloud_agents.Local.Persisted.{Full}
use lightspeed_cloud_agents.Local.Approvals.{KeysAgree, approve-moves_on}
use lightspeed_cloud_agents.Local.Answers.{Answered, approve-Answered}

-- Every attempt completes; conditions are evaluated.
abbrev willing : StepServices
willing = record {
  holds = condition_holds;
  invalid = λ step results. none;
  attempt =
      λ step results i. returned (record { status = "completed"; output = none; error = none });
  show = λ message results. message;
}

abbrev agent_named : String → RawStep
agent_named name = record blank { name = some name; kind = some "agent" }

abbrev gate_named : String → RawStep
gate_named name = record blank { name = some name; kind = some "human-approval" }

abbrev as_node : Bool → RawStep → String → Node
as_node gate step name = record { name = name; output_key = name; is_gate = gate; step = step }

abbrev node_a : Node
node_a = as_node false (agent_named "a") "a"

abbrev node_gate : Node
node_gate = as_node true (gate_named "gate") "gate"

abbrev node_b : Node
node_b = as_node false (agent_named "b") "b"

abbrev new_run : RunState
new_run =
    new_row
      (record {
        workflow_id = "w";
        workflow_name = "clean";
        definition = null;
        provider = null;
        authz_context = null;
        user_id = none;
        session_id = none;
        parent_workflow_id = none;
      })
      1

abbrev three_steps : List RawStep
three_steps = agent_named "a" ∷ gate_named "gate" ∷ agent_named "b" ∷ []

abbrev reads_three : Value → List RawStep
reads_three v = three_steps

abbrev three_nodes : List Node
three_nodes = node_a ∷ node_gate ∷ node_b ∷ []

nodes_of_three : build_graph three_steps ≡ some three_nodes
unfolding build_graph named_nodes
nodes_of_three = refl

closed_gate-Spares_example :
    Spares
      (λ k. Away k (node_a ∷ node_gate ∷ []))
      fresh_state
      (loop willing none 2 three_nodes [] fresh_state new_run)
unfolding lookup
closed_gate-Spares_example =
    closed_gate-Spares willing none 2 (node_a ∷ []) (node_b ∷ []) node_gate [] fresh_state new_run
      (refl, refl, refl, refl) (refl, tt)

-- The state behind the first step.
abbrev behind_a : GraphState
behind_a = record { step_results = ("a", status_only "a" "completed") ∷ []; paused_at_step = none }

loop-skips_example :
    ((loop willing none 2 three_nodes [] behind_a new_run).ending
      ≡ (loop willing none 3 (node_gate ∷ node_b ∷ []) [] behind_a new_run).ending)
    × ((loop willing none 2 three_nodes [] behind_a new_run).graph
        ≡ (loop willing none 3 (node_gate ∷ node_b ∷ []) [] behind_a new_run).graph)
unfolding lookup
loop-skips_example =
    loop-skips willing none 2 3 (node_a ∷ []) (node_gate ∷ node_b ∷ []) [] [] behind_a new_run
      new_run (refl, tt)

execute-Full_example :
    Full
      (execute willing none 2 three_nodes fresh_state new_run).graph
      (execute willing none 2 three_nodes fresh_state new_run).row
unfolding lookup
execute-Full_example =
    execute-Full willing none 2 three_nodes fresh_state new_run tt (λ k. refl)
      ((refl, (refl, tt)), ((refl, tt), (tt, tt))) (inl refl, (inl refl, (inl refl, tt)))

-- The run as it stands at the gate.
abbrev at_gate : RunState
at_gate = (execute willing none 2 three_nodes fresh_state new_run).row

paused_there : (at_gate.status ≡ "paused") × (at_gate.current_step ≡ some "gate")
unfolding execute loop recorded new_results persist run_node agent_step approval_step lookup insert
    run_with_retries retry_loop turn max_attempts_for
paused_there = (refl, refl)

abbrev deny : ApprovalDecision
deny = record { step_name = "gate"; decision = "denied" }

approve-Answered_example :
    Answered reads_three deny (some at_gate) (approve reads_three deny 4 (some at_gate))
approve-Answered_example = approve-Answered reads_three deny 4 (some at_gate)

abbrev three_defs : Dict RawStep
three_defs = ("a", agent_named "a") ∷ ("gate", gate_named "gate") ∷ ("b", agent_named "b") ∷ []

read_back : step_defs [] three_steps ≡ some three_defs
unfolding step_defs insert
read_back = refl

abbrev denied_row : RunState
denied_row = approved_row "gate" deny 4 at_gate

denial_taken : approve reads_three deny 4 (some at_gate) ≡ accepted denied_row
unfolding execute loop recorded new_results persist run_node agent_step approval_step lookup insert
    run_with_retries retry_loop turn max_attempts_for approve step_defs
denial_taken = refl

-- The segment behind the gate.
abbrev last_segment : Segment
last_segment = execute willing none 5 three_nodes (restored denied_row) denied_row

last_started :
    resume_from_store reads_three willing none 5 denied_row denied_row ≡ some last_segment
unfolding execute loop recorded new_results persist run_node agent_step approval_step lookup insert
    run_with_retries retry_loop turn max_attempts_for approved_row resume_from_store build_graph
    named_nodes
last_started = refl

abbrev Agree : Dict RawStep → List Node → Type 0
Agree defs ns =
    All
      (λ n.
        (n.output_key == gate_key_in "gate" (lookup "gate" defs)) ≡ false
        → (n.name == "gate") ≡ false)
      ns

three_agree : KeysAgree reads_three "gate" null
unfolding lookup
three_agree defs ns read built =
    let same_defs : three_defs ≡ defs =
      ap (λ o. elim o [ none ↦ three_defs | some d ↦ d ]) (sym read_back ∙ read) in
    let same_nodes : three_nodes ≡ ns =
      ap (λ o. elim o [ none ↦ three_nodes | some d ↦ d ]) (sym nodes_of_three ∙ built) in
    subst (λ d. Agree d ns) same_defs
      (subst (λ ms. Agree three_defs ms) same_nodes ((λ h. refl), ((λ h. h), ((λ h. refl), tt))))

approve-moves_on_example : equals_text "gate" last_segment.graph.paused_at_step ≡ false
approve-moves_on_example =
    approve-moves_on reads_three willing none 4 5 deny (some at_gate) denied_row denied_row
      last_segment denial_taken three_agree last_started

-- A gate that was denied does not keep the run from its end.
denied_run_completes : last_segment.ending ≡ completed
unfolding execute loop recorded new_results persist run_node agent_step approval_step lookup insert
    run_with_retries retry_loop turn max_attempts_for approved_row starts_with
denied_run_completes = refl

-- A lone gate without a key has its result under `result`, and the decision goes elsewhere.
abbrev lone_gate : List RawStep
lone_gate = gate_named "gate" ∷ []

key_in_graph :
    build_graph lone_gate
    ≡ some (
        record {
          name = "gate";
          output_key = "result";
          is_gate = true;
          step = record (gate_named "gate") { output_key = some "result" };
        }
        ∷ [])
unfolding build_graph named_nodes apply_one_step_defaults
key_in_graph = refl

key_of_decision : gate_key_in "gate" (some (gate_named "gate")) ≡ "gate"
key_of_decision = refl

-- A step whose condition names the gate sees the denial.
abbrev asks_gate : GraphState → Option Bool
asks_gate g = condition_holds "steps.gate.approved == true" g.step_results

denial_seen : asks_gate (restored denied_row) ≡ some false
unfolding execute loop recorded new_results persist run_node agent_step approval_step lookup insert
    run_with_retries retry_loop turn max_attempts_for approved_row starts_with condition_holds
    evaluate_condition to_workflow_state contains is_space is_word same_text find_entry entries
    literal_of
denial_seen = refl
