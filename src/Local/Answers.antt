-- ===== src/Local/Answers.antt =====
-- What the local runner answers to an approval.
use lightspeed_cloud_agents.Prelude.{
  ℕ, String, ◌≡◌, refl, ap, ◌∙◌, inl, inr, Bool, true, false, Option, none, some, List, [], ◌∷◌,
  ◌++◌, arith, eq_iff, eq_refl, ◌==◌, if◌then◌else◌, Bool-cases, any, Dict, lookup, insert,
  lookup-insert,
}
use lightspeed_cloud_agents.Json.{end, field, Value, boolean, object}
use lightspeed_cloud_agents.Steps.{RawStep}
use lightspeed_cloud_agents.RunStates.{RunState, equals_text}
use lightspeed_cloud_agents.Local.Runner.{
  ApprovalDecision, no_workflow, nameless_step, not_paused, other_step, Reply, refused, accepted,
  gate_key_in, step_defs, approved_row, decided, approve,
}

-- The last step of a name.
abbrev pub last_named : String → List RawStep → Option RawStep
last_named name [] = none
last_named name (step ∷ steps) = elim (last_named name steps) [
  | none ↦ if equals_text name step.name then some step else none
  | some later ↦ some later
]

abbrev pub is_nameless : RawStep → Bool
is_nameless step = elim step.name [ none ↦ true | some name ↦ false ]

-- The output key of the last step of the gate's name; the name where it has none.
abbrev pub key_of_gate : String → List RawStep → String
key_of_gate name steps = elim (last_named name steps) [
  | none ↦ name
  | some step ↦ (elim step.output_key [ none ↦ name | some key ↦ key ])
]

-- The row after an approval, beside the row before it.
pub record HasDecision (key : String) (decision : ApprovalDecision) (row row' : RunState)
    : Type 0 where
  pub runs : row'.status ≡ "running"
  pub nowhere : row'.current_step ≡ none
  pub decided_here :
      lookup key row'.steps
      ≡ some (record {
        step_name = key;
        status = "completed";
        output = some (object (field "approved" (boolean (decision.decision == "approved")) end));
        error = none;
      })
  pub others_kept : (k : String) → (key == k) ≡ false → lookup k row'.steps ≡ lookup k row.steps
  pub logged :
      row'.events
      ≡ row.events
        ++ (record {
          kind = "step.approved";
          steps = decision.step_name ∷ [];
          detail = some decision.decision;
        }
            ∷ [])
  pub same_id : row'.workflow_id ≡ row.workflow_id
  pub same_definition : row'.definition ≡ row.definition
  pub same_provider : row'.provider ≡ row.provider
  pub same_context : row'.workflow_context ≡ row.workflow_context

-- The answer to an approval: one constructor for each case.
pub data Answered (steps_of : Value → List RawStep) (decision : ApprovalDecision)
    : Option RunState → Reply → Type 0 where
  unknown : Answered steps_of decision none (refused no_workflow)
  idle :
      (row : RunState)
      → (row.status == "paused") ≡ false
      → Answered steps_of decision (some row) (refused not_paused)
  elsewhere :
      (row : RunState)
      → row.status ≡ "paused"
      → equals_text decision.step_name row.current_step ≡ false
      → Answered steps_of decision (some row) (refused other_step)
  unreadable :
      (row : RunState)
      → row.status ≡ "paused"
      → row.current_step ≡ some decision.step_name
      → any is_nameless (steps_of row.definition) ≡ true
      → Answered steps_of decision (some row) (refused nameless_step)
  taken :
      (row row' : RunState)
      → row.status ≡ "paused"
      → row.current_step ≡ some decision.step_name
      → any is_nameless (steps_of row.definition) ≡ false
      → HasDecision (key_of_gate decision.step_name (steps_of row.definition)) decision row row'
      → Answered steps_of decision (some row) (accepted row')

abbrev or_before : Option RawStep → Option RawStep → Option RawStep
or_before none old = old
or_before (some step) old = some step

-- What the table of steps has, by the steps that were read into it.
abbrev Read : Dict RawStep → List RawStep → Option (Dict RawStep) → Type 0
Read defs steps none = any is_nameless steps ≡ true
Read defs steps (some after) =
    (any is_nameless steps ≡ false)
    × ((name : String) → lookup name after ≡ or_before (last_named name steps) (lookup name defs))

step_defs-Read :
    (steps : List RawStep) (defs : Dict RawStep) → Read defs steps (step_defs defs steps)
unfolding step_defs
step_defs-Read [] defs = (refl, λ name. refl)
step_defs-Read (step ∷ steps) defs =
    at step.name (λ own. step_defs-Read steps (insert own step defs)) refl
  where
    added :
        (own name : String)
        → step.name ≡ some own
        → (o : Option RawStep)
        → or_before o (lookup name (insert own step defs))
          ≡ or_before
              (elim o [
                | none ↦ if equals_text name step.name then some step else none
                | some later ↦ some later
              ])
              (lookup name defs)
    added own name named none = lookup-insert own name step defs ∙ elim (Bool-cases (own == name)) [
      | inl e ↦ rw (named, e) refl
      | inr e ↦ rw (named, e) refl
    ]
    added own name named (some later) = refl

    behind :
        (own : String)
        → step.name ≡ some own
        → (o : Option (Dict RawStep)) → Read (insert own step defs) steps o
        → Read defs (step ∷ steps) o
    behind own named none h = rw named h
    behind own named (some after) h =
        (rw named h.0, λ name. h.1 name ∙ added own name named (last_named name steps))

    at :
        (o : Option String)
        → ((own : String)
            → Read (insert own step defs) steps (step_defs (insert own step defs) steps))
        → step.name ≡ o
        → Read defs
            (step ∷ steps)
            (elim o [ none ↦ none | some name ↦ step_defs (insert name step defs) steps ])
    at none rest named = rw named refl
    at (some own) rest named = behind own named (step_defs (insert own step defs) steps) (rest own)

approved_row-HasDecision :
    (key : String) (decision : ApprovalDecision) (now : ℕ) (row : RunState)
    → HasDecision key decision row (approved_row key decision now row)
unfolding approved_row
approved_row-HasDecision key decision now row = record {
  runs = refl;
  nowhere = refl;
  decided_here = lookup-insert key key _ row.steps ∙ rw (eq_refl key) refl;
  others_kept = λ k other. lookup-insert key k _ row.steps ∙ rw other refl;
  logged = refl;
  same_id = refl;
  same_definition = refl;
  same_provider = refl;
  same_context = refl;
}

key_in_table :
    (name : String) (o : Option RawStep)
    → gate_key_in name (or_before o none)
      ≡ elim o [ none ↦ name | some step ↦ (elim step.output_key [ none ↦ name | some key ↦ key ]) ]
key_in_table name none = refl
key_in_table name (some step) = refl

equals_text→eq : (s : String) (o : Option String) → equals_text s o ≡ true → o ≡ some s
equals_text→eq s none h = ground (arith, h)
equals_text→eq s (some t) h = ap some ((eq_iff t s).0 h)

module _ (steps_of : Value → List RawStep) (decision : ApprovalDecision) (now : ℕ) where
  decided-Answered :
      (row : RunState) (o : Option (Dict RawStep))
      → row.status ≡ "paused"
      → row.current_step ≡ some decision.step_name
      → Read [] (steps_of row.definition) o
      → Answered steps_of decision (some row) (decided decision now row o)
  decided-Answered row none idle_ here h = unreadable row idle_ here h
  decided-Answered row (some defs) idle_ here h =
      let name = decision.step_name in
      let same : gate_key_in name (lookup name defs) ≡ key_of_gate name (steps_of row.definition) =
        unfold lookup in
        (ap (gate_key_in name) (h.1 name)
          ∙ key_in_table name (last_named name (steps_of row.definition))) in
      taken row _ idle_ here h.0 (
        rw same
          (approved_row-HasDecision (key_of_gate name (steps_of row.definition)) decision now row))

  -- An approval of a workflow that is not there, of one that is not paused, of one that waits at
  -- another step, and of one with a nameless step in its stored definition is refused, each with
  -- its own reason. Every other approval is taken: then the row runs and waits nowhere, has the
  -- decision as the completed result under the output key of the last step of the gate's name, or
  -- under that name where there is no such key, keeps all other results, its id, definition,
  -- provider and context, and has one event more, which names the step and the decision.
  pub approve-Answered :
      (found : Option RunState)
      → Answered steps_of decision found (approve steps_of decision now found)
  unfolding approve
  approve-Answered none = unknown
  approve-Answered (some row) = elim (Bool-cases (row.status == "paused")) [
    | inl paused_ ↦ elim (Bool-cases (equals_text decision.step_name row.current_step)) [
      | inl here ↦
          rw (paused_, here)
            (decided-Answered row (step_defs [] (steps_of row.definition))
              ((eq_iff row.status "paused").0 paused_)
              (equals_text→eq decision.step_name row.current_step here)
              (step_defs-Read (steps_of row.definition) []))
      | inr other ↦
          rw (paused_, other) (elsewhere row ((eq_iff row.status "paused").0 paused_) other)
    ]
    | inr other ↦ rw other (idle row other)
  ]
