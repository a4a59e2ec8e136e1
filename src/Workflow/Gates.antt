-- ===== src/Workflow/Gates.antt =====
-- Approval gates: what a single move of a coroutine can do to one.
pub mod Moves
pub mod Runs
use lightspeed_cloud_agents.Prelude.{
  ℕ, String, ◌≡◌, refl, inl, inr, Bool, true, false, ◌&&◌, Option, none, some, List, ◌==◌,
  if◌then◌else◌, Bool-cases, any, Dict, lookup,
}
use lightspeed_cloud_agents.Json.{Value}
use lightspeed_cloud_agents.Errors.{Result, err, ok}
use lightspeed_cloud_agents.Steps.{RawStep}
use lightspeed_cloud_agents.Normalize.{AgentStep, is_gate}
use lightspeed_cloud_agents.Transcript.{empty_transcript}
use lightspeed_cloud_agents.Workflow.{
  completed, failed, denied, not_normal, StepResult, Decision, State, WorkflowInput, Task, waiting,
  attempting, escalating, notifying, deciding, finished, broken, step_of, emit, store_transcript,
  stops,
}
use lightspeed_cloud_agents.Workflow.Handlers.{
  result_of, decision_output, decided_result, conclude, settle, decide, valid_risk, auto_approved,
  begin_approval, begin_gate, prepared, begin_agent,
}
use lightspeed_cloud_agents.Workflow.Engine.{go, Happening, approval}

-- An `approve` signal with the decision to approve the step of a name.
pub is_approval : String → Happening → Bool
is_approval name (approval step d) = step == name && d.decision == "approved"
is_approval name _ = false

-- Every decision to approve that the state holds came by a signal.
abbrev pub Signalled : List Happening → State → Type 0
Signalled hs s =
    (name : String) (d : Decision)
    → lookup name s.approval_decisions ≡ some d
    → (d.decision == "approved") ≡ true
    → any (is_approval name) hs ≡ true

module _ (holds : String → Dict StepResult → Bool) (input : WorkflowInput) where
  -- The ways past a step: it is no approval gate; its condition did not hold; or it is a gate, and
  -- the run is advisory, or the policy approves the step's risk, or an approval was signalled.
  pub data Cleared (hs : List Happening) (step : RawStep) : Type 0 where
    no_gate : is_gate step ≡ false → Cleared hs step
    not_needed :
        (c : String) (results : Dict StepResult)
        → step.condition ≡ some c
        → holds c results ≡ false
        → Cleared hs step
    advised : input.advisory ≡ true → Cleared hs step
    by_policy :
        (name : String)
        → step.name ≡ some name
        → auto_approved input step name ≡ true
        → Cleared hs step
    by_signal :
        (name : String) → step.name ≡ some name → any (is_approval name) hs ≡ true → Cleared hs step

  abbrev pub TaskIsFine : List Happening → Task → Type 0
  TaskIsFine hs (waiting step) = Unit
  TaskIsFine hs (attempting step name key retries) = is_gate step ≡ false
  TaskIsFine hs (escalating step name result) = is_gate step ≡ false
  TaskIsFine hs (notifying step name key) = step.name ≡ some name
  TaskIsFine hs (deciding step name key) = step.name ≡ some name
  TaskIsFine hs (finished step r) = stops r ≡ false → Cleared hs step
  TaskIsFine hs (broken step) = Unit

  -- A move that leaves the step and the decisions as they are and the task fine.
  pub record Fine (hs : List Happening) (step : RawStep) (s : State) (p : Task × State)
      : Type 0 where
    pub same : step_of p.0 ≡ step
    pub kept : p.1.approval_decisions ≡ s.approval_decisions
    pub fine : TaskIsFine hs p.0

  settle-Fine :
      (hs : List Happening) (step : RawStep) (name key : String) (o : Option Decision)
      (expired : Bool) (s : State)
      → Signalled hs s
      → lookup name s.approval_decisions ≡ o
      → step.name ≡ some name
      → Fine hs step s (settle step name key o expired s)
  unfolding settle decided_result
  settle-Fine hs step name key none true s signalled at named_so = record {
    same = refl;
    kept = refl;
    fine = λ h. cc;
  }
  settle-Fine hs step name key none false s signalled at named_so = record {
    same = refl;
    kept = refl;
    fine = named_so;
  }
  settle-Fine hs step name key (some d) expired s signalled at named_so =
      elim (Bool-cases (d.decision == "approved")) [
        | inl yes_ ↦ record {
          same = refl;
          kept = refl;
          fine = λ h. by_signal name named_so (signalled name d at yes_);
        }
        | inr not_so ↦ record {
          same = refl;
          kept = refl;
          fine = λ h. absurd (stopped (d.decision == "approved") not_so h);
        }
      ]
    where
      stopped :
          (b : Bool)
          → b ≡ false
          → stops
              (some (result_of (if b then completed else denied) (some (decision_output d)) none))
            ≡ false
          → ⊥
      stopped true e h = cc
      stopped false e h = cc

  decide-Fine :
      (hs : List Happening) (step : RawStep) (name key : String) (expired : Bool) (s : State)
      → Signalled hs s
      → step.name ≡ some name
      → Fine hs step s (decide step name key expired s)
  unfolding decide
  decide-Fine hs step name key expired s signalled named_so =
      settle-Fine hs step name key (lookup name s.approval_decisions) expired s signalled refl
        named_so

  begin_approval-Fine :
      (hs : List Happening) (step : RawStep) (name key : String) (s : State)
      → step.name ≡ some name
      → Fine hs step s (begin_approval input step name key s)
  unfolding begin_approval
  begin_approval-Fine hs step name key s named_so = elim (Bool-cases (valid_risk step.risk_level)) [
    | inl valid ↦ elim (Bool-cases (auto_approved input step name)) [
      | inl auto ↦
          rw (valid, auto)
            (record { same = refl; kept = refl; fine = λ h. by_policy name named_so auto })
      | inr manual ↦ rw (valid, manual) (record { same = refl; kept = refl; fine = named_so })
    ]
    | inr wrong ↦ rw wrong (record { same = refl; kept = refl; fine = tt })
  ]

  begin_gate-Fine :
      (hs : List Happening) (step : RawStep) (name key : String) (s : State)
      → step.name ≡ some name
      → Fine hs step s (begin_gate input step name key s)
  unfolding begin_gate
  begin_gate-Fine hs step name key s named_so = elim (Bool-cases input.advisory) [
    | inl yes_ ↦ simp yes_ (record { same = refl; kept = refl; fine = λ h. advised yes_ })
    | inr not_so ↦ simp not_so (begin_approval-Fine hs step name key s named_so)
  ]

  begin_agent-Fine :
      (count : Value → Option ℕ) (dumps : Value → String) (hs : List Happening) (step : RawStep)
      (name key : String) (s : State)
      → is_gate step ≡ false
      → Fine hs step s (begin_agent count holds dumps input step name key s)
  unfolding begin_agent
  begin_agent-Fine count dumps hs step name key s other = go (prepared count holds dumps input step)
    where
      go :
          (r : Result AgentStep)
          → Fine hs step s (elim r as (λ x. Task × State) [
            | err e ↦
                conclude step "step.failed" name key
                  (result_of failed none (some (not_normal e)))
                  (store_transcript key (empty_transcript name) s)
            | ok normalized ↦ (
              attempting step normalized.name normalized.output_key normalized.max_retries,
              emit "step.started" normalized.name s,
            )
          ])
      go (err e) = record { same = refl; kept = refl; fine = λ h. cc }
      go (ok normalized) = record { same = refl; kept = refl; fine = other }
