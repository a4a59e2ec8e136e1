-- ===== src/Workflow/Gates/Moves.antt =====
-- Approval gates under one move of a coroutine, whatever it is resumed with.
use lightspeed_cloud_agents.Prelude.{
  ℕ, String, ◌≡◌, refl, sym, subst, inl, inr, Bool, true, false, not, ◌&&◌, Option, none, some,
  List, arith, ◌==◌, if◌then◌else◌, Bool-cases, Option-cases, Dict,
}
use lightspeed_cloud_agents.Json.{Value, has_text, text_or}
use lightspeed_cloud_agents.Steps.{RawStep}
use lightspeed_cloud_agents.Normalize.{is_gate}
use lightspeed_cloud_agents.Retry.{returned, raised, Final, ends, run_with_retries}
use lightspeed_cloud_agents.Workflow.{
  failed, unknown_kind, StepResult, State, WorkflowInput, ActivityResult, Thrown, activity_error,
  Task, waiting, attempting, escalating, notifying, deciding, step_of,
}
use lightspeed_cloud_agents.Workflow.Handlers.{
  result_of, activity_succeeded, activity_error_of, thrown_text, conclude, begin_gate, begin_agent,
  begin_named, begin_keyed, begin, attempted, escalate,
}
use lightspeed_cloud_agents.Workflow.Engine.{
  Answer, go, outcomes, escalation, timer, Happening, move,
}
use lightspeed_cloud_agents.Workflow.Gates.{
  Signalled, Cleared, no_gate, not_needed, TaskIsFine, Fine, decide-Fine, begin_gate-Fine,
  begin_agent-Fine,
}

module _ (holds : String → Dict StepResult → Bool) (input : WorkflowInput) where
  not_needed_so :
      (hs : List Happening) (step : RawStep) (results : Dict StepResult) (o : Option String)
      → step.condition ≡ o
      → (has_text o && not (holds (text_or o "") results)) ≡ true
      → Cleared holds input hs step
  not_needed_so hs step results none e h = cc
  not_needed_so hs step results (some c) e h = not_needed c results e (answer (c == "") h)
    where
      answer :
          (b : Bool)
          → (not b && not (holds (if b then "" else c) results)) ≡ true
          → holds c results ≡ false
      answer true k = cc
      answer false k = ground arith

  other_kind :
      (step : RawStep) (k : String)
      → step.kind ≡ some k
      → (k == "human-approval") ≡ false
      → is_gate step ≡ false
  other_kind step k e h =
      subst (λ o. (elim o [ none ↦ false | some j ↦ j == "human-approval" ]) ≡ false) (sym e) h

  module _ (count : Value → Option ℕ) (dumps : Value → String) where
    by_kind :
        (hs : List Happening) (step : RawStep) (name key kind : String) (s : State)
        → step.name ≡ some name
        → step.kind ≡ some kind
        → Fine holds input hs step s (
            if kind == "human-approval"
            then begin_gate input step name key s
            else if kind == "agent"
            then begin_agent count holds dumps input step name key s
            else conclude step "step.failed" name key
                (result_of failed none (some (unknown_kind kind)))
                s)
    by_kind hs step name key kind s named_so kind_so =
        elim (Bool-cases (kind == "human-approval")) [
          | inl gate ↦ rw gate (begin_gate-Fine holds input hs step name key s named_so)
          | inr other ↦ elim (Bool-cases (kind == "agent")) [
            | inl agent ↦
                rw (other, agent)
                  (begin_agent-Fine holds input count dumps hs step name key s
                    (other_kind step kind kind_so other))
            | inr unknown ↦
                rw (other, unknown) (record { same = refl; kept = refl; fine = λ h. cc })
          ]
        ]

    begin_named-Fine :
        (hs : List Happening) (step : RawStep) (name key : String) (s : State)
        → step.name ≡ some name
        → Fine holds input hs step s (begin_named count holds dumps input step name key s)
    unfolding begin_named
    begin_named-Fine hs step name key s named_so =
        elim (Bool-cases
          (has_text step.condition && not (holds (text_or step.condition "") s.steps))) [
            | inl skip_it ↦ simp skip_it (record {
              same = refl;
              kept = refl;
              fine = λ h. not_needed_so hs step s.steps step.condition refl skip_it;
            })
            | inr go_on ↦ elim (Option-cases step.kind) [
              | inl missing ↦ simp (go_on, missing) (record { same = refl; kept = refl; fine = tt })
              | inr (kind, there) ↦
                  simp (go_on, there) (by_kind hs step name key kind s named_so there)
            ]
          ]

    begin_keyed-Fine :
        (hs : List Happening) (step : RawStep) (n k : Option String) (s : State)
        → step.name ≡ n
        → Fine holds input hs step s (begin_keyed count holds dumps input step n k s)
    unfolding begin_keyed
    begin_keyed-Fine hs step none k s e = record { same = refl; kept = refl; fine = tt }
    begin_keyed-Fine hs step (some name) none s e = record { same = refl; kept = refl; fine = tt }
    begin_keyed-Fine hs step (some name) (some key) s e = begin_named-Fine hs step name key s e

    begin-Fine :
        (hs : List Happening) (step : RawStep) (s : State)
        → Fine holds input hs step s (begin count holds dumps input step s)
    unfolding begin
    begin-Fine hs step s = begin_keyed-Fine hs step step.name step.output_key s refl

    attempted-Fine :
        (hs : List Happening) (step : RawStep) (name key : String) (r : Final ActivityResult Thrown)
        (s : State)
        → is_gate step ≡ false
        → Fine holds input hs step s (attempted count holds dumps input step name key r s)
    unfolding attempted
    attempted-Fine hs step name key (ends (returned r)) s other = record {
      same = refl;
      kept = refl;
      fine = λ h. no_gate other;
    }
    attempted-Fine hs step name key (ends (raised (activity_error e))) s other = record {
      same = refl;
      kept = refl;
      fine = other;
    }
    attempted-Fine hs step name key _ s other = record { same = refl; kept = refl; fine = tt }

    escalate-Fine :
        (hs : List Happening) (step : RawStep) (name : String) (result : StepResult)
        (r : Option StepResult) (s : State)
        → is_gate step ≡ false
        → Fine holds input hs step s (escalate count holds dumps step name result r s)
    unfolding escalate
    escalate-Fine hs step name result none s other = record { same = refl; kept = refl; fine = tt }
    escalate-Fine hs step name result (some r) s other = record {
      same = refl;
      kept = refl;
      fine = λ h. no_gate other;
    }

    pub move-Fine :
        (hs : List Happening) (t : Task) (a : Answer) (s : State)
        → Signalled hs s
        → TaskIsFine holds input hs t
        → Fine holds input hs (step_of t) s (move count holds dumps input t a s)
    unfolding move
    move-Fine hs (waiting step) go s signalled f = begin-Fine hs step s
    move-Fine hs (attempting step name key retries) (outcomes attempt) s signalled f =
        attempted-Fine hs step name key
          (run_with_retries attempt activity_succeeded activity_error_of thrown_text true 1
            retries).final
          s f
    move-Fine hs (escalating step name result) (escalation r) s signalled f =
        escalate-Fine hs step name result r s f
    move-Fine hs (notifying step name key) go s signalled f = record {
      same = refl;
      kept = refl;
      fine = f;
    }
    move-Fine hs (deciding step name key) (timer expired) s signalled f =
        decide-Fine holds input hs step name key expired s signalled f
    move-Fine hs t a s signalled f = record { same = refl; kept = refl; fine = f }
