-- ===== src/Local/Touched.antt =====
-- What a node of the local engine changes.
use lightspeed_cloud_agents.Prelude.{
  String, ◌≡◌, refl, sym, ap, ◌∙◌, subst, ◌⊎◌, inl, inr, Bool, true, false, ◌||◌, Option, none,
  some, ◌==◌, if◌then◌else◌, Bool-cases, Dict, lookup, insert, lookup-insert,
}
use lightspeed_cloud_agents.Json.{Fields, has_text}
use lightspeed_cloud_agents.Keys.{Distinct, insert-Distinct}
use lightspeed_cloud_agents.Retry.{Outcome, returned, cancelled, Final, ends, assertion_failed}
use lightspeed_cloud_agents.RunStates.{StepData}
use lightspeed_cloud_agents.Local.{
  GraphState, Node, has_status, put_result, status_only, ExecResult, NodeEnd, leaves, raises,
  interrupted, after_attempts, wants_auto_approve, StepServices, condition_of, failure,
  after_preparation, conditioned, agent_step, awaiting, auto_approved_result, approval_step,
  run_node,
}

-- A node that ends leaves the results alone, or sets the one under its own key.
abbrev Touches : String → GraphState → NodeEnd → Type 0
Touches key g (leaves g') =
    (g'.step_results ≡ g.step_results)
    ⊎ ((data_ : StepData) × (g'.step_results ≡ insert key data_ g.step_results))
Touches key g (raises error) = Unit
Touches key g interrupted = Unit

-- Induction over the ends of a node: it leaves the state alone, sets its result, waits, or ends by
-- an exception.
module _ {ℓ} (services : StepServices) (policy : Option Fields) (n : Node) (g : GraphState)
    (P : NodeEnd → Type ℓ) (kept : P (leaves g))
    (set : (data_ : StepData) → P (leaves (put_result n.output_key data_ g)))
    (waits : (data_ : StepData)
      → P (
          leaves (record {
            step_results = insert n.output_key data_ g.step_results;
            paused_at_step = some n.name;
          })))
    (fails_ : (error : String) → P (raises error)) (stops : P interrupted) where
  if_case : (b : Bool) {x y : NodeEnd} → P x → P y → P (if b then x else y)
  if_case true hx hy = hx
  if_case false hx hy = hy

  finished_case : (f : Final ExecResult String) → P (after_attempts n g f)
  finished_case (ends (returned r)) = set _
  finished_case (ends (Outcome.raised e)) = fails_ e
  finished_case (ends cancelled) = stops
  finished_case assertion_failed = fails_ "AssertionError"

  prepared_case : (o : Option String) → P (after_preparation services n g o)
  prepared_case (some error) = set (failure n.output_key error)
  prepared_case none = finished_case _

  conditioned_case : (o : Option Bool) → P (conditioned services n g o)
  conditioned_case none = fails_ "ValueError"
  conditioned_case (some false) = set (status_only n.output_key "skipped")
  conditioned_case (some true) = prepared_case (services.invalid n.step g.step_results)

  run_node-cases : P (run_node services policy n g)
  unfolding run_node agent_step approval_step
  run_node-cases =
      if_case n.is_gate
        (if_case (has_status "completed" (lookup n.output_key g.step_results)) kept (
          if_case (wants_auto_approve policy) (set (auto_approved_result n))
            (waits (awaiting services n g))))
        (if_case
          (has_status "completed" (lookup n.output_key g.step_results)
            || has_status "failed" (lookup n.output_key g.step_results))
          kept
          (if_case (has_text g.paused_at_step) (set (status_only n.output_key "skipped"))
            (conditioned_case (condition_of services n g))))

run_node-Touches :
    (services : StepServices) (policy : Option Fields) (n : Node) (g : GraphState)
    → Touches n.output_key g (run_node services policy n g)
run_node-Touches services policy n g =
    run_node-cases services policy n g (Touches n.output_key g) (inl refl)
      (λ data_. inr (data_, refl)) (λ data_. inr (data_, refl)) (λ error. tt) tt

-- A pause that a node leaves is the one before, or at this node.
abbrev pub PausesAt : String → Option String → NodeEnd → Type 0
PausesAt name before (leaves g') = (g'.paused_at_step ≡ before) ⊎ (g'.paused_at_step ≡ some name)
PausesAt name before (raises error) = Unit
PausesAt name before interrupted = Unit

pub run_node-PausesAt :
    (services : StepServices) (policy : Option Fields) (n : Node) (g : GraphState)
    → PausesAt n.name g.paused_at_step (run_node services policy n g)
run_node-PausesAt services policy n g =
    run_node-cases services policy n g (PausesAt n.name g.paused_at_step) (inl refl)
      (λ data_. inl refl) (λ data_. inr refl) (λ error. tt) tt

insert_other :
    (key : String) (data_ : StepData) (results : Dict StepData) (k : String)
    → (key == k) ≡ false
    → lookup k (insert key data_ results) ≡ lookup k results
insert_other key data_ results k other = rw (lookup-insert key k data_ results, other) refl

module _ (services : StepServices) (policy : Option Fields) (n : Node) (g g' : GraphState)
    (h : run_node services policy n g ≡ leaves g') where
  -- The results under other keys stay.
  pub run_node-lookup :
      (k : String)
      → (n.output_key == k) ≡ false
      → lookup k g'.step_results ≡ lookup k g.step_results
  run_node-lookup k other =
      elim (subst (Touches n.output_key g) h (run_node-Touches services policy n g)) [
        | inl same ↦ ap (lookup k) same
        | inr (data_, put_) ↦
            ap (lookup k) put_ ∙ insert_other n.output_key data_ g.step_results k other
      ]

  pub run_node-Distinct : Distinct g.step_results → Distinct g'.step_results
  run_node-Distinct distinct =
      elim (subst (Touches n.output_key g) h (run_node-Touches services policy n g)) [
        | inl same ↦ subst Distinct (sym same) distinct
        | inr (data_, put_) ↦
            subst Distinct (sym put_) (insert-Distinct n.output_key data_ g.step_results distinct)
      ]

-- A step whose result is completed leaves the state as it is.
pub completed_kept :
    (services : StepServices) (policy : Option Fields) (n : Node) (g : GraphState)
    → has_status "completed" (lookup n.output_key g.step_results) ≡ true
    → run_node services policy n g ≡ leaves g
unfolding run_node agent_step approval_step
completed_kept services policy n g h = elim (Bool-cases n.is_gate) [
  | inl gate ↦ rw (gate, h) refl
  | inr agent ↦ rw (agent, h) refl
]
