-- ===== src/Progress.antt =====
-- The overall status of a workflow: `WorkflowState.derive_status` of
-- src/cloud_agents/workflow/core/state.py.
mod Tests
use lightspeed_cloud_agents.Prelude.{
  ◌≡◌, refl, ◌↔◌, Bool, true, false, List, [], ◌∷◌, arith, if◌then◌else◌, is_empty, any, all,
}

pub data StepStatus : Type 0 where
  pending running completed failed skipped awaiting_approval dispatched : StepStatus

pub data Overall : Type 0 where
  paused in_progress has_failed done : Overall

abbrev pub awaits_approval : StepStatus → Bool
awaits_approval awaiting_approval = true
awaits_approval _ = false

abbrev pub is_active : StepStatus → Bool
is_active dispatched = true
is_active running = true
is_active _ = false

abbrev pub is_failure : StepStatus → Bool
is_failure failed = true
is_failure _ = false

abbrev pub is_settled : StepStatus → Bool
is_settled completed = true
is_settled skipped = true
is_settled _ = false

-- The statuses in the order of the steps; the code reads them as a set.
unfoldable pub derive_status : List StepStatus → Overall
derive_status statuses =
    if is_empty statuses
    then in_progress
    else if any awaits_approval statuses
    then paused
    else if any is_active statuses
    then in_progress
    else if any is_failure statuses
    then has_failed
    else if all is_settled statuses
    then done
    else in_progress

-- A test that excludes another one.
apart-any :
    (p q : StepStatus → Bool) (ss : List StepStatus)
    → ((s : StepStatus) → p s ≡ true → q s ≡ false)
    → all p ss ≡ true
    → any q ss ≡ false
apart-any p q [] h e = refl
apart-any p q (s ∷ ss) h e =
    let here = h s (ground (arith, e)) in
    let later = apart-any p q ss h (ground (arith, e)) in ground (arith, here, later)

settled_alone :
    (ss : List StepStatus)
    → all is_settled ss ≡ true
    → (any awaits_approval ss ≡ false) × (any is_active ss ≡ false) × (any is_failure ss ≡ false)
settled_alone ss e = (
  apart-any is_settled awaits_approval ss (λ s h. unlike_waiting s h) e,
  apart-any is_settled is_active ss (λ s h. unlike_active s h) e,
  apart-any is_settled is_failure ss (λ s h. unlike_failure s h) e,
)
  where
    unlike_waiting : (s : StepStatus) → is_settled s ≡ true → awaits_approval s ≡ false
    unlike_waiting awaiting_approval h = cc
    unlike_waiting _ h = refl

    unlike_active : (s : StepStatus) → is_settled s ≡ true → is_active s ≡ false
    unlike_active dispatched h = cc
    unlike_active running h = cc
    unlike_active _ h = refl

    unlike_failure : (s : StepStatus) → is_settled s ≡ true → is_failure s ≡ false
    unlike_failure failed h = cc
    unlike_failure _ h = refl

overall : Bool → Bool → Bool → Bool → Bool → Overall
overall e w a f s =
    if e
    then in_progress
    else if w
    then paused
    else if a
    then in_progress
    else if f
    then has_failed
    else if s
    then done
    else in_progress

done_only : (e w a f s : Bool) → overall e w a f s ≡ done → (e ≡ false) × (s ≡ true)
unfolding overall
done_only true w a f s h = cc
done_only false true a f s h = cc
done_only false false true f s h = cc
done_only false false false true s h = cc
done_only false false false false true h = (refl, refl)
done_only false false false false false h = cc

-- A workflow is done exactly when it has a step and every step is completed or skipped.
pub derive_status-done_iff :
    (statuses : List StepStatus)
    → (derive_status statuses ≡ done)
      ↔ ((is_empty statuses ≡ false) × (all is_settled statuses ≡ true))
unfolding derive_status overall
derive_status-done_iff ss = (
  λ h.
      done_only (is_empty ss) (any awaits_approval ss) (any is_active ss) (any is_failure ss)
        (all is_settled ss) h,
  λ h. let (w, a, f) = settled_alone ss h.1 in rw (h.0, w, a, f, h.1) refl,
)
