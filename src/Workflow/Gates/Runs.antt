-- ===== src/Workflow/Gates/Runs.antt =====
-- Approval gates over whole runs of the engine: every interleaving of signals and coroutines.
use lightspeed_cloud_agents.Prelude.{
  ℕ, zero, suc, String, ◌≡◌, refl, sym, ap, ◌∙◌, subst, inl, inr, Bool, true, false, not, ◌&&◌,
  ◌||◌, Option, some, List, [], ◌∷◌, ◌++◌, map, append_assoc, arith, ◌==◌, if◌then◌else◌, length,
  any, all, All, All-append, Dict, lookup, lookup-insert,
}
use lightspeed_cloud_agents.Steps.{RawStep}
use lightspeed_cloud_agents.Json.{Value, has_text}
use lightspeed_cloud_agents.Schedule.{Chunk}
use lightspeed_cloud_agents.Schedule.Units.{
  members_of, chunk_parallel_groups-members, IsUnit, chunk_parallel_groups-IsUnit,
}
use lightspeed_cloud_agents.Workflow.{
  StepResult, Decision, State, WorkflowInput, Task, waiting, attempting, escalating, notifying,
  deciding, finished, broken, step_of, approve,
}
use lightspeed_cloud_agents.Workflow.Engine.{
  Phase, running, over, crashed, World, Answer, Happening, approval, session, resume, next,
  waiting_all, first_only, launch, is_finished, is_broken, has_stopped, steps_of, next_group,
  take_stock, move_at, happen_running, happen, run_of,
}
use lightspeed_cloud_agents.Workflow.Gates.Moves.{move-Fine}
use lightspeed_cloud_agents.Workflow.Gates.{
  is_approval, Signalled, Cleared, no_gate, not_needed, advised, by_policy, by_signal, TaskIsFine,
}

module _ (holds : String → Dict StepResult → Bool) (input : WorkflowInput) where
  -- What was so stays so when more happens.
  Cleared-later :
      (h : Happening) (hs : List Happening) (step : RawStep)
      → Cleared holds input hs step
      → Cleared holds input (h ∷ hs) step
  Cleared-later h hs step (no_gate e) = no_gate e
  Cleared-later h hs step (not_needed c rs e k) = not_needed c rs e k
  Cleared-later h hs step (advised e) = advised e
  Cleared-later h hs step (by_policy name e k) = by_policy name e k
  Cleared-later h hs step (by_signal name e k) = by_signal name e (ground (arith, k))

  TaskIsFine-later :
      (h : Happening) (hs : List Happening) (t : Task)
      → TaskIsFine holds input hs t
      → TaskIsFine holds input (h ∷ hs) t
  TaskIsFine-later h hs (waiting step) f = tt
  TaskIsFine-later h hs (attempting step name key retries) f = f
  TaskIsFine-later h hs (escalating step name result) f = f
  TaskIsFine-later h hs (notifying step name key) f = f
  TaskIsFine-later h hs (deciding step name key) f = f
  TaskIsFine-later h hs (finished step r) f = λ k. Cleared-later h hs step (f k)
  TaskIsFine-later h hs (broken step) f = tt

  AllCleared-later :
      (h : Happening) (hs : List Happening) (steps : List RawStep)
      → All (Cleared holds input hs) steps
      → All (Cleared holds input (h ∷ hs)) steps
  AllCleared-later h hs [] f = tt
  AllCleared-later h hs (step ∷ steps) f =
      (Cleared-later h hs step f.0, AllCleared-later h hs steps f.1)

  AllFine-later :
      (h : Happening) (hs : List Happening) (ts : List Task)
      → All (TaskIsFine holds input hs) ts
      → All (TaskIsFine holds input (h ∷ hs)) ts
  AllFine-later h hs [] f = tt
  AllFine-later h hs (t ∷ ts) f = (TaskIsFine-later h hs t f.0, AllFine-later h hs ts f.1)

  -- The coroutines of finished steps that let the loop go on: all their steps are cleared.
  finished-Cleared :
      (hs : List Happening) (ts : List Task)
      → all is_finished ts ≡ true
      → any has_stopped ts ≡ false
      → All (TaskIsFine holds input hs) ts
      → All (Cleared holds input hs) (map step_of ts)
  finished-Cleared hs [] e k f = tt
  finished-Cleared hs (finished step r ∷ ts) e k f =
      (f.0 (ground (arith, k)), finished-Cleared hs ts e (ground (arith, k)) f.1)
  finished-Cleared hs (t ∷ ts) e k f = cc

  -- What holds of the engine after any happenings: the steps behind it are cleared, and those of the
  -- running coroutines and the groups ahead are the others, in order.
  pub record Guarded (hs : List Happening) (steps : List RawStep) (w : World) : Type 0 where
    pub signalled : Signalled hs w.state
    pub tasks : All (TaskIsFine holds input hs) w.tasks
    pub units : All IsUnit w.rest
    pub behind : List RawStep
    pub cleared : All (Cleared holds input hs) behind
    pub order : behind ++ (map step_of w.tasks ++ members_of w.rest) ≡ steps

  Signalled-later :
      (h : Happening) (hs : List Happening) (s s' : State)
      → s'.approval_decisions ≡ s.approval_decisions
      → Signalled hs s
      → Signalled (h ∷ hs) s'
  Signalled-later h hs s s' e f name d at yes_ =
      let so = f name d (subst (λ ds. lookup name ds ≡ some d) e at) yes_ in ground (arith, so)

  Signalled-approve :
      (step : String) (new : Decision) (hs : List Happening) (s : State)
      → Signalled hs s
      → Signalled (approval step new ∷ hs) (approve step new s)
  unfolding approve is_approval
  Signalled-approve step new hs s f name d at yes_ =
      pick (step == name) (sym (lookup-insert step name new s.approval_decisions) ∙ at)
    where
      new_is : some new ≡ some d → d ≡ new
      new_is e = cc

      pick :
          (b : Bool)
          → (if b then some new else lookup name s.approval_decisions) ≡ some d
          → (b && new.decision == "approved" || any (is_approval name) hs) ≡ true
      pick true e =
          let same = subst (λ x. (x.decision == "approved") ≡ true) (new_is e) yes_ in
          ground (arith, same)
      pick false e = f name d e yes_

  module _ (count : Value → Option ℕ) (dumps : Value → String) where
    move_at-Fine :
        (h : Happening) (hs : List Happening) (i : ℕ) (a : Answer) (ts : List Task) (s : State)
        → Signalled hs s
        → All (TaskIsFine holds input hs) ts
        → ((move_at count holds dumps input i a ts s).1.approval_decisions ≡ s.approval_decisions)
          × All (TaskIsFine holds input hs) (move_at count holds dumps input i a ts s).0
          × (map step_of (move_at count holds dumps input i a ts s).0 ≡ map step_of ts)
    unfolding move_at
    move_at-Fine h hs i a [] s signalled f = (refl, tt, refl)
    move_at-Fine h hs zero a (t ∷ ts) s signalled f =
        let m = move-Fine holds input count dumps hs t a s signalled f.0 in
        (m.kept, (m.fine, f.1), ap (λ x. x ∷ map step_of ts) m.same)
    move_at-Fine h hs (suc i) a (t ∷ ts) s signalled f =
        let (k, g, e) = move_at-Fine h hs i a ts s signalled f.1 in
        (k, (f.0, g), ap (λ xs. step_of t ∷ xs) e)

  -- A group's coroutines are those of all its steps.
  launch-steps : (c : Chunk) → IsUnit c → map step_of (launch c) ≡ c.members
  unfolding launch
  launch-steps c (inl (e, l)) = rw e (only c.members l)
    where
      only : (ms : List RawStep) → length ms ≡ 1 → map step_of (waiting_all (first_only ms)) ≡ ms
      only [] l = absurd (omega (arith, l))
      only (m ∷ []) l = refl
      only (m ∷ n ∷ ms) l = absurd (omega (arith, l))
  launch-steps c (inr (g, e, g_filled, some_one, inside, apart)) = rw (e, g_filled) (each c.members)
    where
      each : (ms : List RawStep) → map step_of (waiting_all ms) ≡ ms
      each [] = refl
      each (m ∷ ms) = ap (λ r. m ∷ r) (each ms)

  launch-Fine : (hs : List Happening) (c : Chunk) → All (TaskIsFine holds input hs) (launch c)
  unfolding launch
  launch-Fine hs c = if_launched (has_text c.group)
    where
      each : (ms : List RawStep) → All (TaskIsFine holds input hs) (waiting_all ms)
      each [] = tt
      each (m ∷ ms) = (tt, each ms)

      if_launched :
          (b : Bool)
          → All
              (TaskIsFine holds input hs)
              (if b then waiting_all c.members else waiting_all (first_only c.members))
      if_launched true = each c.members
      if_launched false = each (first_only c.members)

  next_group-Guarded :
      (hs : List Happening) (steps : List RawStep) (w : World) (rest : List Chunk)
      → w.rest ≡ rest
      → all is_finished w.tasks ≡ true
      → any has_stopped w.tasks ≡ false
      → Guarded hs steps w
      → Guarded hs steps (next_group w rest)
  unfolding next_group members_of
  next_group-Guarded hs steps w [] e done good g = record {
    signalled = g.signalled;
    tasks = g.tasks;
    units = g.units;
    behind = g.behind;
    cleared = g.cleared;
    order = g.order;
  }
  next_group-Guarded hs steps w (c ∷ cs) e done good g =
      let units = subst (λ r. All IsUnit r) e g.units in
      record {
        signalled = g.signalled;
        tasks = launch-Fine hs c;
        units = units.1;
        behind = g.behind ++ map step_of w.tasks;
        cleared =
            All-append (Cleared holds input hs) g.behind (map step_of w.tasks) g.cleared
              (finished-Cleared hs w.tasks done good g.tasks);
        order =
            ap (λ r. (g.behind ++ map step_of w.tasks) ++ (r ++ members_of cs))
              (launch-steps c units.0)
            ∙ append_assoc g.behind (map step_of w.tasks) (c.members ++ members_of cs)
            ∙ ap (λ r. g.behind ++ (map step_of w.tasks ++ members_of r)) (sym e)
            ∙ g.order;
      }

  take_stock-Guarded :
      (hs : List Happening) (steps : List RawStep) (w : World)
      → Guarded hs steps w
      → Guarded hs steps (take_stock w)
  unfolding take_stock
  take_stock-Guarded hs steps w g =
      cases (any is_broken w.tasks) (all is_finished w.tasks) (any has_stopped w.tasks) refl refl
    where
      phase_only : (p : Phase) → Guarded hs steps (record w { phase = p })
      phase_only p = record {
        signalled = g.signalled;
        tasks = g.tasks;
        units = g.units;
        behind = g.behind;
        cleared = g.cleared;
        order = g.order;
      }

      cases :
          (b f s : Bool)
          → all is_finished w.tasks ≡ f
          → any has_stopped w.tasks ≡ s
          → Guarded hs steps (
              if b
              then record w { phase = crashed }
              else if not f
              then w
              else if s
              then record w { phase = over }
              else next_group w w.rest)
      cases true f s e k = phase_only crashed
      cases false false s e k = g
      cases false true true e k = phase_only over
      cases false true false e k = next_group-Guarded hs steps w w.rest refl e k g

  Guarded-later :
      (h : Happening) (hs : List Happening) (steps : List RawStep) (w : World)
      → Guarded hs steps w
      → Guarded (h ∷ hs) steps w
  Guarded-later h hs steps w g = record {
    signalled = Signalled-later h hs w.state w.state refl g.signalled;
    tasks = AllFine-later h hs w.tasks g.tasks;
    units = g.units;
    behind = g.behind;
    cleared = AllCleared-later h hs g.behind g.cleared;
    order = g.order;
  }

  module _ (count : Value → Option ℕ) (dumps : Value → String) where
    happen_running-Guarded :
        (h : Happening) (hs : List Happening) (steps : List RawStep) (w : World)
        → Guarded hs steps w
        → Guarded (h ∷ hs) steps (happen_running count holds dumps input h w)
    unfolding happen_running
    happen_running-Guarded (approval name d) hs steps w g =
        let later = Guarded-later (approval name d) hs steps w g in
        record {
          signalled = Signalled-approve name d hs w.state g.signalled;
          tasks = later.tasks;
          units = later.units;
          behind = later.behind;
          cleared = later.cleared;
          order = later.order;
        }
    happen_running-Guarded (session id value) hs steps w g =
        let later = Guarded-later (session id value) hs steps w g in
        record {
          signalled = later.signalled;
          tasks = later.tasks;
          units = later.units;
          behind = later.behind;
          cleared = later.cleared;
          order = later.order;
        }
    happen_running-Guarded (resume i a) hs steps w g =
        let (kept, fine, same) =
          move_at-Fine count dumps (resume i a) hs i a w.tasks w.state g.signalled g.tasks in
        record {
          signalled =
              Signalled-later (resume i a) hs w.state
                (move_at count holds dumps input i a w.tasks w.state).1 kept g.signalled;
          tasks = AllFine-later (resume i a) hs _ fine;
          units = g.units;
          behind = g.behind;
          cleared = AllCleared-later (resume i a) hs g.behind g.cleared;
          order = ap (λ r. g.behind ++ (r ++ members_of w.rest)) same ∙ g.order;
        }
    happen_running-Guarded next hs steps w g =
        take_stock-Guarded (next ∷ hs) steps w (Guarded-later next hs steps w g)

    happen-Guarded :
        (h : Happening) (hs : List Happening) (steps : List RawStep) (w : World)
        → Guarded hs steps w
        → Guarded (h ∷ hs) steps (happen count holds dumps input h w)
    unfolding happen
    happen-Guarded h hs steps w g = by_phase w.phase
      where
        by_phase :
            (p : Phase)
            → Guarded (h ∷ hs) steps (elim p as (λ x. World) [
              | running ↦ happen_running count holds dumps input h w
              | _ ↦ w
            ])
        by_phase running = happen_running-Guarded h hs steps w g
        by_phase over = Guarded-later h hs steps w g
        by_phase crashed = Guarded-later h hs steps w g

    -- After any happenings, in any order, the steps of the definition are, in order, those behind
    -- the engine, those of the coroutines it awaits, and those of the groups ahead; and each step
    -- behind it is no approval gate, or was skipped by its condition, or is a gate in an advisory
    -- run, a gate whose risk the policy approves, or a gate whose approval was signalled before.
    pub run_of-Guarded :
        (hs : List Happening)
        → Guarded hs (steps_of input.definition.steps) (run_of count holds dumps input hs)
    unfolding run_of lookup
    run_of-Guarded [] =
        let steps = steps_of input.definition.steps in
        record {
          signalled = λ name d at yes_. cc;
          tasks = tt;
          units = chunk_parallel_groups-IsUnit steps;
          behind = [];
          cleared = tt;
          order = chunk_parallel_groups-members steps;
        }
    run_of-Guarded (h ∷ hs) =
        happen-Guarded h hs (steps_of input.definition.steps) (run_of count holds dumps input hs)
          (run_of-Guarded hs)
