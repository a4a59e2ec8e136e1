-- ===== src/Workflow/Engine.antt =====
-- `run` of src/cloud_agents/workflow/executor/temporal/workflow.py: the steps of a group under
-- `asyncio.gather`, in whatever order the event loop resumes them, signals in between, and the loop
-- over the groups.
use lightspeed_cloud_agents.Prelude.{
  ℕ, zero, suc, String, Bool, true, false, not, Option, List, [], ◌∷◌, map, if◌then◌else◌, any, all,
  Dict,
}
use lightspeed_cloud_agents.Json.{Value, has_text}
use lightspeed_cloud_agents.Errors.{err, ok}
use lightspeed_cloud_agents.Steps.{RawStep}
use lightspeed_cloud_agents.Normalize.{apply_one_step_defaults}
use lightspeed_cloud_agents.Schedule.{Chunk, chunk_parallel_groups}
use lightspeed_cloud_agents.Retry.{Outcome, run_with_retries}
use lightspeed_cloud_agents.Workflow.{
  StepResult, Decision, State, initial_state, WorkflowInput, ActivityResult, Thrown, Task, waiting,
  attempting, escalating, notifying, deciding, finished, broken, stops, approve, session_result,
}
use lightspeed_cloud_agents.Workflow.Handlers.{
  activity_succeeded, activity_error_of, thrown_text, decide, begin, attempted, escalate,
}

-- Whether `run` goes on, has returned its output, or has raised.
pub data Phase : Type 0 where
  running over crashed : Phase

pub record World : Type 0 where
  pub state : State
  pub tasks : List Task
  pub rest : List Chunk
  pub phase : Phase

-- What a coroutine is resumed with: nothing, the outcomes of its attempts, the escalation's result,
-- or whether the time to decide is up.
pub data Answer : Type 0 where
  go : Answer
  outcomes : (ℕ → Outcome ActivityResult Thrown) → Answer
  escalation : Option StepResult → Answer
  timer : Bool → Answer

-- What happens to a workflow: a signal, a task that is resumed, or the loop that takes stock.
pub data Happening : Type 0 where
  approval : String → Decision → Happening
  session : String → Dict Value → Happening
  resume : ℕ → Answer → Happening
  next : Happening

abbrev pub waiting_all : List RawStep → List Task
waiting_all steps = map waiting steps

abbrev pub first_only : List RawStep → List RawStep
first_only [] = []
first_only (m ∷ ms) = m ∷ []

-- The coroutines that the loop awaits for one group.
unfoldable pub launch : Chunk → List Task
launch c = if has_text c.group then waiting_all c.members else waiting_all (first_only c.members)

abbrev pub is_finished : Task → Bool
is_finished (finished step r) = true
is_finished _ = false

abbrev pub is_broken : Task → Bool
is_broken (broken step) = true
is_broken _ = false

abbrev pub has_stopped : Task → Bool
has_stopped (finished step r) = stops r
has_stopped _ = false

-- `steps` of `run`, with the one-step convention.
unfoldable pub steps_of : List RawStep → List RawStep
steps_of (step ∷ []) = elim (apply_one_step_defaults step 1) [ ok s ↦ s ∷ [] | err e ↦ step ∷ [] ]
steps_of steps = steps

-- The next group of the loop is launched; behind the last one, `run` returns.
unfoldable pub next_group : World → List Chunk → World
unfolding launch
next_group w [] = record w { phase = over }
next_group w (c ∷ cs) = record w { tasks = launch c; rest = cs }

-- The loop when a group's coroutines are awaited: an exception passes on, a failed or denied step
-- ends the run, and otherwise the next group is launched.
unfoldable pub take_stock : World → World
unfolding next_group
take_stock w =
    if any is_broken w.tasks
    then record w { phase = crashed }
    else if not (all is_finished w.tasks)
    then w
    else if any has_stopped w.tasks
    then record w { phase = over }
    else next_group w w.rest

abbrev pub start : WorkflowInput → World
start input = record {
  state = initial_state;
  tasks = [];
  rest = chunk_parallel_groups (steps_of input.definition.steps);
  phase = running;
}

module _ (count : Value → Option ℕ) (holds : String → Dict StepResult → Bool)
    (dumps : Value → String) (input : WorkflowInput) where
  -- A coroutine resumed with an answer to what it awaits; another answer leaves it where it is.
  unfoldable pub move : Task → Answer → State → Task × State
  unfolding begin attempted escalate decide
  move (waiting step) go s = begin count holds dumps input step s
  move (attempting step name key retries) (outcomes attempt) s =
      attempted count holds dumps input step name key
        (run_with_retries attempt activity_succeeded activity_error_of thrown_text true 1
          retries).final
        s
  move (escalating step name result) (escalation r) s =
      escalate count holds dumps step name result r s
  move (notifying step name key) go s = (deciding step name key, s)
  move (deciding step name key) (timer expired) s = decide step name key expired s
  move t a s = (t, s)

  unfoldable pub move_at : ℕ → Answer → List Task → State → List Task × State
  unfolding move
  move_at i a [] s = ([], s)
  move_at zero a (t ∷ ts) s = let (t', s') = move t a s in (t' ∷ ts, s')
  move_at (suc i) a (t ∷ ts) s = let (ts', s') = move_at i a ts s in (t ∷ ts', s')

  unfoldable pub happen_running : Happening → World → World
  unfolding move_at approve session_result take_stock
  happen_running (approval name d) w = record w { state = approve name d w.state }
  happen_running (session id value) w = record w { state = session_result id value w.state }
  happen_running (resume i a) w =
      let (ts, s) = move_at i a w.tasks w.state in record w { tasks = ts; state = s }
  happen_running next w = take_stock w

  -- A workflow that is over takes no more signals.
  unfoldable pub happen : Happening → World → World
  unfolding happen_running
  happen h w = elim w.phase [ running ↦ happen_running h w | _ ↦ w ]

  -- What is reached by happenings, the latest first.
  unfoldable pub run_of : List Happening → World
  unfolding happen
  run_of [] = start input
  run_of (h ∷ hs) = happen h (run_of hs)
