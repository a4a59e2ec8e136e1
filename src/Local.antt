-- ===== src/Local.antt =====
-- The local engine: src/cloud_agents/workflow/executor/graph_translator.py and
-- src/cloud_agents/workflow/executor/local/executor.py. A segment is one run of `_execute`, from a
-- start or a resumption to a pause or an end. The library's graph hands control back after each of
-- its nodes, in their order. Spans, messages of exceptions, and time stamps are left out: a segment
-- has one clock reading.
pub mod Judged
pub mod Segments
pub mod Touched
pub mod Loop
pub mod Gates
pub mod Resumed
pub mod Persisted
pub mod Stored
pub mod Runner
pub mod Api
pub mod Accepted
pub mod Answers
pub mod Approvals
mod Tests
use lightspeed_cloud_agents.Prelude.{
  ℕ, zero, suc, ◌+◌, ◌-◌, ◌*◌, ◌/◌, ◌%◌, ◌^◌, ◌≤◌, ◌<◌, String, ◌≡◌, refl, sym, ap, ◌∙◌, subst, ◌≢◌,
  ◌↔◌, ◌⊎◌, inl, inr, Bool, true, false, not, ◌&&◌, ◌||◌, Option, none, some, List, [], ◌∷◌, ◌++◌,
  map, append-nil, append_assoc, arith, eq_iff, eq_refl, ltb, leb, nat_eq, ◌==◌, if◌then◌else◌,
  ltb→lt, nat_eq→eq, Bool-cases, Option-cases, length, get_elem?, take, is_empty, any, all, keep_if,
  All, length-append, All-append, mem_text, codes, to_lower, lower, is_word, is_space, starts_with,
  contains, same_text, starts_with_self, lower-append, Dict, lookup, insert, remove, keep_values,
  lookup-insert, lookup-remove,
}
use lightspeed_cloud_agents.Json.{
  Fields, end, field, Items, cons, nil, Value, null, text, boolean, natural, negative, object,
  array, truthy, is_null, or_else, entries, has_text, text_or, option_or,
}
use lightspeed_cloud_agents.Steps.{
  PermissionScope, SpawnConfig, Provider, McpEntry, named, inline, RawStep, blank,
}
use lightspeed_cloud_agents.Retry.{
  transient_failure_markers, non_retryable_markers, tool_failure_words, any_marker, ends_word,
  behind, starts_word, failure_word, tool_call_failed, tool_failure_search, is_transient_lowered,
  is_transient_failure, max_attempts_for, Outcome, returned, raised, cancelled, Final, ends,
  assertion_failed, Run, Turn, stop, again, turn, raise_last, delays, retry_loop, run_with_retries,
  Raised, raised_from, Cause, no_cause, other_object, caused_by, first_cause, add_text, error_parts,
  join_parts, activity_error_text,
}
use lightspeed_cloud_agents.RunStates.{
  StepData, RunEvent, RunState, StoreError, already_exists, not_terminal, missing, not_connected,
  StoreAnswer, fails, gives, Store, find, update_where, delete_where, connected_then, check_updated,
  update, NewRun, new_row, inserted, create, get, with_step, with_event, with_status, with_context,
  update_step, append_event, set_paused, resume, terminal_statuses, mark_terminal,
  update_workflow_context, delete, put_in_order, order_by, select_ids, equals_text, updated_before,
  created_after, list_paused, list_by_user, list_by_session,
}
use lightspeed_cloud_agents.Errors.{
  Error, names_missing, human_approval_step, unknown_step_type, name_required, bad_timeout,
  invalid_provider, unapproved_provider, unknown_provider_fields, no_run_provider, cross_provider,
  bad_credential_reference, secret_value, credentialed_url, secret_header, secret_like_header,
  credential_header_value, ungated_credentials, secret_bearing_key, conflicting_service_account,
  bad_tools, bad_workflow_context, bad_step_context, invalid_step, duplicate_step_name, Result, err,
  ok, ◌>>=◌, bind_ok, refuse, ◌>>◌, refuse_ok, Ensures, returns, Ensures-bind, Ensures-refuse,
  Ensures-ok,
}
use lightspeed_cloud_agents.Normalize.{
  text_if_given, or_text, is_missing, apply_one_step_defaults, Defaults, Definition,
  workflow_defaults_from_definition, merge_context, image_of, resolve_sandbox_image, AgentStep,
  Meta, check_timeout, chosen_provider, has_key, resolve_provider, tool_names, check_tools,
  check_context, to_result, filled, valid_role, valid_spawn, Entry, agent_entry, gate_entry,
  is_gate, check_names, retries_of, normalize_workflow_step, normalize_steps, normalize_definition,
}

-- `WorkflowGraphState`, of which the nodes change the results and the pause.
pub record GraphState : Type 0 where
  pub step_results : Dict StepData
  pub paused_at_step : Option String

-- A step of the definition with its name and the key of its result.
pub record Node : Type 0 where
  pub name : String
  pub output_key : String
  pub is_gate : Bool
  pub step : RawStep

-- A node of a step that has a name; the key is the name's unless there is one.
abbrev pub node_named : RawStep → Option String → Option Node
node_named step none = none
node_named step (some name) = some (record {
  name = name;
  output_key = elim step.output_key [ none ↦ name | some key ↦ key ];
  is_gate = elim step.kind [ none ↦ false | some kind ↦ kind == "human-approval" ];
  step = step;
})

abbrev pub add_node : Option Node → Option (List Node) → Option (List Node)
add_node (some n) (some ns) = some (n ∷ ns)
add_node (some n) none = none
add_node none ns = none

unfoldable pub named_nodes : List RawStep → Option (List Node)
named_nodes [] = some []
named_nodes (step ∷ steps) = add_node (node_named step step.name) (named_nodes steps)

abbrev pub one_named : Result RawStep → Option (List Node)
one_named (err e) = none
one_named (ok step) = named_nodes (step ∷ [])

-- The nodes of `build_graph`, `none` where it raises.
unfoldable pub build_graph : List RawStep → Option (List Node)
unfolding named_nodes apply_one_step_defaults
build_graph (step ∷ []) = one_named (apply_one_step_defaults step 1)
build_graph steps = named_nodes steps

abbrev pub has_status : String → Option StepData → Bool
has_status status none = false
has_status status (some data_) = data_.status == status

abbrev pub put_result : String → StepData → GraphState → GraphState
put_result key data_ g = record g { step_results = insert key data_ g.step_results }

abbrev pub status_only : String → String → StepData
status_only key status = record { step_name = key; status = status; output = none; error = none }

-- What an executor's attempt answers.
pub record ExecResult : Type 0 where
  pub status : String
  pub output : Option Value
  pub error : Option String

-- How a node ends: with the new state, by an exception, or cancelled.
pub data NodeEnd : Type 0 where
  leaves : GraphState → NodeEnd
  raises : String → NodeEnd
  interrupted : NodeEnd

-- `max_retries`, if it is an `int` that is not negative. `True` is one.
abbrev pub retries : Value → ℕ
retries (natural n) = n
retries (boolean true) = 1
retries _ = 0

-- The answer of the retry loop, as the node's.
abbrev pub after_attempts : Node → GraphState → Final ExecResult String → NodeEnd
after_attempts n g (ends (returned r)) = leaves (
    put_result n.output_key
      (record { step_name = n.output_key; status = r.status; output = r.output; error = r.error })
      g)
after_attempts n g (ends (Outcome.raised e)) = raises e
after_attempts n g (ends cancelled) = interrupted
after_attempts n g assertion_failed = raises "AssertionError"

abbrev pub wants_auto_approve : Option Fields → Bool
wants_auto_approve none = false
wants_auto_approve (some policy) = elim (lookup "auto_approve" (entries policy)) [
  | none ↦ false
  | some v ↦ truthy v
]

abbrev pub auto_output : Value
auto_output = object (field "approved" (boolean true) (field "auto_approved" (boolean true) end))

-- `holds` is `evaluate_condition`, `none` where it raises; `invalid` is the text of the error with
-- which `build_step_input` refuses a step; `attempt` is the executor's answer to each attempt; and
-- `show` interpolates a message.
pub record StepServices : Type 0 where
  pub holds : String → Dict StepData → Option Bool
  pub invalid : RawStep → Dict StepData → Option String
  pub attempt : RawStep → Dict StepData → ℕ → Outcome ExecResult String
  pub show : String → Dict StepData → String

abbrev pub condition_of : StepServices → Node → GraphState → Option Bool
condition_of services n g = elim n.step.condition [
  | none ↦ some true
  | some condition ↦
      (if condition == "" then some true else services.holds condition g.step_results)
]

abbrev pub failure : String → String → StepData
failure key error = record { step_name = key; status = "failed"; output = none; error = some error }

abbrev pub after_preparation : StepServices → Node → GraphState → Option String → NodeEnd
after_preparation services n g (some error) =
    leaves (put_result n.output_key (failure n.output_key error) g)
after_preparation services n g none =
    after_attempts n g
      (run_with_retries (services.attempt n.step g.step_results) (λ r. r.status == "completed")
        (λ r. r.error) (λ e. e) true 1 (retries n.step.max_retries)).final

abbrev pub conditioned : StepServices → Node → GraphState → Option Bool → NodeEnd
conditioned services n g none = raises "ValueError"
conditioned services n g (some false) =
    leaves (put_result n.output_key (status_only n.output_key "skipped") g)
conditioned services n g (some true) =
    after_preparation services n g (services.invalid n.step g.step_results)

unfoldable pub agent_step : StepServices → Node → GraphState → NodeEnd
agent_step services n g =
    let existing = lookup n.output_key g.step_results in
    if has_status "completed" existing || has_status "failed" existing
    then leaves g
    else if has_text g.paused_at_step
    then leaves (put_result n.output_key (status_only n.output_key "skipped") g)
    else conditioned services n g (condition_of services n g)

-- The message of a gate, for its result.
abbrev pub message_of : StepServices → GraphState → Option String → Option Value
message_of services g none = none
message_of services g (some message) =
    if message == ""
    then none
    else let shown = services.show message g.step_results in
      if shown == "" then none else some (object (field "message" (text shown) end))

abbrev pub awaiting : StepServices → Node → GraphState → StepData
awaiting services n g = record {
  step_name = n.output_key;
  status = "awaiting_approval";
  output = message_of services g n.step.message;
  error = none;
}

abbrev pub auto_approved_result : Node → StepData
auto_approved_result n = record {
  step_name = n.output_key;
  status = "completed";
  output = some auto_output;
  error = none;
}

unfoldable pub approval_step : StepServices → Option Fields → Node → GraphState → NodeEnd
approval_step services policy n g =
    if has_status "completed" (lookup n.output_key g.step_results)
    then leaves g
    else if wants_auto_approve policy
    then leaves (put_result n.output_key (auto_approved_result n) g)
    else leaves (record {
      step_results = insert n.output_key (awaiting services n g) g.step_results;
      paused_at_step = some n.name;
    })

unfoldable pub run_node : StepServices → Option Fields → Node → GraphState → NodeEnd
unfolding agent_step approval_step
run_node services policy n g =
    if n.is_gate then approval_step services policy n g else agent_step services n g
