-- ===== src/RunStates.antt =====
-- The run-state store: src/cloud_agents/storage/run_state_store.py. A statement of SQL acts on the
-- rows of its table, in the order in which they were inserted; columns of JSON hold their values;
-- the times are passed in.
pub mod Specified
pub mod Refines
pub mod Listed
mod Tests
use lightspeed_cloud_agents.Prelude.{
  ℕ, zero, suc, ◌+◌, ◌-◌, ◌*◌, ◌/◌, ◌%◌, ◌^◌, ◌≤◌, ◌<◌, String, ◌≡◌, refl, sym, ap, ◌∙◌, subst, ◌≢◌,
  ◌↔◌, ◌⊎◌, inl, inr, Bool, true, false, not, ◌&&◌, ◌||◌, Option, none, some, List, [], ◌∷◌, ◌++◌,
  map, append-nil, append_assoc, arith, eq_iff, eq_refl, ltb, leb, nat_eq, ◌==◌, if◌then◌else◌,
  ltb→lt, nat_eq→eq, Bool-cases, Option-cases, length, get_elem?, take, is_empty, any, all, keep_if,
  All, length-append, All-append, mem_text, codes, to_lower, lower, is_word, is_space, starts_with,
  contains, same_text, starts_with_self, lower-append, Dict, lookup, insert, remove, keep_values,
  lookup-insert, lookup-remove,
}
use lightspeed_cloud_agents.Json.{
  Fields, end, field, Items, cons, nil, Value, null, text, boolean, natural, negative, object,
  array, truthy, is_null, or_else, entries, has_text, text_or, option_or,
}

-- An entry of the column `steps`.
pub record StepData : Type 0 where
  pub step_name : String
  pub status : String
  pub output : Option Value
  pub error : Option String

-- An entry of the column `events`: its type, and the steps and the text that it may name.
pub record RunEvent : Type 0 where
  pub kind : String
  pub steps : List String
  pub detail : Option String

pub record RunState : Type 0 where
  pub workflow_id : String
  pub workflow_name : String
  pub status : String
  pub current_step : Option String
  pub steps : Dict StepData
  pub events : List RunEvent
  pub definition : Value
  pub provider : Value
  pub authz_context : Value
  pub workflow_context : Value
  pub user_id : Option String
  pub session_id : Option String
  pub parent_workflow_id : Option String
  pub created_at : ℕ
  pub updated_at : ℕ

-- `ValueError` for an id in use or for a status that is not terminal, `KeyError`, and the
-- `RuntimeError` of a store without a connection.
pub data StoreError : Type 0 where
  already_exists not_terminal missing not_connected : StoreError

pub data StoreAnswer (A : Type 0) : Type 0 where
  fails : StoreError → StoreAnswer A
  gives : A → StoreAnswer A

pub record Store : Type 0 where
  pub connected : Bool
  pub rows : List RunState

-- The first row that a selection by `workflow_id` finds.
unfoldable pub find : String → List RunState → Option RunState
find id [] = none
find id (row ∷ rows) = if row.workflow_id == id then some row else find id rows

-- `UPDATE ... WHERE workflow_id = $1`, with the number of its rows.
unfoldable pub update_where : String → (RunState → RunState) → List RunState → ℕ × List RunState
update_where id change [] = (0, [])
update_where id change (row ∷ rows) =
    let (n, rest) = update_where id change rows in
    if row.workflow_id == id then (suc n, change row ∷ rest) else (n, row ∷ rest)

unfoldable pub delete_where : String → List RunState → List RunState
delete_where id [] = []
delete_where id (row ∷ rows) =
    let rest = delete_where id rows in if row.workflow_id == id then rest else row ∷ rest

abbrev pub connected_then : {A : Type 0} → Store → StoreAnswer A → StoreAnswer A
connected_then store answer = if store.connected then answer else fails not_connected

-- `_check_updated`, with the store that the statement leaves.
abbrev pub check_updated : Store → ℕ × List RunState → StoreAnswer Store
check_updated store (zero, rows) = fails missing
check_updated store (suc n, rows) = gives (record store { rows = rows })

unfoldable pub update : String → (RunState → RunState) → Store → StoreAnswer Store
unfolding update_where
update id change store =
    connected_then store (check_updated store (update_where id change store.rows))

-- What a caller gives to `create`, and the row that it makes.
pub record NewRun : Type 0 where
  pub workflow_id : String
  pub workflow_name : String
  pub definition : Value
  pub provider : Value
  pub authz_context : Value
  pub user_id : Option String
  pub session_id : Option String
  pub parent_workflow_id : Option String

abbrev pub new_row : NewRun → ℕ → RunState
new_row run now = record {
  workflow_id = run.workflow_id;
  workflow_name = run.workflow_name;
  status = "running";
  current_step = none;
  steps = [];
  events = [];
  definition = run.definition;
  provider = run.provider;
  authz_context = run.authz_context;
  workflow_context = object end;
  user_id = run.user_id;
  session_id = run.session_id;
  parent_workflow_id = run.parent_workflow_id;
  created_at = now;
  updated_at = now;
}

-- The insertion; the primary key makes a second row for an id a `UniqueViolationError`.
abbrev pub inserted : Store → RunState → Option RunState → StoreAnswer Store
inserted store row none = gives (record store { rows = store.rows ++ row ∷ [] })
inserted store row (some old) = fails already_exists

unfoldable pub create : NewRun → ℕ → Store → StoreAnswer Store
create run now store =
    connected_then store (inserted store (new_row run now) (find run.workflow_id store.rows))

unfoldable pub get : String → Store → StoreAnswer (Option RunState)
get id store = connected_then store (gives (find id store.rows))

-- The changes of the statements. `None` of Python's is `none`.
abbrev pub with_step : StepData → ℕ → RunState → RunState
with_step data_ now row = record row {
  steps = insert data_.step_name data_ row.steps;
  current_step = some data_.step_name;
  updated_at = now;
}

abbrev pub with_event : RunEvent → ℕ → RunState → RunState
with_event event now row = record row { events = row.events ++ event ∷ []; updated_at = now }

abbrev pub with_status : String → Option String → ℕ → RunState → RunState
with_status status step now row = record row {
  status = status;
  current_step = step;
  updated_at = now;
}

abbrev pub with_context : Value → ℕ → RunState → RunState
with_context context now row = record row { workflow_context = context; updated_at = now }

unfoldable pub update_step : String → StepData → ℕ → Store → StoreAnswer Store
unfolding update
update_step id data_ now store = update id (with_step data_ now) store

unfoldable pub append_event : String → RunEvent → ℕ → Store → StoreAnswer Store
unfolding update
append_event id event now store = update id (with_event event now) store

unfoldable pub set_paused : String → String → ℕ → Store → StoreAnswer Store
unfolding update
set_paused id step now store = update id (with_status "paused" (some step) now) store

unfoldable pub resume : String → ℕ → Store → StoreAnswer Store
unfolding update
resume id now store = update id (with_status "running" none now) store

abbrev pub terminal_statuses : List String
terminal_statuses = "completed" ∷ "failed" ∷ "cancelled" ∷ []

unfoldable pub mark_terminal : String → String → ℕ → Store → StoreAnswer Store
unfolding update
mark_terminal id status now store =
    if not (mem_text status terminal_statuses)
    then fails not_terminal
    else update id (with_status status none now) store

unfoldable pub update_workflow_context : String → Value → ℕ → Store → StoreAnswer Store
unfolding update
update_workflow_context id context now store = update id (with_context context now) store

unfoldable pub delete : String → Store → StoreAnswer Store
unfolding delete_where
delete id store = connected_then store (gives (record store { rows = delete_where id store.rows }))

-- `ORDER BY`: rows of equal keys stay in the table's order.
abbrev pub put_in_order : (RunState → RunState → Bool) → RunState → List RunState → List RunState
put_in_order before row [] = row ∷ []
put_in_order before row (r ∷ rows) =
    let rest = put_in_order before row rows in if before r row then r ∷ rest else row ∷ r ∷ rows

unfoldable pub order_by : (RunState → RunState → Bool) → List RunState → List RunState
order_by before [] = []
order_by before (row ∷ rows) = put_in_order before row (order_by before rows)

unfoldable pub select_ids :
    (RunState → Bool) → (RunState → RunState → Bool) → Store → StoreAnswer (List String)
unfolding order_by
select_ids test before store =
    connected_then store
      (gives (map (λ r. r.workflow_id) (order_by before (keep_if test store.rows))))

abbrev pub equals_text : String → Option String → Bool
equals_text s none = false
equals_text s (some t) = t == s

abbrev pub updated_before : RunState → RunState → Bool
updated_before a b = ltb a.updated_at b.updated_at

abbrev pub created_after : RunState → RunState → Bool
created_after a b = ltb b.created_at a.created_at

unfoldable pub list_paused : Store → StoreAnswer (List String)
unfolding select_ids
list_paused store = select_ids (λ r. r.status == "paused") updated_before store

unfoldable pub list_by_user : String → Store → StoreAnswer (List String)
unfolding select_ids
list_by_user user store = select_ids (λ r. equals_text user r.user_id) created_after store

unfoldable pub list_by_session : String → Store → StoreAnswer (List String)
unfolding select_ids
list_by_session session store =
    select_ids (λ r. equals_text session r.session_id) created_after store
