-- ===== src/RunStates/Refines.antt =====
-- The store against a map from ids to runs.
use lightspeed_cloud_agents.Prelude.{
  ℕ, zero, suc, String, ◌≡◌, refl, sym, ap, ◌∙◌, subst, inl, inr, Bool, true, false, Option, none,
  some, List, [], ◌∷◌, ◌++◌, arith, eq_iff, ◌==◌, if◌then◌else◌, Bool-cases, mem_text,
}
use lightspeed_cloud_agents.RunStates.{
  RunState, not_connected, StoreAnswer, fails, gives, Store, find, update_where, delete_where,
  check_updated, update, new_row, inserted, create, with_step, with_event, with_status,
  with_context, update_step, append_event, set_paused, resume, terminal_statuses, mark_terminal,
  update_workflow_context, delete,
}
use lightspeed_cloud_agents.RunStates.Specified.{
  Runs, set_run, change_run, add_run, Operation, creating, stepping, appending, pausing, resuming,
  ending, noting, deleting, apply, specified, Holds, Agrees,
}

abbrev is_zero : ℕ → Bool
is_zero zero = true
is_zero (suc n) = false

abbrev is_none : Option RunState → Bool
is_none none = true
is_none (some run) = false

abbrev changed : (RunState → RunState) → Option RunState → Option RunState
changed change none = none
changed change (some run) = some (change run)

find-update_where :
    (id k : String) (change : RunState → RunState) (rows : List RunState)
    → ((r : RunState) → (change r).workflow_id ≡ r.workflow_id)
    → find k (update_where id change rows).1
      ≡ (if id == k then changed change (find k rows) else find k rows)
unfolding find update_where
find-update_where id k change [] keeps = ground arith
find-update_where id k change (row ∷ rows) keeps =
    let rest = find-update_where id k change rows keeps in
    let as_before : ((change row).workflow_id == k) ≡ (row.workflow_id == k) =
      ap (λ x. x == k) (keeps row) in
    elim (Bool-cases (row.workflow_id == id)) [
      | inl same ↦ elim (Bool-cases (row.workflow_id == k)) [
        | inl found ↦
            let both : (id == k) ≡ true =
              subst (λ x. (x == k) ≡ true) ((eq_iff row.workflow_id id).0 same) found in
            rw (same, as_before ∙ found, found, both) refl
        | inr other ↦ rw (same, as_before ∙ other, other) rest
      ]
      | inr differs ↦ elim (Bool-cases (row.workflow_id == k)) [
        | inl found ↦
            let apart : (id == k) ≡ false = ground (
              arith,
              eq_iff row.workflow_id id,
              eq_iff row.workflow_id k,
              eq_iff id k,
              found,
              differs,
            ) in
            rw (differs, found, apart) refl
        | inr other ↦ rw (differs, other) rest
      ]
    ]

-- Whether a row was updated.
count-update_where :
    (id : String) (change : RunState → RunState) (rows : List RunState)
    → is_zero (update_where id change rows).0 ≡ is_none (find id rows)
unfolding find update_where
count-update_where id change [] = refl
count-update_where id change (row ∷ rows) = elim (Bool-cases (row.workflow_id == id)) [
  | inl same ↦ rw same refl
  | inr differs ↦ rw differs (count-update_where id change rows)
]

find_append :
    (k : String) (rows : List RunState) (row : RunState)
    → find k (rows ++ row ∷ []) ≡ elim (find k rows) [
      | none ↦ (if row.workflow_id == k then some row else none)
      | some r ↦ some r
    ]
unfolding find
find_append k [] row = refl
find_append k (r ∷ rows) row = elim (Bool-cases (r.workflow_id == k)) [
  | inl found ↦ rw found refl
  | inr other ↦ rw other (find_append k rows row)
]

find-delete_where :
    (id k : String) (rows : List RunState)
    → find k (delete_where id rows) ≡ (if id == k then none else find k rows)
unfolding find delete_where
find-delete_where id k [] = ground arith
find-delete_where id k (row ∷ rows) = ground (
  arith,
  eq_iff row.workflow_id id,
  eq_iff row.workflow_id k,
  eq_iff id k,
  find-delete_where id k rows,
)

connected-Agrees :
    (up : Bool) (answer : StoreAnswer Store) (expected : StoreAnswer Runs)
    → up ≡ true
    → Agrees answer expected
    → Agrees (if up then answer else fails not_connected) expected
connected-Agrees true answer expected h agrees = agrees
connected-Agrees false answer expected h agrees = ground (arith, h)

-- The change of a row against the change of its run, from the row that is found.
checked-Agrees :
    (id : String) (change : RunState → RunState) (store : Store) (runs : Runs)
    (done : ℕ × List RunState) (found : Option RunState)
    → store.connected ≡ true
    → is_zero done.0 ≡ is_none found
    → ((k : String) → find k done.1 ≡ (if id == k then changed change (runs k) else runs k))
    → runs id ≡ found
    → Agrees (check_updated store done) (change_run id change runs found)
checked-Agrees id change store runs (zero, rows) none up count rest at = refl
checked-Agrees id change store runs (zero, rows) (some run) up count rest at = ground (arith, count)
checked-Agrees id change store runs (suc n, rows) none up count rest at = ground (arith, count)
checked-Agrees id change store runs (suc n, rows) (some run) up count rest at =
    (up, λ k. rest k ∙ set_for k)
  where
    set_for :
        (k : String)
        → (if id == k then changed change (runs k) else runs k)
          ≡ set_run id (some (change run)) runs k
    set_for k = elim (Bool-cases (id == k)) [
      | inl same ↦ rw (same, ap runs (sym ((eq_iff id k).0 same)) ∙ at) refl
      | inr other ↦ rw other refl
    ]

update-Agrees :
    (id : String) (change : RunState → RunState) (store : Store) (runs : Runs)
    → ((r : RunState) → (change r).workflow_id ≡ r.workflow_id)
    → Holds runs store
    → Agrees (update id change store) (change_run id change runs (runs id))
unfolding update
update-Agrees id change store runs keeps h =
    connected-Agrees store.connected (check_updated store (update_where id change store.rows))
      (change_run id change runs (runs id)) h.0
      (checked-Agrees id change store runs (update_where id change store.rows) (runs id) h.0
        (count-update_where id change store.rows ∙ ap is_none (h.1 id))
        (λ k.
          find-update_where id k change store.rows keeps
          ∙ ap (λ r. if id == k then changed change r else r) (h.1 k))
        refl)

or_new :
    (same : Bool) (row : RunState) (here : Option RunState)
    → (same ≡ true → here ≡ none)
    → elim here [ none ↦ (if same then some row else none) | some r ↦ some r ]
      ≡ (if same then some row else here)
or_new same row none h = refl
or_new true row (some r) h = ground (arith, h refl)
or_new false row (some r) h = refl

inserted-Agrees :
    (store : Store) (row : RunState) (runs : Runs) (found : Option RunState)
    → Holds runs store
    → runs row.workflow_id ≡ found
    → Agrees (inserted store row found) (add_run row runs found)
inserted-Agrees store row runs none h at = (
  h.0,
  λ k.
      find_append k store.rows row
      ∙ or_new (row.workflow_id == k) row (find k store.rows)
          (λ same. h.1 k ∙ ap runs (sym ((eq_iff row.workflow_id k).0 same)) ∙ at)
      ∙ ap (λ r. if row.workflow_id == k then some row else r) (h.1 k),
)
inserted-Agrees store row runs (some old) h at = refl

-- Every operation of a connected store does what it does on the map of the runs: it fails where
-- the map's operation fails, with the same error, and else leaves the store holding the new map.
pub apply-specified :
    (operation : Operation) (now : ℕ) (store : Store) (runs : Runs)
    → Holds runs store
    → Agrees (apply operation now store) (specified operation now runs)
unfolding apply specified create update_step append_event set_paused resume mark_terminal
    update_workflow_context delete
apply-specified (creating run) now store runs h =
    let row = new_row run now in
    connected-Agrees store.connected (inserted store row (find run.workflow_id store.rows))
      (add_run row runs (runs run.workflow_id)) h.0
      (subst (λ found. Agrees (inserted store row found) (add_run row runs (runs run.workflow_id)))
        (sym (h.1 run.workflow_id)) (inserted-Agrees store row runs (runs run.workflow_id) h refl))
apply-specified (stepping id data_) now store runs h =
    update-Agrees id (with_step data_ now) store runs (λ r. refl) h
apply-specified (appending id event) now store runs h =
    update-Agrees id (with_event event now) store runs (λ r. refl) h
apply-specified (pausing id step) now store runs h =
    update-Agrees id (with_status "paused" (some step) now) store runs (λ r. refl) h
apply-specified (resuming id) now store runs h =
    update-Agrees id (with_status "running" none now) store runs (λ r. refl) h
apply-specified (ending id status) now store runs h =
    elim (Bool-cases (mem_text status terminal_statuses)) [
      | inl fine ↦ rw fine (update-Agrees id (with_status status none now) store runs (λ r. refl) h)
      | inr bad ↦ rw bad refl
    ]
apply-specified (noting id context) now store runs h =
    update-Agrees id (with_context context now) store runs (λ r. refl) h
apply-specified (deleting id) now store runs h =
    connected-Agrees store.connected (gives (record store { rows = delete_where id store.rows }))
      (gives (set_run id none runs)) h.0
      (h.0, λ k. find-delete_where id k store.rows ∙ ap (λ r. if id == k then none else r) (h.1 k))
