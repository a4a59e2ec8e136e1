-- ===== src/RunStates/Listed.antt =====
-- What the lists of ids hold, and in which order.
use lightspeed_cloud_agents.Prelude.{
  ℕ, suc, String, ◌≡◌, refl, ap, ◌∙◌, inl, inr, Bool, true, false, ◌&&◌, List, [], ◌∷◌, map, arith,
  ◌==◌, if◌then◌else◌, Bool-cases, keep_if,
}
use lightspeed_cloud_agents.RunStates.{
  RunState, not_connected, StoreAnswer, fails, gives, Store, put_in_order, order_by, select_ids,
  equals_text, updated_before, created_after, list_paused, list_by_user, list_by_session,
}

abbrev pub count : (RunState → Bool) → List RunState → ℕ
count p [] = 0
count p (r ∷ rows) = let rest = count p rows in if p r then suc rest else rest

-- No row stands before its predecessor.
abbrev Ordered : (RunState → RunState → Bool) → List RunState → Type 0
Ordered before [] = Unit
Ordered before (r ∷ []) = Unit
Ordered before (r ∷ q ∷ rows) = (before q r ≡ false) × Ordered before (q ∷ rows)

-- The answer of a selection: the ids of the rows that pass the test, each as often as the table has
-- it, in order.
abbrev pub Selects :
    (RunState → Bool) → (RunState → RunState → Bool) → Store → StoreAnswer (List String) → Type 0
Selects test before store answer =
    (chosen : List RunState) × (answer ≡ gives (map (λ r. r.workflow_id) chosen))
    × Ordered before chosen
    × ((p : RunState → Bool) → count p chosen ≡ count (λ r. test r && p r) store.rows)

count-keep_if :
    (test p : RunState → Bool) (rows : List RunState)
    → count p (keep_if test rows) ≡ count (λ r. test r && p r) rows
count-keep_if test p [] = refl
count-keep_if test p (r ∷ rows) = ground (arith, count-keep_if test p rows)

module _ (before : RunState → RunState → Bool) where
  count-put_in_order :
      (p : RunState → Bool) (row : RunState) (rows : List RunState)
      → count p (put_in_order before row rows) ≡ count p (row ∷ rows)
  count-put_in_order p row [] = refl
  count-put_in_order p row (r ∷ rows) = ground (arith, count-put_in_order p row rows)

  count-order_by :
      (p : RunState → Bool) (rows : List RunState) → count p (order_by before rows) ≡ count p rows
  unfolding order_by
  count-order_by p [] = refl
  count-order_by p (r ∷ rows) =
      count-put_in_order p r (order_by before rows)
      ∙ ap (λ n. if p r then suc n else n) (count-order_by p rows)

  module _ (asymmetric : (a b : RunState) → before a b ≡ true → before b a ≡ false) where
    put-Ordered :
        (row : RunState) (rows : List RunState)
        → Ordered before rows
        → Ordered before (put_in_order before row rows)
    put-Ordered row [] h = tt
    put-Ordered row (r ∷ []) h = elim (Bool-cases (before r row)) [
      | inl first ↦ rw first (asymmetric r row first, tt)
      | inr second ↦ rw second (second, tt)
    ]
    put-Ordered row (r ∷ q ∷ rows) h = elim (Bool-cases (before r row)) [
      | inl first ↦
          let rest = put-Ordered row (q ∷ rows) h.1 in
          elim (Bool-cases (before q row)) [
            | inl ahead ↦ rw (first, ahead) (h.0, rw ahead at rest)
            | inr here ↦ rw (first, here) (asymmetric r row first, rw here at rest)
          ]
      | inr second ↦ rw second (second, h)
    ]

    order_by-Ordered : (rows : List RunState) → Ordered before (order_by before rows)
    unfolding order_by
    order_by-Ordered [] = tt
    order_by-Ordered (r ∷ rows) = put-Ordered r (order_by before rows) (order_by-Ordered rows)

    gives_if :
        (up : Bool) {A : Type 0} {a : A}
        → up ≡ true
        → (if up then gives a else fails not_connected) ≡ gives a
    gives_if true h = refl
    gives_if false h = ground (arith, h)

    select_ids-Selects :
        (test : RunState → Bool) (store : Store)
        → store.connected ≡ true
        → Selects test before store (select_ids test before store)
    unfolding select_ids
    select_ids-Selects test store up = (
      order_by before (keep_if test store.rows),
      gives_if store.connected up,
      order_by-Ordered (keep_if test store.rows),
      λ p. count-order_by p (keep_if test store.rows) ∙ count-keep_if test p store.rows,
    )

-- On a connected store the three lists hold the ids of the paused runs, of the runs of a user and of
-- those of a session, each row's once: the paused ones by the time of their last change, the earliest
-- first; the others by the time of their creation, the latest first.
pub lists-Selects :
    (store : Store) (key : String)
    → store.connected ≡ true
    → Selects (λ r. r.status == "paused") updated_before store (list_paused store)
      × Selects (λ r. equals_text key r.user_id) created_after store (list_by_user key store)
      × Selects (λ r. equals_text key r.session_id) created_after store (list_by_session key store)
unfolding list_paused list_by_user list_by_session
lists-Selects store key up = (
  select_ids-Selects updated_before (λ a b h. ground (arith, h)) (λ r. r.status == "paused") store
      up,
  select_ids-Selects created_after (λ a b h. ground (arith, h)) (λ r. equals_text key r.user_id)
      store up,
  select_ids-Selects created_after (λ a b h. ground (arith, h)) (λ r. equals_text key r.session_id)
      store up,
)
