-- ===== src/Local/Stored.antt =====
-- What a segment stores of its results.
use lightspeed_cloud_agents.Json.{Fields}
use lightspeed_cloud_agents.Local.Touched.{run_node-lookup, run_node-Distinct, completed_kept}
use lightspeed_cloud_agents.Local.Persisted.{
  is_some, stored_of, unless, mem-keys_of, Full, Kept, recorded-Full, keys_after-exact,
}
use lightspeed_cloud_agents.Local.Loop.{clash, loop-cases, loop_last}
use lightspeed_cloud_agents.Keys.{Distinct}
use lightspeed_cloud_agents.Prelude.{
  ℕ, String, ◌≡◌, refl, sym, ap, ◌∙◌, subst, ◌⊎◌, inl, inr, true, false, not, Option, none, some,
  List, [], ◌∷◌, eq_iff, ◌==◌, Bool-cases, All, mem_text, Dict, lookup,
}
use lightspeed_cloud_agents.RunStates.{StepData, RunState}
use lightspeed_cloud_agents.Local.{
  GraphState, Node, has_status, NodeEnd, leaves, StepServices, run_node,
}
use lightspeed_cloud_agents.Local.Segments.{keys_of, recorded, keys_after, loop, execute}

-- A step to come: it has no result, or is completed.
abbrev IsSettled : GraphState → Node → Type 0
IsSettled g n =
    (lookup n.output_key g.step_results ≡ none)
    ⊎ (has_status "completed" (lookup n.output_key g.step_results) ≡ true)

abbrev pub DistinctKeys : List Node → Type 0
DistinctKeys [] = Unit
DistinctKeys (n ∷ ns) = All (λ m. (n.output_key == m.output_key) ≡ false) ns × DistinctKeys ns

same_when_some :
    (k : String) (o : Option StepData) → stored_of k o ≡ unless (not (is_some o)) (stored_of k o)
same_when_some k none = refl
same_when_some k (some data_) = refl

-- The next turn: of the results only the node's may differ.
next_turn :
    (keys : List String) (g g' : GraphState) (row : RunState)
    → ((k : String) → mem_text k keys ≡ is_some (lookup k g.step_results))
    → Full g row
    → Distinct g'.step_results
    → ((k : String)
        → (lookup k g'.step_results ≡ lookup k g.step_results) ⊎ (lookup k g.step_results ≡ none))
    → Kept keys g' row
next_turn keys g g' row exact full distinct change = record {
  distinct = distinct;
  present = λ k m. elim (change k) [
    | inl same ↦ ap is_some same ∙ sym (exact k) ∙ m
    | inr new ↦ absurd (clash (sym m ∙ exact k ∙ ap is_some new))
  ];
  stored = λ k. elim (change k) [
    | inl same ↦
        full k
        ∙ same_when_some k (lookup k g.step_results)
        ∙ ap (λ b. unless (not b) (stored_of k (lookup k g.step_results))) (sym (exact k))
        ∙ ap (λ o. unless (not (mem_text k keys)) (stored_of k o)) (sym same)
    | inr new ↦
        full k
        ∙ ap (stored_of k) new
        ∙ sym (
            ap (λ b. unless (not b) (stored_of k (lookup k g'.step_results)))
              (exact k ∙ ap is_some new))
  ];
}

abbrev results_of : GraphState → NodeEnd → Dict StepData
results_of g (leaves g') = g'.step_results
results_of g _ = g.step_results

module _ (services : StepServices) (policy : Option Fields) (now : ℕ) where
  node-change :
      (n : Node) (g g' : GraphState)
      → IsSettled g n
      → run_node services policy n g ≡ leaves g'
      → (k : String)
      → (lookup k g'.step_results ≡ lookup k g.step_results) ⊎ (lookup k g.step_results ≡ none)
  node-change n g g' (inr done) h k =
      inl (ap (λ e. lookup k (results_of g e)) (sym h ∙ completed_kept services policy n g done))
  node-change n g g' (inl fresh) h k = elim (Bool-cases (n.output_key == k)) [
    | inl same ↦
        inr (subst (λ x. lookup x g.step_results ≡ none) ((eq_iff n.output_key k).0 same) fresh)
    | inr other ↦ inl (run_node-lookup services policy n g g' h k other)
  ]

  others_stay :
      (n : Node) (ns : List Node) (g g' : GraphState)
      → run_node services policy n g ≡ leaves g'
      → All (λ m. (n.output_key == m.output_key) ≡ false) ns
      → All (IsSettled g) ns
      → All (IsSettled g') ns
  others_stay n [] g g' h away settled = tt
  others_stay n (m ∷ ns) g g' h away settled =
      let same = run_node-lookup services policy n g g' h m.output_key away.0 in
      (
        elim settled.0 [
          | inl fresh ↦ inl (same ∙ fresh)
          | inr done ↦ inr (ap (has_status "completed") same ∙ done)
        ],
        others_stay n ns g g' h away.1 settled.1,
      )

  loop-Full :
      (ns : List Node) (keys : List String) (g : GraphState) (row : RunState)
      → Kept keys g row
      → DistinctKeys ns
      → All (IsSettled g) ns
      → Full
          (loop services policy now ns keys g row).graph
          (loop services policy now ns keys g row).row
  loop-Full [] keys g row kept distinct settled =
      loop_last services policy now (λ s. Full s.graph s.row) keys g row
        (λ e r unfinished steps k. ap (lookup k) steps ∙ recorded-Full now [] keys g row kept k)
        (λ r steps fine free k. ap (lookup k) steps ∙ recorded-Full now [] keys g row kept k)
  loop-Full (n ∷ ns) keys g row kept distinct settled =
      let full = recorded-Full now (n ∷ ns) keys g row kept in
      loop-cases services policy now (λ s. Full s.graph s.row) n ns keys g row
        (λ e r unfinished steps k. ap (lookup k) steps ∙ full k)
        (λ g' h fine free.
          loop-Full ns (keys_after keys g) g' (recorded now (n ∷ ns) keys g row)
            (next_turn (keys_after keys g) g g' (recorded now (n ∷ ns) keys g row)
              (keys_after-exact keys g row kept) full
              (run_node-Distinct services policy n g g' h kept.distinct)
              (node-change n g g' settled.0 h))
            distinct.1 (others_stay n ns g g' h distinct.0 settled.1))

  Full-Kept :
      (g : GraphState) (row : RunState)
      → Distinct g.step_results
      → Full g row
      → Kept (keys_of g.step_results) g row
  Full-Kept g row distinct full = record {
    distinct = distinct;
    present = λ k m. sym (mem-keys_of k g.step_results) ∙ m;
    stored = λ k.
        full k
        ∙ same_when_some k (lookup k g.step_results)
        ∙ ap (λ b. unless (not b) (stored_of k (lookup k g.step_results)))
            (sym (mem-keys_of k g.step_results));
  }

  -- A run over steps with distinct keys, of which each has no result yet or is completed, from a
  -- state that the row has in full, ends with every result in the row and with no others there,
  -- however it ends: what a pause, a failure, an exception or a cancellation leaves in the row is
  -- the state that was reached.
  pub execute-Full :
      (ns : List Node) (g : GraphState) (row : RunState)
      → Distinct g.step_results
      → Full g row
      → DistinctKeys ns
      → All (IsSettled g) ns
      → Full (execute services policy now ns g row).graph (execute services policy now ns g row).row
  unfolding execute
  execute-Full ns g row distinct full keys settled =
      loop-Full ns (keys_of g.step_results) g row (Full-Kept g row distinct full) keys settled
