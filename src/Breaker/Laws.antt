-- ===== src/Breaker/Laws.antt =====
-- What the breaker promises over any sequence of calls.
use lightspeed_cloud_agents.Prelude.{
  ℕ, ◌+◌, ◌≤◌, String, ◌≡◌, refl, sym, ◌∙◌, subst, Bool, true, false, not, ◌&&◌, Option, none, some,
  List, [], ◌∷◌, arith, ltb, ◌==◌, if◌then◌else◌, lookup,
}
use lightspeed_cloud_agents.Breaker.{
  ProviderState, Breaker, on_success, on_failure, queried, on_query, is_open,
}
use lightspeed_cloud_agents.Breaker.Calls.{
  Call, succeeded, failed, asked, calls, failures_since, last_failure_of, failures_in, last_in,
  effect, call-effect, call-limits,
}

abbrev pub fresh : ℕ → ℕ → Breaker
fresh threshold reset = record { threshold = threshold; reset_seconds = reset; providers = [] }

-- Whether no call asked about a provider.
pub quiet : String → List Call → Bool
quiet p [] = true
quiet p (asked q now ∷ cs) = not (q == p) && quiet p cs
quiet p (succeeded q now ∷ cs) = quiet p cs
quiet p (failed q now ∷ cs) = quiet p cs

-- The entry of a provider against its failures so far, whether nobody asked, and its last failure.
abbrev Tracks : ℕ → Bool → ℕ → Option ProviderState → Type 0
Tracks n calm t o = (failures_in o ≤ n) × (calm ≡ true → failures_in o ≡ n) × (last_in o ≡ t)

module _ (n t : ℕ) (calm : Bool) where
  success-Tracks :
      (b : Bool) (o : Option ProviderState)
      → Tracks n calm t o
      → Tracks (if b then 0 else n) calm t (if b then on_success o else o)
  success-Tracks true none h = (omega arith, λ k. refl, h.2)
  success-Tracks true (some s) h = (omega arith, λ k. refl, h.2)
  success-Tracks false o h = h

  failure-Tracks :
      (now : ℕ) (b : Bool) (o : Option ProviderState)
      → Tracks n calm t o
      → Tracks
          (if b then n + 1 else n)
          calm
          (if b then now else t)
          (if b then some (on_failure now o) else o)
  failure-Tracks now true none h =
      (omega (arith, h.0), λ k. let e = h.1 k in omega (arith, e), refl)
  failure-Tracks now true (some s) h =
      (omega (arith, h.0), λ k. let e = h.1 k in omega (arith, e), refl)
  failure-Tracks now false o h = h

  query-Tracks :
      (threshold reset now : ℕ) (b : Bool) (o : Option ProviderState)
      → Tracks n calm t o
      → Tracks n (not b && calm) t (if b then (on_query threshold reset now o).1 else o)
  query-Tracks threshold reset now false o h = h
  query-Tracks threshold reset now true none h = (h.0, λ k. absurd (untrue k), h.2)
    where
      untrue : false ≡ true → ⊥
      untrue k = cc
  query-Tracks threshold reset now true (some s) h =
      kept (ltb s.failures threshold) (ltb (s.last_failure + reset) now)
    where
      untrue : false ≡ true → ⊥
      untrue k = cc

      kept : (x y : Bool) → Tracks n false t (queried x y s).1
      kept true y = (h.0, λ k. absurd (untrue k), h.2)
      kept false true = (omega arith, λ k. absurd (untrue k), h.2)
      kept false false = (h.0, λ k. absurd (untrue k), h.2)

effect-Tracks :
    (threshold reset : ℕ) (p : String) (c : Call) (cs : List Call) (o : Option ProviderState)
    → Tracks (failures_since p cs) (quiet p cs) (last_failure_of p cs) o
    → Tracks
        (failures_since p (c ∷ cs))
        (quiet p (c ∷ cs))
        (last_failure_of p (c ∷ cs))
        (effect threshold reset p c o)
unfolding failures_since last_failure_of quiet
effect-Tracks threshold reset p (succeeded q now) cs o h =
    success-Tracks (failures_since p cs) (last_failure_of p cs) (quiet p cs) (q == p) o h
effect-Tracks threshold reset p (failed q now) cs o h =
    failure-Tracks (failures_since p cs) (last_failure_of p cs) (quiet p cs) now (q == p) o h
effect-Tracks threshold reset p (asked q now) cs o h =
    query-Tracks (failures_since p cs) (last_failure_of p cs) (quiet p cs) threshold reset now
      (q == p) o h

calls-Tracks :
    (b : Breaker) (p : String) (cs : List Call)
    → b.providers ≡ []
    → Tracks
        (failures_since p cs)
        (quiet p cs)
        (last_failure_of p cs)
        (lookup p (calls cs b).providers)
unfolding calls failures_since last_failure_of quiet lookup
calls-Tracks b p [] e =
    subst (λ d. Tracks 0 true 0 (lookup p d)) (sym e) (omega arith, λ k. refl, refl)
calls-Tracks b p (c ∷ cs) e =
    subst
      (λ o. Tracks (failures_since p (c ∷ cs)) (quiet p (c ∷ cs)) (last_failure_of p (c ∷ cs)) o)
      (sym (call-effect c p (calls cs b)))
      (effect-Tracks _ _ p c cs (lookup p (calls cs b).providers) (calls-Tracks b p cs e))

calls-limits :
    (cs : List Call) (b : Breaker)
    → ((calls cs b).threshold ≡ b.threshold) × ((calls cs b).reset_seconds ≡ b.reset_seconds)
unfolding calls
calls-limits [] b = (refl, refl)
calls-limits (c ∷ cs) b =
    let (t, r) = call-limits c (calls cs b) in let (t', r') = calls-limits cs b in (t ∙ t', r ∙ r')

-- The answer to a question about an entry that tracks its calls.
answer-Sound :
    (threshold reset now n t : ℕ) (calm : Bool) (o : Option ProviderState)
    → Tracks n calm t o
    → (on_query threshold reset now o).0 ≡ true
    → (threshold ≤ n) × (now ≤ t + reset)
answer-Sound threshold reset now n t calm none h e = cc
answer-Sound threshold reset now n t calm (some s) h e =
    split (ltb s.failures threshold) (ltb (s.last_failure + reset) now) refl refl e
  where
    split :
        (x y : Bool)
        → ltb s.failures threshold ≡ x
        → ltb (s.last_failure + reset) now ≡ y
        → (queried x y s).0 ≡ true
        → (threshold ≤ n) × (now ≤ t + reset)
    split true y a b e = cc
    split false true a b e = cc
    split false false a b e =
        let last = h.2 in let most = h.0 in (ground (arith, most), ground (arith, last))

answer-Complete :
    (threshold reset now n t : ℕ) (o : Option ProviderState)
    → Tracks n true t o
    → 1 ≤ threshold
    → threshold ≤ n
    → now ≤ t + reset
    → (on_query threshold reset now o).0 ≡ true
answer-Complete threshold reset now n t none h low high late =
    let e = h.1 refl in absurd (omega (arith, e))
answer-Complete threshold reset now n t (some s) h low high late =
    let e = h.1 refl in
    let last = h.2 in
    let reached : ltb s.failures threshold ≡ false = ground (arith, e) in
    let in_time : ltb (s.last_failure + reset) now ≡ false = ground (arith, last) in
    rw (reached, in_time) refl

-- After any calls of a new breaker, the circuit of a provider is open only with the threshold of
-- failures of that provider since its last success, and only until the reset time after its last
-- failure is up. When nobody asked before and the threshold is positive, it is then open indeed.
-- Calls for other providers make no difference.
pub is_open_iff :
    (threshold reset now : ℕ) (p : String) (cs : List Call)
    → ((is_open p now (calls cs (fresh threshold reset))).0 ≡ true
        → (threshold ≤ failures_since p cs) × (now ≤ last_failure_of p cs + reset))
      × (quiet p cs ≡ true
          → 1 ≤ threshold
          → threshold ≤ failures_since p cs
          → now ≤ last_failure_of p cs + reset
          → (is_open p now (calls cs (fresh threshold reset))).0 ≡ true)
unfolding is_open
is_open_iff threshold reset now p cs =
    let b = calls cs (fresh threshold reset) in
    let (t, r) = calls-limits cs (fresh threshold reset) in
    let tracks = calls-Tracks (fresh threshold reset) p cs refl in
    let limits : ((on_query b.threshold b.reset_seconds now (lookup p b.providers)).0)
        ≡ ((on_query threshold reset now (lookup p b.providers)).0) =
      λ i. (on_query (t i) (r i) now (lookup p b.providers)).0 in
    (
      λ e.
          answer-Sound threshold reset now _ _ (quiet p cs) (lookup p b.providers) tracks
            (sym limits ∙ e),
      λ calm low high late.
          limits
          ∙ answer-Complete threshold reset now _ _ (lookup p b.providers)
              (subst
                (λ c. Tracks (failures_since p cs) c (last_failure_of p cs) (lookup p b.providers))
                calm tracks)
              low high late,
    )
