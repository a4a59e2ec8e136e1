-- ===== src/Breaker/Calls.antt =====
-- Sequences of calls of the breaker, and what one call makes of the entry of one provider.
use lightspeed_cloud_agents.Prelude.{
  ℕ, ◌+◌, String, ◌≡◌, refl, ap, ◌∙◌, subst, inl, inr, Bool, true, false, Option, none, some, List,
  [], ◌∷◌, eq_iff, ltb, ◌==◌, if◌then◌else◌, Bool-cases, lookup, lookup-insert,
}
use lightspeed_cloud_agents.Breaker.{
  ProviderState, Breaker, on_success, put, record_success, on_failure, record_failure, queried,
  on_query, is_open,
}

-- A call of the breaker, with the time it reads.
pub data Call : Type 0 where
  succeeded failed : String → ℕ → Call
  asked : String → ℕ → Call

unfoldable pub call : Call → Breaker → Breaker
call (succeeded p now) b = record_success p b
call (failed p now) b = record_failure p now b
call (asked p now) b = (is_open p now b).1

-- The latest call stands first.
unfoldable pub calls : List Call → Breaker → Breaker
unfolding call
calls [] b = b
calls (c ∷ cs) b = call c (calls cs b)

-- How often a provider failed since it last succeeded, and when it failed last.
unfoldable pub failures_since : String → List Call → ℕ
failures_since p [] = 0
failures_since p (succeeded q now ∷ cs) = let n = failures_since p cs in if q == p then 0 else n
failures_since p (failed q now ∷ cs) = let n = failures_since p cs in if q == p then n + 1 else n
failures_since p (asked q now ∷ cs) = failures_since p cs

unfoldable pub last_failure_of : String → List Call → ℕ
last_failure_of p [] = 0
last_failure_of p (failed q now ∷ cs) = let t = last_failure_of p cs in if q == p then now else t
last_failure_of p (succeeded q now ∷ cs) = last_failure_of p cs
last_failure_of p (asked q now ∷ cs) = last_failure_of p cs

abbrev pub failures_in : Option ProviderState → ℕ
failures_in none = 0
failures_in (some s) = s.failures

abbrev pub last_in : Option ProviderState → ℕ
last_in none = 0
last_in (some s) = s.last_failure

lookup-put :
    (q p : String) (o : Option ProviderState) (b : Breaker)
    → (o ≡ none → lookup q b.providers ≡ none)
    → lookup p (put q o b).providers ≡ (if q == p then o else lookup p b.providers)
lookup-put q p (some s) b h = lookup-insert q p s b.providers
lookup-put q p none b h = elim (Bool-cases (q == p)) [
  | inl same ↦ rw same (subst (λ r. lookup r b.providers ≡ none) ((eq_iff q p).0 same) (h refl))
  | inr other ↦ rw other refl
]

-- What a call makes of the entry of one provider.
abbrev pub effect : ℕ → ℕ → String → Call → Option ProviderState → Option ProviderState
effect threshold reset p (succeeded q now) o = if q == p then on_success o else o
effect threshold reset p (failed q now) o = if q == p then some (on_failure now o) else o
effect threshold reset p (asked q now) o = if q == p then (on_query threshold reset now o).1 else o

on_success-none : (o : Option ProviderState) → on_success o ≡ none → o ≡ none
on_success-none none e = refl
on_success-none (some s) e = cc

on_query-none :
    (threshold reset now : ℕ) (o : Option ProviderState)
    → (on_query threshold reset now o).1 ≡ none
    → o ≡ none
on_query-none threshold reset now none e = refl
on_query-none threshold reset now (some s) e =
    absurd (kept (ltb s.failures threshold) (ltb (s.last_failure + reset) now) e)
  where
    kept : (a b : Bool) → (queried a b s).1 ≡ none → ⊥
    kept true b e = cc
    kept false true e = cc
    kept false false e = cc

pub call-effect :
    (c : Call) (p : String) (b : Breaker)
    → lookup p (call c b).providers ≡ effect b.threshold b.reset_seconds p c (lookup p b.providers)
unfolding call record_success record_failure is_open
call-effect (succeeded q now) p b = elim (Bool-cases (q == p)) [
  | inl same ↦
      lookup-put q p (on_success (lookup q b.providers)) b (on_success-none (lookup q b.providers))
      ∙ rw same (ap (λ r. on_success (lookup r b.providers)) ((eq_iff q p).0 same))
  | inr other ↦
      lookup-put q p (on_success (lookup q b.providers)) b (on_success-none (lookup q b.providers))
      ∙ rw other refl
]
call-effect (failed q now) p b = elim (Bool-cases (q == p)) [
  | inl same ↦
      lookup-insert q p (on_failure now (lookup q b.providers)) b.providers
      ∙ rw same (ap (λ r. some (on_failure now (lookup r b.providers))) ((eq_iff q p).0 same))
  | inr other ↦
      lookup-insert q p (on_failure now (lookup q b.providers)) b.providers ∙ rw other refl
]
call-effect (asked q now) p b = elim (Bool-cases (q == p)) [
  | inl same ↦
      lookup-put q p (on_query b.threshold b.reset_seconds now (lookup q b.providers)).1 b
        (on_query-none b.threshold b.reset_seconds now (lookup q b.providers))
      ∙ rw same (
          ap (λ r. (on_query b.threshold b.reset_seconds now (lookup r b.providers)).1)
            ((eq_iff q p).0 same))
  | inr other ↦
      lookup-put q p (on_query b.threshold b.reset_seconds now (lookup q b.providers)).1 b
        (on_query-none b.threshold b.reset_seconds now (lookup q b.providers))
      ∙ rw other refl
]

put-limits :
    (q : String) (o : Option ProviderState) (b : Breaker)
    → ((put q o b).threshold ≡ b.threshold) × ((put q o b).reset_seconds ≡ b.reset_seconds)
put-limits q none b = (refl, refl)
put-limits q (some s) b = (refl, refl)

pub call-limits :
    (c : Call) (b : Breaker)
    → ((call c b).threshold ≡ b.threshold) × ((call c b).reset_seconds ≡ b.reset_seconds)
unfolding call record_success record_failure is_open
call-limits (succeeded q now) b = put-limits q (on_success (lookup q b.providers)) b
call-limits (failed q now) b = (refl, refl)
call-limits (asked q now) b =
    put-limits q (on_query b.threshold b.reset_seconds now (lookup q b.providers)).1 b
