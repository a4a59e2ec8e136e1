-- ===== src/Retry/Attempts.antt =====
-- What `run_with_retries` does.
use lightspeed_cloud_agents.Prelude.{
  ℕ, zero, suc, ◌+◌, ◌≤◌, ◌<◌, String, ◌≡◌, refl, ap, ◌⊎◌, inl, inr, Bool, true, false, not, ◌&&◌,
  Option, none, some, List, [], ◌++◌, arith, Bool-cases,
}
use native.Mathlib.Nat.{add-zero}
use native.Mathlib.Numerals.{add-one}
use lightspeed_cloud_agents.Retry.{
  is_transient_failure, max_attempts_for, Outcome, returned, raised, cancelled, ends, Run, stop,
  again, turn, delays, retry_loop, run_with_retries,
}

-- What holds at `index` and at the n numbers behind it holds at n + 1 numbers from `index` on.
shift_true :
    (p : ℕ → Bool) (index n : ℕ)
    → p index ≡ true
    → ((i : ℕ) → i < n → p (index + 1 + i) ≡ true)
    → (i : ℕ) → i < suc n
    → p (index + i) ≡ true
shift_true p index n h k zero lt = rw (add-zero index) h
shift_true p index n h k (suc i) lt =
    let e : index + suc i ≡ index + 1 + i = omega arith in rw e (k i (omega arith))

module _ {A E : Type 0} (attempt : ℕ → Outcome A E) (succeeded : A → Bool)
    (error_of : A → Option String) (exc_text : E → String) (sleeping : Bool) (backoff : ℕ) where
  -- An attempt whose outcome the loop may try again.
  abbrev pub retryable : Outcome A E → Bool
  retryable (returned a) = not (succeeded a) && is_transient_failure (error_of a)
  retryable (raised e) = is_transient_failure (some (exc_text e))
  retryable cancelled = false

  -- The delays before the attempts `index + 1` to `index + n`, each twice the one before.
  abbrev pub backoffs : ℕ → ℕ → List ℕ
  backoffs index zero = []
  backoffs index (suc n) =
      delays attempt succeeded error_of exc_text sleeping backoff index ++ backoffs (index + 1) n

  -- What a run from `index` with `left` turns promises, `n` being the number of retries.
  pub record Tried (index left : ℕ) (r : Run A E) (n : ℕ) : Type 0 where
    pub attempts : r.attempts ≡ suc n
    pub bound : n < left
    pub retried : (i : ℕ) → i < n → retryable (attempt (index + i)) ≡ true
    pub final : r.final ≡ ends (attempt (index + n))
    pub exhausted : (suc n ≡ left) ⊎ (retryable (attempt (index + n)) ≡ false)
    pub sleeps : r.sleeps ≡ backoffs index n

  turn-stop :
      (attempts index : ℕ) (last : Option E) (o : Outcome A E)
      → (retryable o ≡ false) ⊎ (attempts ≤ index + 1)
      → turn attempt succeeded error_of exc_text sleeping backoff attempts index last o
        ≡ stop (ends o)
  unfolding turn
  turn-stop attempts index last (returned a) h = ground arith
  turn-stop attempts index last (raised e) h = ground arith
  turn-stop attempts index last cancelled h = refl

  turn-again :
      (attempts index : ℕ) (last : Option E) (o : Outcome A E)
      → retryable o ≡ true
      → index + 1 < attempts
      → (last' : Option E) × (turn attempt succeeded error_of exc_text sleeping backoff attempts
            index last o
          ≡ again last')
  unfolding turn
  turn-again attempts index last (returned a) h k = (last, ground arith)
  turn-again attempts index last (raised e) h k = (some e, ground arith)
  turn-again attempts index last cancelled h k = cc

  module _ (attempts : ℕ) where
    abbrev loop : ℕ → ℕ → Option E → Run A E
    loop = retry_loop attempt succeeded error_of exc_text sleeping backoff attempts

    loop-stop :
        (left index : ℕ) (last : Option E)
        → (retryable (attempt index) ≡ false) ⊎ (attempts ≤ index + 1)
        → loop (suc left) index last
          ≡ record { final = ends (attempt index); attempts = 1; sleeps = [] }
    unfolding retry_loop
    loop-stop left index last h = rw (turn-stop attempts index last (attempt index) h, retry_loop)

    stopped-Tried :
        (left index : ℕ) (last : Option E)
        → (retryable (attempt index) ≡ false) ⊎ (attempts ≤ index + 1)
        → (0 ≡ left) ⊎ (retryable (attempt index) ≡ false)
        → Tried index (suc left) (loop (suc left) index last) 0
    stopped-Tried left index last h k = rw (loop-stop left index last h) (record {
      attempts = refl;
      bound = omega arith;
      retried = λ i lt. absurd (omega arith);
      final = rw (add-zero index);
      exhausted = rw (add-zero index) (ground arith);
      sleeps = refl;
    })

    again-Tried :
        (left index n : ℕ) (last last' : Option E)
        → retryable (attempt index) ≡ true
        → turn attempt succeeded error_of exc_text sleeping backoff attempts index last
            (attempt index)
          ≡ again last'
        → Tried (index + 1) left (loop left (index + 1) last') n
        → Tried index (suc left) (loop (suc left) index last) (suc n)
    unfolding retry_loop
    again-Tried left index n last last' more e t =
        rw (e, retry_loop)
          (record {
            attempts = ap suc t.attempts;
            bound = omega (arith, t.bound);
            retried = shift_true (λ i. retryable (attempt i)) index n more t.retried;
            final = rw shift t.final;
            exhausted = rw shift (ground (arith, t.exhausted));
            sleeps =
                ap (λ ds. delays attempt succeeded error_of exc_text sleeping backoff index ++ ds)
                  t.sleeps;
          })
      where
        shift : index + suc n ≡ (index + 1) + n
        shift = omega arith

    loop-Tried :
        (left index : ℕ) (last : Option E)
        → index + suc left ≡ attempts
        → (n : ℕ) × Tried index (suc left) (loop (suc left) index last) n
    loop-Tried zero index last e = (0, stopped-Tried zero index last (inr (omega arith)) (inl refl))
    loop-Tried (suc left) index last e = elim (Bool-cases (retryable (attempt index))) [
      | inr no_more ↦ (0, stopped-Tried (suc left) index last (inl no_more) (inr no_more))
      | inl more ↦
          let (last', e') = turn-again attempts index last (attempt index) more (omega arith) in
          let (n, t) = loop-Tried left (index + 1) last' (omega arith) in
          (suc n, again-Tried (suc left) index n last last' more e' t)
    ]

  -- For every sequence of outcomes and every `max_retries` the run makes n + 1 attempts with
  -- n ≤ max_retries: each of the first n could be retried (it raised, or returned an unsuccessful
  -- result, with a transient text), the last one gives the run's end, which is its own result or
  -- exception and never the failed assertion; it was the last because the attempts were used up or
  -- because it could not be retried; and the delays are the backoff doubled n times over.
  pub run_with_retries-Tried :
      (max_retries : ℕ)
      → (n : ℕ) × Tried 0
          (suc max_retries)
          (run_with_retries attempt succeeded error_of exc_text sleeping backoff max_retries)
          n
  unfolding run_with_retries max_attempts_for
  run_with_retries-Tried max_retries =
      rw (add-one max_retries) (loop-Tried (suc max_retries) max_retries 0 none (omega arith))
