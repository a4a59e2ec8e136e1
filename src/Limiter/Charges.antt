-- ===== src/Limiter/Charges.antt =====
-- What one request makes of the buckets.
use lightspeed_cloud_agents.Prelude.{
  ℕ, ◌+◌, ◌≤◌, String, ◌≡◌, refl, sym, ap, ◌∙◌, subst, inl, inr, Bool, true, false, not, ◌&&◌,
  Option, some, arith, eq_iff, ltb, nat_eq, ◌==◌, if◌then◌else◌, Bool-cases, lookup, insert,
  keep_values, lookup-insert,
}
use lightspeed_cloud_agents.Limiter.{
  BucketState, TokenBucket, cleanup_interval, capacity, is_stale, cleanup_stale, maybe_cleanup,
  spend, ready, grants, allow,
}
use lightspeed_cloud_agents.Keys.{
  Distinct, lookup-keep_values, insert-Distinct, keep_values-Distinct,
}
use lightspeed_cloud_agents.Limiter.Levels.{
  level, InTime, refill-level, cleanup-level, kept-InTime, cost, spend-level, level-full,
}

-- The buckets have the limits of the first, and their keys are distinct.
pub record Same (b c : TokenBucket) : Type 0 where
  pub rate : c.rate ≡ b.rate
  pub burst : c.burst ≡ b.burst
  pub token : c.token ≡ b.token

abbrev pub entry : String → TokenBucket → Option BucketState
entry key b = lookup key b.buckets

-- What a cleanup, or none, makes of a key.
pub record Cleaned (key : String) (now : ℕ) (b c : TokenBucket) : Type 0 where
  pub same : Same b c
  pub distinct : Distinct c.buckets
  pub level_kept :
      level b.rate (capacity b) now (entry key c) ≡ level b.rate (capacity b) now (entry key b)
  pub in_time : InTime (capacity b) now (entry key b) → InTime (capacity b) now (entry key c)

maybe_cleanup-Cleaned :
    (key : String) (now : ℕ) (b : TokenBucket)
    → Distinct b.buckets
    → Cleaned key now b (maybe_cleanup now b)
unfolding maybe_cleanup cleanup_stale
maybe_cleanup-Cleaned key now b d =
    cases (ltb (b.call_count + 1) cleanup_interval) (nat_eq b.rate 0)
  where
    stays : (n : ℕ) → Cleaned key now b (record b { call_count = n })
    stays n = record {
      same = record { rate = refl; burst = refl; token = refl };
      distinct = d;
      level_kept = refl;
      in_time = λ h. h;
    }

    fresh_enough : BucketState → Bool
    fresh_enough s = not (is_stale b.rate (capacity b) now s)

    cases :
        (x y : Bool)
        → Cleaned key now b (
            if x
            then record b { call_count = b.call_count + 1 }
            else if y
            then record b { call_count = 0 }
            else record b { call_count = 0; buckets = keep_values fresh_enough b.buckets })
    cases true y = stays (b.call_count + 1)
    cases false true = stays 0
    cases false false =
        let e = lookup-keep_values fresh_enough key b.buckets d in
        record {
          same = record { rate = refl; burst = refl; token = refl };
          distinct = keep_values-Distinct fresh_enough b.buckets d;
          level_kept =
              ap (level b.rate (capacity b) now) e
              ∙ cleanup-level b.rate (capacity b) now (entry key b);
          in_time = λ h.
              subst (InTime (capacity b) now) (sym e)
                (kept-InTime b.rate (capacity b) now (entry key b) h);
        }

-- The buckets behind a request of a key, before the cleanup.
abbrev charged : String → ℕ → TokenBucket → TokenBucket
charged k now b =
    let s = ready now b (entry k b) in
    record b { buckets = insert k (spend (grants b s) b.token s) b.buckets }

abbrev granted : String → ℕ → TokenBucket → Bool
granted k now b = grants b (ready now b (entry k b))

allow-charged :
    (k : String) (now : ℕ) (b : TokenBucket)
    → nat_eq b.rate 0 ≡ false
    → allow k now b ≡ (granted k now b, maybe_cleanup now (charged k now b))
unfolding allow
allow-charged k now b e = rw e refl

-- What a request makes of a key: what the key paid and what it can still spend are what it could
-- spend before.
pub record Paid (key k : String) (now : ℕ) (b : TokenBucket) (p : Bool × TokenBucket) : Type 0 where
  pub same : Same b p.1
  pub distinct : Distinct p.1.buckets
  pub in_time : InTime (capacity b) now (entry key p.1)
  pub paid :
      cost (k == key && p.0) b.token + level b.rate (capacity b) now (entry key p.1)
      ≡ level b.rate (capacity b) now (entry key b)

zero_plus : (x : ℕ) → 0 + x ≡ x
zero_plus x = omega arith

charged-level :
    (key k : String) (now : ℕ) (b : TokenBucket)
    → InTime (capacity b) now (entry key b)
    → (cost (k == key && granted k now b) b.token
          + level b.rate (capacity b) now (entry key (charged k now b))
        ≡ level b.rate (capacity b) now (entry key b))
      × InTime (capacity b) now (entry key (charged k now b))
charged-level key k now b h = elim (Bool-cases (k == key)) [
  | inl same ↦
      let e = (eq_iff k key).0 same in
      own e same (subst (λ r. InTime (capacity b) now (entry r b)) (sym e) h)
  | inr other ↦
      let at =
        lookup-insert k key (spend (granted k now b) b.token (ready now b (entry k b))) b.buckets in
      let kept : entry key (charged k now b) ≡ entry key b = at ∙ rw other refl in
      (
        rw other (zero_plus _ ∙ ap (level b.rate (capacity b) now) kept),
        subst (InTime (capacity b) now) (sym kept) h,
      )
]
  where
    own :
        k ≡ key
        → (k == key) ≡ true
        → InTime (capacity b) now (entry k b)
        → (cost (k == key && granted k now b) b.token
              + level b.rate (capacity b) now (entry key (charged k now b))
            ≡ level b.rate (capacity b) now (entry key b))
          × InTime (capacity b) now (entry key (charged k now b))
    own e same g =
        let s = ready now b (entry k b) in
        let at = lookup-insert k key (spend (granted k now b) b.token s) b.buckets in
        let put_there : entry key (charged k now b) ≡ some (spend (granted k now b) b.token s) =
          at ∙ rw same refl in
        let (full_of, on_time) = refill-level b.rate (capacity b) now (entry k b) g in
        let within : s.tokens ≤ capacity b =
          subst (λ x. x ≤ capacity b) (sym full_of)
            (level-full b.rate (capacity b) now (entry k b)) in
        let (sum, fine) = spend-level b.rate (capacity b) b.token now s within on_time in
        (
          rw same (
              ap (λ o. cost (granted k now b) b.token + level b.rate (capacity b) now o) put_there
              ∙ sum
              ∙ full_of
              ∙ ap (λ r. level b.rate (capacity b) now (entry r b)) e),
          subst (InTime (capacity b) now) (sym put_there) fine,
        )

pub allow-Paid :
    (key k : String) (now : ℕ) (b : TokenBucket)
    → nat_eq b.rate 0 ≡ false
    → Distinct b.buckets
    → InTime (capacity b) now (entry key b)
    → Paid key k now b (allow k now b)
allow-Paid key k now b e d h =
    let c = charged k now b in
    let s = ready now b (entry k b) in
    let cleaned =
      maybe_cleanup-Cleaned key now c
        (insert-Distinct k (spend (grants b s) b.token s) b.buckets d) in
    let (sum, fine) = charged-level key k now b h in
    subst (λ p. Paid key k now b p) (sym (allow-charged k now b e))
      (record {
        same = record {
          rate = cleaned.same.rate;
          burst = cleaned.same.burst;
          token = cleaned.same.token;
        };
        distinct = cleaned.distinct;
        in_time = cleaned.in_time fine;
        paid = ap (λ l. cost (k == key && granted k now b) b.token + l) cleaned.level_kept ∙ sum;
      })
