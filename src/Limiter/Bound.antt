-- ===== src/Limiter/Bound.antt =====
-- How many requests of one key the limiter lets through.
use lightspeed_cloud_agents.Prelude.{
  ℕ, ◌+◌, ◌-◌, ◌*◌, ◌≤◌, String, ◌≡◌, refl, sym, ap, ◌∙◌, subst, Bool, true, false, ◌&&◌, Option,
  none, some, List, [], ◌∷◌, arith, nat_eq, ◌==◌, if◌then◌else◌, lookup,
}
use lightspeed_cloud_agents.Limiter.{BucketState, TokenBucket, allow}
use lightspeed_cloud_agents.Keys.{Distinct}
use lightspeed_cloud_agents.Limiter.Levels.{level, InTime, level-later, cost}
use lightspeed_cloud_agents.Limiter.Charges.{entry, allow-Paid}

-- Requests by their key and time, the latest first.
abbrev pub Requests : Type 0
Requests = List (String × ℕ)

unfoldable pub after : Requests → TokenBucket → TokenBucket
after [] b = b
after ((k, now) ∷ rs) b = (allow k now (after rs b)).1

-- How many requests of a key were let through.
unfoldable pub admitted : String → Requests → TokenBucket → ℕ
unfolding after
admitted key [] b = 0
admitted key ((k, now) ∷ rs) b =
    let n = admitted key rs b in if k == key && (allow k now (after rs b)).0 then n + 1 else n

abbrev pub latest : ℕ → Requests → ℕ
latest start [] = start
latest start ((k, now) ∷ rs) = now

-- The clock never goes back.
abbrev pub InOrder : ℕ → Requests → Type 0
InOrder start [] = Unit
InOrder start ((k, now) ∷ rs) = (latest start rs ≤ now) × InOrder start rs

abbrev pub new_limiter : ℕ → ℕ → ℕ → TokenBucket
new_limiter rate burst token = record {
  rate = rate;
  burst = burst;
  token = token;
  buckets = [];
  call_count = 0;
}

module _ (rate burst token start : ℕ) (key : String) where
  -- The limiter after some requests: what the key was let through for, and can still spend, is its
  -- capacity and what was refilled since the start.
  record Bounded (rs : Requests) (n : ℕ) (b : TokenBucket) : Type 0 where
    rate_is : b.rate ≡ rate
    burst_is : b.burst ≡ burst
    token_is : b.token ≡ token
    distinct : Distinct b.buckets
    in_time : InTime (burst * token) (latest start rs) (entry key b)
    since : start ≤ latest start rs
    sum :
        n * token + level rate (burst * token) (latest start rs) (entry key b)
        ≤ burst * token + (latest start rs - start) * rate

InTime-later :
    (full t now : ℕ) (o : Option BucketState) → t ≤ now → InTime full t o → InTime full now o
InTime-later full t now none late h = tt
InTime-later full t now (some s) late h = (h.0, omega (arith, h.1, late))

-- A statement on the limits of one limiter holds of another one's, when they are equal.
for_limits :
    (T : ℕ → ℕ → ℕ → Type 0) {r r' b b' t t' : ℕ} → r ≡ r' → b ≡ b' → t ≡ t' → T r b t → T r' b' t'
for_limits T {r} {r'} {b} {b'} {t} {t'} e f g h =
    subst (λ x. T r' b' x) g (subst (λ x. T r' x t) f (subst (λ x. T x b t) e h))

count_one :
    (x : Bool) (n token l rest : ℕ)
    → cost x token + l ≡ rest
    → (if x then n + 1 else n) * token + l ≡ n * token + rest
count_one true n token l rest e = omega (arith, e)
count_one false n token l rest e = omega (arith, e)

module _ (rate burst token start : ℕ) (key : String) (positive : nat_eq rate 0 ≡ false) where
  request-Bounded :
      (k : String) (now : ℕ) (rs : Requests) (n : ℕ) (b : TokenBucket)
      → latest start rs ≤ now
      → Bounded rate burst token start key rs n b
      → Bounded rate burst token start key
          ((k, now) ∷ rs)
          (if k == key && (allow k now b).0 then n + 1 else n)
          (allow k now b).1
  request-Bounded k now rs n b late g =
      let full = burst * token in
      let now_fine = InTime-later full (latest start rs) now (entry key b) late g.in_time in
      let p = allow-Paid key k now b (ap (λ r. nat_eq r 0) g.rate_is ∙ positive) g.distinct (
        for_limits (λ r u t. InTime (u * t) now (entry key b)) (sym g.rate_is) (sym g.burst_is)
          (sym g.token_is) now_fine) in
      let paid : cost (k == key && (allow k now b).0) token
            + level rate full now (entry key (allow k now b).1)
          ≡ level rate full now (entry key b) =
        for_limits
          (λ r u t.
            cost (k == key && (allow k now b).0) t
              + level r (u * t) now (entry key (allow k now b).1)
            ≡ level r (u * t) now (entry key b))
          g.rate_is g.burst_is g.token_is p.paid in
      let counted = count_one (k == key && (allow k now b).0) n token _ _ paid in
      let waited = level-later rate full (latest start rs) now (entry key b) late g.in_time in
      let gap : (now - start) * rate
          ≡ (now - latest start rs) * rate + (latest start rs - start) * rate =
        gaps (latest start rs) late g.since in
      record {
        rate_is = p.same.rate ∙ g.rate_is;
        burst_is = p.same.burst ∙ g.burst_is;
        token_is = p.same.token ∙ g.token_is;
        distinct = p.distinct;
        in_time =
            for_limits (λ r u t. InTime (u * t) now (entry key (allow k now b).1)) g.rate_is
              g.burst_is g.token_is p.in_time;
        since = omega (arith, late, g.since);
        sum = omega (arith, counted, waited, gap, g.sum);
      }
    where
      parts : (t : ℕ) → t ≤ now → start ≤ t → now - start ≡ (now - t) + (t - start)
      parts t x y = omega (arith, x, y)

      add-times : (a b r : ℕ) → (a + b) * r ≡ a * r + b * r
      add-times a b r = omega arith

      gaps :
          (t : ℕ)
          → t ≤ now
          → start ≤ t
          → (now - start) * rate ≡ (now - t) * rate + (t - start) * rate
      gaps t x y = ap (λ d. d * rate) (parts t x y) ∙ add-times (now - t) (t - start) rate

  requests-Bounded :
      (rs : Requests)
      → InOrder start rs
      → Bounded rate burst token start key rs
          (admitted key rs (new_limiter rate burst token))
          (after rs (new_limiter rate burst token))
  unfolding after admitted lookup
  requests-Bounded [] order = record {
    rate_is = refl;
    burst_is = refl;
    token_is = refl;
    distinct = tt;
    in_time = tt;
    since = omega arith;
    sum = omega arith;
  }
  requests-Bounded ((k, now) ∷ rs) order =
      request-Bounded k now rs (admitted key rs (new_limiter rate burst token))
        (after rs (new_limiter rate burst token)) order.0 (requests-Bounded rs order.1)

-- Whatever requests come, of whatever keys, on a clock that never goes back: the requests of one key
-- that a new limiter with a positive rate lets through cost at most the burst and what is refilled
-- between the start and the latest request. Dropping stale keys lets no further request through.
pub admitted-IsBounded :
    (rate burst token start : ℕ) (key : String) (rs : Requests)
    → nat_eq rate 0 ≡ false
    → InOrder start rs
    → admitted key rs (new_limiter rate burst token) * token
      ≤ burst * token + (latest start rs - start) * rate
admitted-IsBounded rate burst token start key rs positive order =
    let g = requests-Bounded rate burst token start key positive rs order in omega (arith, g.sum)
