-- ===== src/Limiter.antt =====
-- The token bucket of src/cloud_agents/runtime/rate_limiter.py, in exact arithmetic: clock readings
-- are whole numbers, and a token is a number of equal parts, so that a rate in parts for each unit
-- of time is whole too.
pub mod Levels
pub mod Charges
pub mod Bound
mod Tests
use lightspeed_cloud_agents.Prelude.{
  ℕ, zero, suc, ◌+◌, ◌-◌, ◌*◌, ◌/◌, ◌%◌, ◌^◌, ◌≤◌, ◌<◌, String, ◌≡◌, refl, sym, ap, ◌∙◌, subst, ◌≢◌,
  ◌↔◌, ◌⊎◌, inl, inr, Bool, true, false, not, ◌&&◌, ◌||◌, Option, none, some, List, [], ◌∷◌, ◌++◌,
  map, append-nil, append_assoc, arith, eq_iff, eq_refl, ltb, leb, nat_eq, ◌==◌, if◌then◌else◌,
  ltb→lt, nat_eq→eq, Bool-cases, Option-cases, length, get_elem?, take, is_empty, any, all, keep_if,
  All, length-append, All-append, mem_text, codes, to_lower, lower, is_word, is_space, starts_with,
  contains, same_text, starts_with_self, lower-append, Dict, lookup, insert, remove, keep_values,
  lookup-insert, lookup-remove,
}

pub record BucketState : Type 0 where
  pub tokens : ℕ
  pub last_refill : ℕ

-- `burst` in tokens, `token` the parts of one; `_cleanup_interval` is 100.
pub record TokenBucket : Type 0 where
  pub rate : ℕ
  pub burst : ℕ
  pub token : ℕ
  pub buckets : Dict BucketState
  pub call_count : ℕ

abbrev pub cleanup_interval : ℕ
cleanup_interval = 100

abbrev pub capacity : TokenBucket → ℕ
capacity b = b.burst * b.token

abbrev pub min_of : ℕ → ℕ → ℕ
min_of x y = if leb x y then x else y

-- The bucket of a key before its refill.
abbrev pub state_or_new : ℕ → ℕ → Option BucketState → BucketState
state_or_new full now none = record { tokens = full; last_refill = now }
state_or_new full now (some s) = s

abbrev pub refilled_if : Bool → ℕ → ℕ → ℕ → BucketState → BucketState
refilled_if true rate full now s = record {
  tokens = min_of full (s.tokens + (now - s.last_refill) * rate);
  last_refill = now;
}
refilled_if false rate full now s = s

abbrev pub refill : ℕ → ℕ → ℕ → BucketState → BucketState
refill rate full now s = refilled_if (ltb s.last_refill now) rate full now s

-- Whether `now - last_refill > 2.0 * burst / rate`, multiplied by the rate.
abbrev pub is_stale : ℕ → ℕ → ℕ → BucketState → Bool
is_stale rate full now s = ltb (2 * full) ((now - s.last_refill) * rate)

unfoldable pub cleanup_stale : ℕ → TokenBucket → TokenBucket
cleanup_stale now b = if nat_eq b.rate 0 then b else record b {
  buckets = keep_values (λ s. not (is_stale b.rate (capacity b) now s)) b.buckets;
}

unfoldable pub maybe_cleanup : ℕ → TokenBucket → TokenBucket
unfolding cleanup_stale
maybe_cleanup now b =
    if ltb (b.call_count + 1) cleanup_interval
    then record b { call_count = b.call_count + 1 }
    else cleanup_stale now (record b { call_count = 0 })

abbrev pub spend : Bool → ℕ → BucketState → BucketState
spend true token s = record s { tokens = s.tokens - token }
spend false token s = s

-- The bucket of the key behind its refill, the answer, and the bucket behind the answer.
abbrev pub ready : ℕ → TokenBucket → Option BucketState → BucketState
ready now b o = refill b.rate (capacity b) now (state_or_new (capacity b) now o)

abbrev pub grants : TokenBucket → BucketState → Bool
grants b s = leb b.token s.tokens

unfoldable pub allow : String → ℕ → TokenBucket → Bool × TokenBucket
unfolding maybe_cleanup
allow key now b =
    if nat_eq b.rate 0
    then (true, b)
    else let s = ready now b (lookup key b.buckets) in
      (
        grants b s,
        maybe_cleanup now
            (record b { buckets = insert key (spend (grants b s) b.token s) b.buckets }),
      )
