-- ===== src/Breaker.antt =====
-- The circuit breaker of src/cloud_agents/runtime/circuit_breaker.py. Times are readings of the
-- monotonic clock, counted in whole units.
pub mod Calls
pub mod Laws
mod Tests
use lightspeed_cloud_agents.Prelude.{
  ℕ, ◌+◌, String, Bool, true, false, Option, none, some, ltb, Dict, lookup, insert,
}

pub record ProviderState : Type 0 where
  pub failures : ℕ
  pub last_failure : ℕ

pub record Breaker : Type 0 where
  pub threshold : ℕ
  pub reset_seconds : ℕ
  pub providers : Dict ProviderState

-- What each method does to the entry of its provider.
abbrev pub on_success : Option ProviderState → Option ProviderState
on_success none = none
on_success (some p) = some (record p { failures = 0 })

abbrev pub put : String → Option ProviderState → Breaker → Breaker
put provider none b = b
put provider (some p) b = record b { providers = insert provider p b.providers }

unfoldable pub record_success : String → Breaker → Breaker
record_success provider b = put provider (on_success (lookup provider b.providers)) b

-- The entry behind a failure at a time; a missing entry is a fresh one.
abbrev pub on_failure : ℕ → Option ProviderState → ProviderState
on_failure now none = record { failures = 1; last_failure = now }
on_failure now (some p) = record { failures = p.failures + 1; last_failure = now }

unfoldable pub record_failure : String → ℕ → Breaker → Breaker
record_failure provider now b = record b {
  providers = insert provider (on_failure now (lookup provider b.providers)) b.providers;
}

-- The answer for an entry below the threshold or not, whose time is up or not, and the entry behind
-- the question.
abbrev pub queried : Bool → Bool → ProviderState → Bool × Option ProviderState
queried true expired p = (false, some p)
queried false true p = (false, some (record p { failures = 0 }))
queried false false p = (true, some p)

abbrev pub on_query : ℕ → ℕ → ℕ → Option ProviderState → Bool × Option ProviderState
on_query threshold reset_seconds now none = (false, none)
on_query threshold reset_seconds now (some p) =
    queried (ltb p.failures threshold) (ltb (p.last_failure + reset_seconds) now) p

unfoldable pub is_open : String → ℕ → Breaker → Bool × Breaker
is_open provider now b =
    let (answer, entry) = on_query b.threshold b.reset_seconds now (lookup provider b.providers) in
    (answer, put provider entry b)
