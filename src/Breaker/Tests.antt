-- ===== src/Breaker/Tests.antt =====
-- The breaker at concrete times.
use lightspeed_cloud_agents.Prelude.{◌+◌, ◌≤◌, ◌≡◌, refl, true, List, [], ◌∷◌, lookup, insert}
use lightspeed_cloud_agents.Breaker.{record_success, record_failure, is_open}
use lightspeed_cloud_agents.Breaker.Calls.{
  Call, succeeded, failed, calls, failures_since, last_failure_of,
}
use lightspeed_cloud_agents.Breaker.Laws.{fresh, quiet, is_open_iff}

-- Two failures of one provider, with another one's success between them.
abbrev two_failures : List Call
two_failures = failed "openai" 7 ∷ succeeded "gemini" 5 ∷ failed "openai" 3 ∷ []

opened : (is_open "openai" 9 (calls two_failures (fresh 2 60))).0 ≡ true
unfolding is_open calls lookup insert record_failure record_success
opened = refl

is_open_iff_example :
    ((is_open "openai" 9 (calls two_failures (fresh 2 60))).0 ≡ true
      → (2 ≤ failures_since "openai" two_failures)
        × (9 ≤ last_failure_of "openai" two_failures + 60))
    × (quiet "openai" two_failures ≡ true
        → 1 ≤ 2
        → 2 ≤ failures_since "openai" two_failures
        → 9 ≤ last_failure_of "openai" two_failures + 60
        → (is_open "openai" 9 (calls two_failures (fresh 2 60))).0 ≡ true)
is_open_iff_example = is_open_iff 2 60 9 "openai" two_failures
