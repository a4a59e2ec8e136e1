-- ===== src/Retry/Tests.antt =====
-- The theorems on retries at concrete inputs, and runs of the code.
use lightspeed_cloud_agents.Prelude.{
  ℕ, zero, suc, String, ◌≡◌, refl, true, false, none, some, [], ◌∷◌, ◌++◌, take, keep_if, codes,
  to_lower, lower, is_word, is_space, starts_with, contains,
}
use lightspeed_cloud_agents.Retry.{
  is_transient_lowered, is_transient_failure, Outcome, returned, raised, ends, retry_loop,
  run_with_retries, Raised, raised_from, no_cause, caused_by, error_parts, join_parts,
  activity_error_text,
}
use lightspeed_cloud_agents.Retry.Classify.{
  transient_without_pattern, is_transient_lowered-without_pattern, never_retried,
}
use lightspeed_cloud_agents.Retry.Attempts.{Tried, run_with_retries-Tried}
use lightspeed_cloud_agents.Retry.Causes.{texts, not_empty, activity_error_text-take}

transient_502 : is_transient_failure (some "HTTP 502 from sandbox") ≡ true
unfolding is_transient_failure to_lower starts_with contains is_word is_space
transient_502 = refl

tool_refused : is_transient_failure (some "Tool kubectl failed: connection refused") ≡ false
unfolding is_transient_failure to_lower starts_with contains is_word is_space
tool_refused = refl

is_transient_lowered-without_pattern_example :
    is_transient_lowered (codes "tool kubectl timed out")
    ≡ transient_without_pattern (codes "tool kubectl timed out")
is_transient_lowered-without_pattern_example =
    is_transient_lowered-without_pattern (codes "tool kubectl timed out")

never_retried_example :
    is_transient_lowered (lower (codes "by " ++ (codes "Policy" ++ codes ": connection 502")))
    ≡ false
unfolding lower to_lower
never_retried_example =
    never_retried "policy" (codes "by ") (codes "Policy") (codes ": connection 502") refl refl

-- Two timeouts and then a result.
abbrev third_time : ℕ → Outcome ℕ String
third_time zero = raised "timeout"
third_time (suc zero) = raised "connection reset"
third_time (suc (suc i)) = returned i

run_third_time :
    run_with_retries third_time (λ _. true) (λ _. none) (λ e. e) true 1 5
    ≡ record { final = ends (returned 0); attempts = 3; sleeps = 1 ∷ 2 ∷ [] }
unfolding run_with_retries retry_loop is_transient_failure to_lower starts_with contains is_word
    is_space
run_third_time = refl

run_with_retries-Tried_example :
    (n : ℕ) × Tried third_time
      (λ _. true)
      (λ _. none)
      (λ e. e)
      true
      1
      0
      6
      (run_with_retries third_time (λ _. true) (λ _. none) (λ e. e) true 1 5)
      n
run_with_retries-Tried_example =
    run_with_retries-Tried third_time (λ _. true) (λ _. none) (λ e. e) true 1 5

abbrev wrapped : Raised
wrapped =
    raised_from "Activity task failed" (caused_by (raised_from "502" no_cause no_cause)) no_cause

activity_error_text-take_example :
    activity_error_text wrapped
    ≡ join_parts (keep_if not_empty (take 5 (texts (caused_by wrapped))))
activity_error_text-take_example = activity_error_text-take wrapped

wrapped_text : activity_error_text wrapped ≡ "Activity task failed | 502"
unfolding activity_error_text error_parts
wrapped_text = refl
