-- ===== src/Retry.antt =====
-- Retry semantics of src/cloud_agents/workflow/core/execution.py: the failure classifier, the
-- retry loop that both runners share, and the text that a chained exception is classified by.
pub mod Classify
pub mod Attempts
pub mod Causes
mod Tests
use Prim.Native.String as Text
use lightspeed_cloud_agents.Prelude.{
  ℕ, zero, suc, ◌+◌, ◌*◌, ◌^◌, String, Bool, true, false, not, ◌&&◌, ◌||◌, Option, none, some, List,
  [], ◌∷◌, ◌++◌, leb, nat_eq, if◌then◌else◌, is_empty, any, codes, lower, is_word, is_space,
  starts_with, contains,
}

-- TRANSIENT_FAILURE_MARKERS.
abbrev pub transient_failure_markers : List String
transient_failure_markers =
    "timeout" ∷ "timed out" ∷ "connection" ∷ "rate limit" ∷ "429" ∷ "502" ∷ "503" ∷ "504"
    ∷ "unavailable" ∷ "temporarily" ∷ "spawn failed" ∷ "readiness" ∷ "heartbeat" ∷ []

-- NON_RETRYABLE_MARKERS.
abbrev pub non_retryable_markers : List String
non_retryable_markers =
    "approval" ∷ "denied" ∷ "denies" ∷ "policy" ∷ "validation" ∷ "output_schema" ∷ "unauthorized"
    ∷ "forbidden" ∷ "401" ∷ "403" ∷ "not found" ∷ "unknown tool" ∷ []

-- The words of the second test on a text that names a tool.
abbrev pub tool_failure_words : List String
tool_failure_words = "failed" ∷ "failure" ∷ "error" ∷ "timed out" ∷ []

-- `any(marker in text for marker in markers)`.
abbrev pub any_marker : List String → List ℕ → Bool
any_marker markers text = any (λ m. contains text (codes m)) markers

-- No word character at the front: `\b` behind a word character.
abbrev pub ends_word : List ℕ → Bool
ends_word [] = true
ends_word (c ∷ s) = not (is_word c)

-- The text behind a prefix of the same length.
abbrev pub behind : List ℕ → List ℕ → List ℕ
behind [] s = s
behind (p ∷ ps) [] = []
behind (p ∷ ps) (c ∷ s) = behind ps s

abbrev pub starts_word : String → List ℕ → Bool
starts_word w s = starts_with s (codes w) && ends_word (behind (codes w) s)

-- `(failed|error|timed out)\b` at the front of the text.
pub failure_word : List ℕ → Bool
failure_word s = starts_word "failed" s || starts_word "error" s || starts_word "timed out" s

-- `\S+ ` and then `failure_word`, at the front: the run of `\S` ends at the first space. The flag
-- says that a character of the run was read.
pub tool_call_failed : Bool → List ℕ → Bool
unfolding failure_word
tool_call_failed seen [] = false
tool_call_failed seen (c ∷ s) =
    let more = tool_call_failed true s in
    if is_space c then seen && nat_eq c 32 && failure_word s else more

-- `TOOL_FAILURE_PATTERN.search`; the flag says that the character before is a word character.
pub tool_failure_search : Bool → List ℕ → Bool
unfolding tool_call_failed
tool_failure_search in_word [] = false
tool_failure_search in_word (c ∷ s) =
    (not in_word
      && starts_with (c ∷ s) (codes "tool ")
      && tool_call_failed false (behind (codes "tool ") (c ∷ s)))
    || tool_failure_search (is_word c) s

-- The tests of `is_transient_failure`, on the text in lower case.
pub is_transient_lowered : List ℕ → Bool
unfolding tool_failure_search contains
is_transient_lowered lowered =
    if any_marker non_retryable_markers lowered
    then false
    else if tool_failure_search false lowered
    then false
    else if contains lowered (codes "tool") && any_marker tool_failure_words lowered
    then false
    else any_marker transient_failure_markers lowered

pub is_transient_failure : Option String → Bool
unfolding is_transient_lowered lower
is_transient_failure none = false
is_transient_failure (some error) =
    if is_empty (codes error) then false else is_transient_lowered (lower (codes error))

unfoldable pub max_attempts_for : ℕ → ℕ
max_attempts_for max_retries = max_retries + 1

-- What one awaited attempt does: it returns, raises an `Exception`, or raises something that
-- `except Exception` lets through (a cancellation).
pub data Outcome (A E : Type 0) : Type 0 where
  returned : A → Outcome A E
  raised : E → Outcome A E
  cancelled : Outcome A E

-- How the loop ends: by the outcome of an attempt, or at the assertion behind it.
pub data Final (A E : Type 0) : Type 0 where
  ends : Outcome A E → Final A E
  assertion_failed : Final A E

-- What a run did: its end, the attempts it made, and the delays it slept for.
pub record Run (A E : Type 0) : Type 0 where
  pub final : Final A E
  pub attempts : ℕ
  pub sleeps : List ℕ

-- One turn of the loop ends the run, or goes round with the exception to raise in the end.
pub data Turn (A E : Type 0) : Type 0 where
  stop : Final A E → Turn A E
  again : Option E → Turn A E

-- `attempt` gives the outcome of each call by its index; the delays are counted in the unit of
-- `backoff_seconds`; `sleeping` says that a `retry_sleep` was given.
module _ {A E : Type 0} (attempt : ℕ → Outcome A E) (succeeded : A → Bool)
    (error_of : A → Option String) (exc_text : E → String) (sleeping : Bool) (backoff : ℕ) where
  unfoldable pub turn : ℕ → ℕ → Option E → Outcome A E → Turn A E
  turn attempts index last (raised e) =
      if leb attempts (index + 1) || not (is_transient_failure (some (exc_text e)))
      then stop (ends (raised e))
      else again (some e)
  turn attempts index last (returned a) =
      if succeeded a
      then stop (ends (returned a))
      else if leb attempts (index + 1) || not (is_transient_failure (error_of a))
      then stop (ends (returned a))
      else again last
  turn attempts index last cancelled = stop (ends cancelled)

  pub raise_last : Option E → Final A E
  raise_last none = assertion_failed
  raise_last (some e) = ends (raised e)

  abbrev pub delays : ℕ → List ℕ
  delays index = if sleeping then backoff * 2 ^ index ∷ [] else []

  -- The turns that are left of `range(attempts)`, from `index` on.
  unfoldable pub retry_loop : ℕ → ℕ → ℕ → Option E → Run A E
  unfolding turn raise_last
  retry_loop attempts zero index last = record {
    final = raise_last last;
    attempts = 0;
    sleeps = [];
  }
  retry_loop attempts (suc left) index last = elim (turn attempts index last (attempt index)) [
    | stop f ↦ record { final = f; attempts = 1; sleeps = [] }
    | again last' ↦
        let rest = retry_loop attempts left (index + 1) last' in
        record {
          final = rest.final;
          attempts = suc rest.attempts;
          sleeps = delays index ++ rest.sleeps;
        }
  ]

  unfoldable pub run_with_retries : ℕ → Run A E
  unfolding retry_loop max_attempts_for
  run_with_retries max_retries =
      retry_loop (max_attempts_for max_retries) (max_attempts_for max_retries) 0 none

-- An exception with its text, its `cause` attribute and its `__cause__`; either may be missing or
-- no exception.
mutual
  pub data Raised : Type 0 where
    raised_from : String → Cause → Cause → Raised

  pub data Cause : Type 0 where
    no_cause : Cause
    other_object : Cause
    caused_by : Raised → Cause

-- `getattr(current, "cause", None) or current.__cause__`.
abbrev pub first_cause : Cause → Cause → Cause
first_cause no_cause dunder = dunder
first_cause other_object dunder = other_object
first_cause (caused_by e) dunder = caused_by e

abbrev pub add_text : String → List String → List String
add_text text parts = if is_empty (codes text) then parts else text ∷ parts

-- The loop of `activity_error_text`, over the turns left.
pub error_parts : ℕ → Cause → List String
error_parts zero current = []
error_parts (suc turns) no_cause = []
error_parts (suc turns) other_object = []
error_parts (suc turns) (caused_by (raised_from text cause dunder)) =
    add_text text (error_parts turns (first_cause cause dunder))

-- `" | ".join(parts)`.
pub join_parts : List String → String
join_parts [] = ""
join_parts (p ∷ []) = p
join_parts (p ∷ q ∷ ps) = Text.◌++◌ p (Text.◌++◌ " | " (join_parts (q ∷ ps)))

pub activity_error_text : Raised → String
unfolding error_parts join_parts
activity_error_text exc = join_parts (error_parts 5 (caused_by exc))
