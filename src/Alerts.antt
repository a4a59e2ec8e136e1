-- ===== src/Alerts.antt =====
-- The alert trigger: src/cloud_agents/workflow/triggers/alert_trigger.py. Clock readings are whole
-- numbers of seconds.
pub mod Dedup
pub mod Meant
pub mod Permitted
pub mod Starts
mod Tests
use Prim.Native.String as Text
use lightspeed_cloud_agents.Prelude.{
  ℕ, zero, suc, ◌+◌, ◌-◌, ◌*◌, ◌/◌, ◌%◌, ◌^◌, ◌≤◌, ◌<◌, String, ◌≡◌, refl, sym, ap, ◌∙◌, subst, ◌≢◌,
  ◌↔◌, ◌⊎◌, inl, inr, Bool, true, false, not, ◌&&◌, ◌||◌, Option, none, some, List, [], ◌∷◌, ◌++◌,
  map, append-nil, append_assoc, arith, eq_iff, eq_refl, ltb, leb, nat_eq, ◌==◌, if◌then◌else◌,
  ltb→lt, nat_eq→eq, Bool-cases, Option-cases, length, get_elem?, take, is_empty, any, all, keep_if,
  All, length-append, All-append, mem_text, codes, to_lower, lower, is_word, is_space, starts_with,
  contains, same_text, starts_with_self, lower-append, Dict, lookup, insert, remove, keep_values,
  lookup-insert, lookup-remove,
}
use lightspeed_cloud_agents.Json.{
  Fields, end, field, Items, cons, nil, Value, null, text, boolean, natural, negative, object,
  array, truthy, is_null, or_else, entries, has_text, text_or, option_or,
}
use lightspeed_cloud_agents.Transcript.{
  TranscriptEvent, Transcript, empty_transcript, take_text, skip, serialized, cut, cut_key,
  truncate_event, marker, shorten, truncate,
}

pub record AlertmanagerAlert : Type 0 where
  pub status : String
  pub labels : Dict String
  pub annotations : Dict String
  pub fingerprint : String

pub record AlertTriggerConfig : Type 0 where
  pub workflow_name_label : String
  pub fire_on_resolved : Bool
  pub default_workflow : Option String
  pub dedup_window_seconds : ℕ

unfoldable pub should_process_alert : AlertmanagerAlert → AlertTriggerConfig → Bool
should_process_alert alert config = not (alert.status == "resolved" && not config.fire_on_resolved)

-- `AlertDedupTracker`.
pub record Tracker : Type 0 where
  pub window_seconds : ℕ
  pub last_fired : Dict ℕ

-- `ts < now - 2 * window_seconds`, for a time stamp that is let go.
abbrev pub is_expired : ℕ → ℕ → ℕ → Bool
is_expired window now ts = ltb (ts + 2 * window) now

unfoldable pub prune : ℕ → Tracker → Tracker
prune now t = record t {
  last_fired = keep_values (λ ts. not (is_expired t.window_seconds now ts)) t.last_fired;
}

abbrev pub within : ℕ → ℕ → Option ℕ → Bool
within window now none = false
within window now (some last) = ltb now (last + window)

-- The rest of `should_fire`, behind the pruning.
abbrev pub fire : String → ℕ → Tracker → Bool × Tracker
fire fingerprint now t =
    if within t.window_seconds now (lookup fingerprint t.last_fired)
    then (false, t)
    else (true, record t { last_fired = insert fingerprint now t.last_fired })

unfoldable pub should_fire : String → ℕ → Tracker → Bool × Tracker
unfolding prune
should_fire fingerprint now t = fire fingerprint now (prune now t)

-- `_truncate`.
unfoldable pub truncate_field : String → String
truncate_field s =
    if leb (length (codes s)) 2000 then s else Text.◌++◌ (take_text 2000 s) "...[truncated]"

abbrev pub get_or : String → String → Dict String → String
get_or key default d = elim (lookup key d) [ none ↦ default | some v ↦ v ]

-- The workflow that an alert names, or the default one.
unfoldable pub workflow_of : AlertmanagerAlert → AlertTriggerConfig → Option String
workflow_of alert config =
    let name =
      text_or (lookup config.workflow_name_label alert.labels)
        (text_or config.default_workflow "") in
    if name == "" then none else some name

-- What a stored definition shows to the trigger: whether the content policy is violated, and
-- whether it has a provider.
pub record Stored : Type 0 where
  pub violates : Bool
  pub has_provider : Bool

-- The services that the trigger calls: the authorizer's answer for a workflow, the definition
-- store, and whether Temporal starts a workflow on an input.
pub record TriggerServices : Type 0 where
  pub allowed : String → Bool
  pub find : String → Option Stored
  pub starts : String → String → Bool

pub data Fate : Type 0 where
  skipped_resolved skipped_dedup no_workflow unauthorized not_found policy_violated no_provider :
      Fate
  started start_failed : String → Fate

abbrev pub after_lookup : TriggerServices → String → String → Option Stored → Fate
after_lookup services name prompt none = not_found
after_lookup services name prompt (some stored) =
    if stored.violates
    then policy_violated
    else if not stored.has_provider
    then no_provider
    else if services.starts name prompt
    then started name
    else start_failed name

abbrev pub after_mapping : TriggerServices → Option (String × String) → Fate
after_mapping services none = no_workflow
after_mapping services (some (name, prompt)) =
    if services.allowed name
    then after_lookup services name prompt (services.find name)
    else unauthorized

-- The summary: workflows started, alerts skipped, errors.
pub record Summary : Type 0 where
  pub workflows_started : ℕ
  pub alerts_skipped : ℕ
  pub errors : ℕ

abbrev pub count_fate : Fate → Summary → Summary
count_fate (started name) s = record s { workflows_started = s.workflows_started + 1 }
count_fate skipped_resolved s = record s { alerts_skipped = s.alerts_skipped + 1 }
count_fate skipped_dedup s = record s { alerts_skipped = s.alerts_skipped + 1 }
count_fate _ s = record s { errors = s.errors + 1 }

-- `dumps` is `json.dumps`.
module _ (dumps : Dict String → String) where
  unfoldable pub input_prompt : AlertmanagerAlert → String
  unfolding truncate_field
  input_prompt alert = Text.◌++◌ "Alert: " (
      Text.◌++◌ (get_or "alertname" "unknown" alert.labels) (
        Text.◌++◌ ", Severity: " (
          Text.◌++◌ (get_or "severity" "unknown" alert.labels) (
            Text.◌++◌ ", Description: " (
              Text.◌++◌
                (truncate_field
                  (get_or "description" (get_or "summary" "" alert.annotations) alert.annotations))
                (Text.◌++◌ ", Labels: " (truncate_field (dumps alert.labels))))))))

  -- `none` is the `ValueError`.
  unfoldable pub map_alert_to_workflow_input :
      AlertmanagerAlert → AlertTriggerConfig → Option (String × String)
  unfolding workflow_of input_prompt
  map_alert_to_workflow_input alert config = elim (workflow_of alert config) [
    | none ↦ none
    | some name ↦ some (name, input_prompt alert)
  ]

  -- The body of the webhook's loop, on one alert.
  unfoldable pub receive_alert :
      AlertTriggerConfig → TriggerServices → ℕ → AlertmanagerAlert → Tracker → Fate × Tracker
  unfolding should_fire map_alert_to_workflow_input
  receive_alert config services now alert t =
      if not (should_process_alert alert config)
      then (skipped_resolved, t)
      else let (fired, t') = should_fire alert.fingerprint now t in
        (
          (if fired
              then after_mapping services (map_alert_to_workflow_input alert config)
              else skipped_dedup),
          t',
        )

  -- The webhook, on its alerts with the time at which each is looked at.
  unfoldable pub receive_alertmanager :
      AlertTriggerConfig
      → TriggerServices
      → List (ℕ × AlertmanagerAlert)
      → Tracker
      → Summary
      → Summary × Tracker
  unfolding receive_alert
  receive_alertmanager config services [] t s = (s, t)
  receive_alertmanager config services ((now, alert) ∷ alerts) t s =
      let (fate, t') = receive_alert config services now alert t in
      receive_alertmanager config services alerts t' (count_fate fate s)
