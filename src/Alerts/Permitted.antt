-- ===== src/Alerts/Permitted.antt =====
-- When the webhook starts a workflow for an alert.
use lightspeed_cloud_agents.Keys.{Distinct, lookup-keep_values, kept_if}
use lightspeed_cloud_agents.Prelude.{
  ℕ, ◌+◌, ◌≤◌, String, ◌≡◌, refl, sym, ap, ◌∙◌, subst, ◌⊎◌, inl, inr, ◌↔◌, Bool, true, false, not,
  Option, none, some, arith, ◌==◌, if◌then◌else◌, Bool-cases, Dict, lookup,
}
use lightspeed_cloud_agents.Alerts.Meant.{IsBlank, meant_iff}
use lightspeed_cloud_agents.Alerts.{
  AlertmanagerAlert, AlertTriggerConfig, should_process_alert, Tracker, is_expired, prune, within,
  should_fire, Stored, TriggerServices, Fate, policy_violated, no_provider, started, start_failed,
  after_lookup, after_mapping, workflow_of, input_prompt, map_alert_to_workflow_input,
  receive_alert,
}

-- A definition that may run, on a prompt that Temporal takes.
abbrev IsReady : TriggerServices → String → String → Stored → Type 0
IsReady services name prompt stored =
    (stored.violates ≡ false) × (stored.has_provider ≡ true) × (services.starts name prompt ≡ true)

abbrev is_started : Fate → Bool
is_started (started name) = true
is_started _ = false

checks_passed :
    (name : String) (violates provided starts : Bool)
    → is_started (
        if violates
        then policy_violated
        else if not provided
        then no_provider
        else if starts
        then started name
        else start_failed name)
      ≡ true
    → (violates ≡ false) × (provided ≡ true) × (starts ≡ true)
checks_passed name true provided starts h = ground (arith, h)
checks_passed name false false starts h = ground (arith, h)
checks_passed name false true false h = ground (arith, h)
checks_passed name false true true h = (refl, refl, refl)

after_lookup-IsReady :
    (services : TriggerServices) (name prompt : String) (found : Option Stored)
    → is_started (after_lookup services name prompt found) ≡ true
    → (stored : Stored) × (found ≡ some stored) × IsReady services name prompt stored
after_lookup-IsReady services name prompt none h = ground (arith, h)
after_lookup-IsReady services name prompt (some stored) h = (
  stored,
  refl,
  checks_passed name stored.violates stored.has_provider (services.starts name prompt) h,
)

-- The checks behind a workflow that was started.
abbrev HasTarget : TriggerServices → Option (String × String) → Type 0
HasTarget services target =
    (name : String) × (prompt : String) × (stored : Stored) × (target ≡ some (name, prompt))
    × (services.allowed name ≡ true)
    × (services.find name ≡ some stored)
    × IsReady services name prompt stored

after_mapping-HasTarget :
    (services : TriggerServices) (target : Option (String × String))
    → is_started (after_mapping services target) ≡ true
    → HasTarget services target
after_mapping-HasTarget services none h = ground (arith, h)
after_mapping-HasTarget services (some (name, prompt)) h =
    elim (Bool-cases (services.allowed name)) [
      | inl allowed ↦
          let seen = rw allowed at h in
          let (stored, found, ready) =
            after_lookup-IsReady services name prompt (services.find name) seen in
          (name, prompt, stored, refl, allowed, found, ready)
      | inr denied ↦ ground (arith, h, denied)
    ]

-- The alert is not a resolved one, unless those count.
abbrev pub IsFiring : AlertTriggerConfig → AlertmanagerAlert → Type 0
IsFiring config alert = ((alert.status == "resolved") ≡ false) ⊎ (config.fire_on_resolved ≡ true)

-- If the fingerprint fired before, a window has passed since.
abbrev pub IsRested : ℕ → String → Tracker → Type 0
IsRested now fingerprint t =
    (ts : ℕ) → lookup fingerprint t.last_fired ≡ some ts → ts + t.window_seconds ≤ now

-- The workflow that the alert's label names, or else the default one.
abbrev pub IsMeant : AlertTriggerConfig → AlertmanagerAlert → String → Type 0
IsMeant config alert name =
    ((name == "") ≡ false)
    × ((lookup config.workflow_name_label alert.labels ≡ some name)
        ⊎ (IsBlank (lookup config.workflow_name_label alert.labels)
            × (config.default_workflow ≡ some name)))

-- What it takes to start a workflow for an alert.
pub record MayStart (dumps : Dict String → String) (config : AlertTriggerConfig)
    (services : TriggerServices) (now : ℕ) (alert : AlertmanagerAlert) (t : Tracker) (name : String)
    : Type 0 where
  pub firing : IsFiring config alert
  pub rested : IsRested now alert.fingerprint t
  pub meant : IsMeant config alert name
  pub allowed : services.allowed name ≡ true
  pub stored : Stored
  pub found : services.find name ≡ some stored
  pub harmless : stored.violates ≡ false
  pub provided : stored.has_provider ≡ true
  pub taken : services.starts name (input_prompt dumps alert) ≡ true

should_process_alert-IsFiring :
    (config : AlertTriggerConfig) (alert : AlertmanagerAlert)
    → (should_process_alert alert config ≡ true) ↔ IsFiring config alert
unfolding should_process_alert
should_process_alert-IsFiring config alert = (
  λ h. elim (Bool-cases (alert.status == "resolved")) [
    | inl r ↦ inr (ground (arith, h, r))
    | inr r ↦ inl r
  ],
  λ h. elim h [ inl r ↦ ground (arith, r) | inr r ↦ ground (arith, r) ],
)

abbrev RestedAt : ℕ → ℕ → Option ℕ → Type 0
RestedAt now window o = (ts : ℕ) → o ≡ some ts → ts + window ≤ now

value_of : ℕ → Option ℕ → ℕ
value_of d none = d
value_of d (some n) = n

rested_iff :
    (now window : ℕ) (o : Option ℕ)
    → (within window now (kept_if (λ ts. not (is_expired window now ts)) o) ≡ false)
      ↔ RestedAt now window o
unfolding value_of
rested_iff now window none = (λ h ts e. ground (arith, e), λ h. refl)
rested_iff now window (some last) = (
  λ h ts e. subst (λ n. n + window ≤ now) (ap (value_of 0) e) (ground (arith, h)),
  λ h. let late = h last refl in ground (arith, late),
)

should_fire-IsRested :
    (q : String) (now : ℕ) (t : Tracker)
    → Distinct t.last_fired
    → ((should_fire q now t).0 ≡ true) ↔ IsRested now q t
unfolding should_fire prune
should_fire-IsRested q now t distinct =
    let kept = λ (ts : ℕ). not (is_expired t.window_seconds now ts) in
    let seen = ap (within t.window_seconds now) (lookup-keep_values kept q t.last_fired distinct) in
    let by = rested_iff now t.window_seconds (lookup q t.last_fired) in
    (λ h. by.0 (sym seen ∙ ground (arith, h)), λ h. let free = seen ∙ by.1 h in rw free refl)

module _ (dumps : Dict String → String) where
  receive_alert-checks :
      (config : AlertTriggerConfig) (services : TriggerServices) (now : ℕ)
      (alert : AlertmanagerAlert) (t : Tracker)
      → is_started (receive_alert dumps config services now alert t).0 ≡ true
      → (should_process_alert alert config ≡ true)
        × ((should_fire alert.fingerprint now t).0 ≡ true)
        × HasTarget services (map_alert_to_workflow_input dumps alert config)
  unfolding receive_alert
  receive_alert-checks config services now alert t h =
      elim (Bool-cases (should_process_alert alert config)) [
        | inl yes_ ↦ elim (Bool-cases (should_fire alert.fingerprint now t).0) [
          | inl fires ↦
              let seen = rw (yes_, fires) at h in
              (
                yes_,
                fires,
                after_mapping-HasTarget services (map_alert_to_workflow_input dumps alert config)
                    seen,
              )
          | inr held ↦ let seen = rw (yes_, held) at h in ground (arith, seen)
        ]
        | inr no_ ↦ let seen = rw no_ at h in ground (arith, seen)
      ]

  mapped_iff :
      (config : AlertTriggerConfig) (alert : AlertmanagerAlert) (name prompt : String)
      → (map_alert_to_workflow_input dumps alert config ≡ some (name, prompt))
        ↔ (IsMeant config alert name × (prompt ≡ input_prompt dumps alert))
  unfolding map_alert_to_workflow_input workflow_of
  mapped_iff config alert name prompt =
      let by =
        meant_iff (lookup config.workflow_name_label alert.labels) config.default_workflow name in
      (
        λ h. let (chosen, same) = pair_of (workflow_of alert config) h in (by.0 chosen, same),
        λ (meant, same). back prompt same (workflow_of alert config) (by.1 meant),
      )
    where
      first : Option (String × String) → String × String
      first none = ("", "")
      first (some p) = p

      back :
          (p : String)
          → p ≡ input_prompt dumps alert
          → (o : Option String) → o ≡ some name
          → (let target : Option (String × String) = elim o [
            | none ↦ none
            | some n ↦ some (n, input_prompt dumps alert)
          ] in
              target ≡ some (name, p))
      back p same none e = ground (arith, e)
      back p same (some n) e = cc

      pair_of :
          (o : Option String)
          → (let target : Option (String × String) = elim o [
            | none ↦ none
            | some n ↦ some (n, input_prompt dumps alert)
          ] in
              target ≡ some (name, prompt))
          → (o ≡ some name) × (prompt ≡ input_prompt dumps alert)
      pair_of none h = ground (arith, h)
      pair_of (some n) h = (ap (λ o. some (first o).0) h, sym (ap (λ o. (first o).1) h))

  abbrev name_of_fate : Fate → String
  name_of_fate (started name) = name
  name_of_fate _ = ""

  may_start :
      (config : AlertTriggerConfig) (services : TriggerServices) (now : ℕ)
      (alert : AlertmanagerAlert) (t : Tracker) (name : String)
      → Distinct t.last_fired
      → MayStart dumps config services now alert t name
      → (receive_alert dumps config services now alert t).0 ≡ started name
  unfolding receive_alert
  may_start config services now alert t name distinct m =
      let process = (should_process_alert-IsFiring config alert).1 m.firing in
      let fires = (should_fire-IsRested alert.fingerprint now t distinct).1 m.rested in
      let target = (mapped_iff config alert name (input_prompt dumps alert)).1 (m.meant, refl) in
      rw (process, fires, target, m.allowed, m.found, m.harmless, m.provided, m.taken) refl

  behind_start :
      (config : AlertTriggerConfig) (services : TriggerServices) (now : ℕ)
      (alert : AlertmanagerAlert) (t : Tracker)
      → Distinct t.last_fired
      → is_started (receive_alert dumps config services now alert t).0 ≡ true
      → (n : String) × MayStart dumps config services now alert t n
  behind_start config services now alert t distinct h =
      let (process, fires, target) = receive_alert-checks config services now alert t h in
      let (n, prompt, stored, mapped, allowed, found, ready) = target in
      let (meant, same) = (mapped_iff config alert n prompt).0 mapped in
      (
        n,
        record {
          firing = (should_process_alert-IsFiring config alert).0 process;
          rested = (should_fire-IsRested alert.fingerprint now t distinct).0 fires;
          meant = meant;
          allowed = allowed;
          stored = stored;
          found = found;
          harmless = ready.0;
          provided = ready.1;
          taken = subst (λ p. services.starts n p ≡ true) same ready.2;
        },
      )

  -- With a tracker that has each fingerprint once, an alert starts the workflow of a name exactly
  -- when: it is not a resolved alert, unless those count; a window has passed since its fingerprint
  -- fired, if it did; the name is the filled one of the alert's label, or where that is missing or
  -- empty the default one; the caller may trigger this workflow; and it is stored, keeps the content
  -- policy, has a provider, and is taken by Temporal with the alert's prompt.
  pub receive_alert-started_iff :
      (config : AlertTriggerConfig) (services : TriggerServices) (now : ℕ)
      (alert : AlertmanagerAlert) (t : Tracker) (name : String)
      → Distinct t.last_fired
      → ((receive_alert dumps config services now alert t).0 ≡ started name)
        ↔ MayStart dumps config services now alert t name
  receive_alert-started_iff config services now alert t name distinct = (
    λ h. tied h (behind_start config services now alert t distinct (ap is_started h)),
    may_start config services now alert t name distinct,
  )
    where
      tied :
          (receive_alert dumps config services now alert t).0 ≡ started name
          → ((n : String) × MayStart dumps config services now alert t n)
          → MayStart dumps config services now alert t name
      tied h (n, m) =
          subst (MayStart dumps config services now alert t)
            (ap name_of_fate (sym (may_start config services now alert t n distinct m) ∙ h)) m
