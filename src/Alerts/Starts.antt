-- ===== src/Alerts/Starts.antt =====
-- What the webhook does to an alert.
use lightspeed_cloud_agents.Keys.{Distinct, lookup-keep_values, keep_values-Distinct}
use lightspeed_cloud_agents.Alerts.Dedup.{fire-Distinct, fire-window}
use lightspeed_cloud_agents.Prelude.{
  ℕ, ◌+◌, ◌<◌, String, ◌≡◌, refl, ◌∙◌, inl, inr, true, false, not, some, arith, eq_refl, Bool-cases,
  Dict, lookup, lookup-insert,
}
use lightspeed_cloud_agents.Alerts.{
  AlertmanagerAlert, AlertTriggerConfig, should_process_alert, Tracker, is_expired, prune, within,
  fire, should_fire, TriggerServices, skipped_dedup, receive_alert,
}

-- What `fire` leaves behind when it says yes.
fire-recorded :
    (q : String) (now : ℕ) (t : Tracker)
    → (fire q now t).0 ≡ true
    → lookup q (fire q now t).1.last_fired ≡ some now
fire-recorded q now t h = elim (Bool-cases (within t.window_seconds now (lookup q t.last_fired))) [
  | inl held ↦ let seen = rw held at h in ground (arith, seen)
  | inr free ↦ rw (free, lookup-insert q q now t.last_fired, eq_refl q) refl
]

prune-keeps :
    (q : String) (now later : ℕ) (t : Tracker)
    → Distinct t.last_fired
    → later < now + t.window_seconds
    → lookup q t.last_fired ≡ some now
    → lookup q (prune later t).last_fired ≡ some now
unfolding prune
prune-keeps q now later t distinct soon h =
    lookup-keep_values (λ ts. not (is_expired t.window_seconds later ts)) q t.last_fired distinct
    ∙ rw h (ground (arith, soon))

fire-held :
    (q : String) (now later : ℕ) (t : Tracker)
    → later < now + t.window_seconds
    → lookup q t.last_fired ≡ some now
    → (fire q later t).0 ≡ false
fire-held q now later t soon h = rw h (ground (arith, soon))

should_fire_again :
    (q : String) (now later : ℕ) (t : Tracker)
    → Distinct t.last_fired
    → (should_fire q now t).0 ≡ true
    → later < now + t.window_seconds
    → (should_fire q later (should_fire q now t).1).0 ≡ false
unfolding should_fire prune
should_fire_again q now later t distinct h soon =
    let old = prune now t in
    let t1 = (fire q now old).1 in
    let same : t1.window_seconds ≡ t.window_seconds = fire-window q now old in
    let soon1 : later < now + t1.window_seconds = rw same soon in
    let kept =
      keep_values-Distinct (λ ts. not (is_expired t.window_seconds now ts)) t.last_fired distinct in
    fire-held q now later (prune later t1) soon1
      (prune-keeps q now later t1 (fire-Distinct q now old kept) soon1 (fire-recorded q now old h))

module _ (dumps : Dict String → String) where
  -- The tracker keeps a fingerprint for the window after it fired, also when nothing came of it:
  -- an alert that was let through is skipped when it comes again within the window, even if its
  -- workflow could not be found, was not allowed, or was not started.
  pub receive_alert_again :
      (config : AlertTriggerConfig) (services later_services : TriggerServices) (now later : ℕ)
      (alert : AlertmanagerAlert) (t : Tracker)
      → Distinct t.last_fired
      → should_process_alert alert config ≡ true
      → (should_fire alert.fingerprint now t).0 ≡ true
      → later < now + t.window_seconds
      → (receive_alert dumps config later_services later alert
          (receive_alert dumps config services now alert t).1).0
        ≡ skipped_dedup
  unfolding receive_alert
  receive_alert_again config services later_services now later alert t distinct process fires soon =
      let again = should_fire_again alert.fingerprint now later t distinct fires soon in
      rw (process, again) refl
