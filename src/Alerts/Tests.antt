-- ===== src/Alerts/Tests.antt =====
-- Alerts on a concrete configuration.
use lightspeed_cloud_agents.Prelude.{
  String, ◌≡◌, ◌↔◌, refl, true, false, not, none, some, [], ◌∷◌, arith, Dict, lookup, insert,
  keep_values,
}
use lightspeed_cloud_agents.Alerts.{
  Tracker, started, AlertmanagerAlert, AlertTriggerConfig, should_process_alert, prune, within,
  should_fire, truncate_field, workflow_of, TriggerServices, skipped_dedup, input_prompt,
  map_alert_to_workflow_input, receive_alert, receive_alertmanager,
}
use lightspeed_cloud_agents.Alerts.Dedup.{Questions, new_tracker, asked, last_fire, should_fire_iff}
use lightspeed_cloud_agents.Alerts.Permitted.{MayStart, receive_alert-started_iff}
use lightspeed_cloud_agents.Alerts.Starts.{receive_alert_again}

abbrev three_questions : Questions
three_questions = ("a", 20) ∷ ("b", 12) ∷ ("a", 3) ∷ []

should_fire_iff_example :
    (should_fire "a" 25 (asked 10 three_questions)).0
    ≡ not (within 10 25 (last_fire 10 "a" three_questions))
should_fire_iff_example =
    should_fire_iff 10 three_questions "a" 25
      (omega arith, (omega arith, (omega arith, (omega arith, tt))))

held_back : (should_fire "a" 25 (asked 10 three_questions)).0 ≡ false
unfolding should_fire asked prune lookup insert keep_values
held_back = refl

abbrev disk_full : AlertmanagerAlert
disk_full = record {
  status = "firing";
  labels = ("alertname", "DiskFull") ∷ ("workflow", "clean") ∷ [];
  annotations = ("summary", "disk is full") ∷ [];
  fingerprint = "f1";
}

abbrev by_label : AlertTriggerConfig
by_label = record {
  workflow_name_label = "workflow";
  fire_on_resolved = false;
  default_workflow = none;
  dedup_window_seconds = 300;
}

abbrev open_house : TriggerServices
open_house = record {
  allowed = λ name. true;
  find = λ name. some (record { violates = false; has_provider = true });
  starts = λ name prompt. true;
}

-- The alert fired before.
abbrev disk_seen : Tracker
disk_seen = record { window_seconds = 300; last_fired = ("f1", 5) ∷ [] }

abbrev broken_house : TriggerServices
broken_house = record open_house { starts = λ name prompt. false }

abbrev plain : Dict String → String
plain labels = "{}"

receive_alert-started_iff_example :
    ((receive_alert plain by_label open_house 305 disk_full disk_seen).0 ≡ started "clean")
    ↔ MayStart plain by_label open_house 305 disk_full disk_seen "clean"
unfolding lookup
receive_alert-started_iff_example =
    receive_alert-started_iff plain by_label open_house 305 disk_full disk_seen "clean" (refl, tt)

receive_alert_again_example :
    (receive_alert plain by_label open_house 100 disk_full
      (receive_alert plain by_label broken_house 5 disk_full (new_tracker 300)).1).0
    ≡ skipped_dedup
unfolding receive_alert should_fire prune lookup insert keep_values should_process_alert
receive_alert_again_example =
    receive_alert_again plain by_label broken_house open_house 5 100 disk_full (new_tracker 300) tt
      refl refl (omega arith)

prompt_of_disk_full :
    map_alert_to_workflow_input plain disk_full by_label
    ≡ some ("clean", "Alert: DiskFull, Severity: unknown, Description: disk is full, Labels: {}")
unfolding map_alert_to_workflow_input input_prompt workflow_of truncate_field lookup
prompt_of_disk_full = refl

one_of_two :
    (receive_alertmanager plain by_label open_house
      ((5, disk_full) ∷ (9, disk_full) ∷ [])
      (new_tracker 300)
      (record { workflows_started = 0; alerts_skipped = 0; errors = 0 })).0
    ≡ record { workflows_started = 1; alerts_skipped = 1; errors = 0 }
unfolding receive_alertmanager receive_alert should_fire prune lookup insert keep_values
    should_process_alert map_alert_to_workflow_input workflow_of
one_of_two = refl
