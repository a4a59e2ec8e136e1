-- ===== src/Progress/Tests.antt =====
-- The overall status at concrete steps.
use lightspeed_cloud_agents.Prelude.{◌≡◌, ◌↔◌, true, false, [], ◌∷◌, is_empty, all}
use lightspeed_cloud_agents.Progress.{
  completed, skipped, done, is_settled, derive_status, derive_status-done_iff,
}

derive_status-done_iff_example : (derive_status (completed ∷ skipped ∷ []) ≡ done) ↔ (
    (is_empty (completed ∷ skipped ∷ []) ≡ false)
    × (all is_settled (completed ∷ skipped ∷ []) ≡ true))
derive_status-done_iff_example = derive_status-done_iff (completed ∷ skipped ∷ [])
