-- ===== src/Attention/Tests.antt =====
-- The theorems on attention at a failed and at a planned feature.
use autopilot_console.Prelude.{◌≡◌, ◌↔◌, refl, some, none, false, true}
use autopilot_console.Feature.State.{FeatureState, queued, pr_creating}
use autopilot_console.Feature.Transition.{human}
use autopilot_console.Feature.Machine.Table.{Allowed}
use autopilot_console.Task.Approval.{is_tasks_review}
use autopilot_console.Retry.{is_retryable_state}
use autopilot_console.Attention.{
  AttentionCategory, AttentionInput, AttentionItem, review_tasks, retry_development,
  retry_pr_creation, derive_attention, lifecycle_attention,
}
use autopilot_console.Attention.Policy.{WaitsForOwner, attention_iff, attention_actions}

abbrev stopped : AttentionInput
stopped = record {
  project_id = 1;
  release_id = some 2;
  feature_id = 11;
  state = FeatureState.development_failed;
  state_changed_at = 500;
  stale_github_sync = true;
  stale_since = some 900;
}

abbrev item : AttentionItem
item = record {
  project_id = 1;
  release_id = some 2;
  feature_id = 11;
  reason = AttentionCategory.development_failed;
  age_basis = 500;
  current_state = FeatureState.development_failed;
  category = AttentionCategory.development_failed;
  primary_action = retry_development;
}

attention_iff_example :
    (derive_attention stopped ≡ none)
    ↔ ((WaitsForOwner stopped.state → ⊥) × (stopped.stale_github_sync ≡ false))
attention_iff_example = attention_iff stopped

attention_actions_example :
    (item.current_state ≡ stopped.state)
    × (item.primary_action ≡ retry_development
        → (is_retryable_state stopped.state ≡ true) × Allowed stopped.state queued human)
    × (item.primary_action ≡ review_tasks
        → (is_tasks_review stopped.state ≡ true) × Allowed stopped.state queued human)
    × (item.primary_action ≡ retry_pr_creation → Allowed stopped.state pr_creating human)
unfolding derive_attention lifecycle_attention
attention_actions_example = attention_actions stopped item refl
