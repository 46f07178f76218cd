-- ===== src/Attention.antt =====
-- packages/domain/src/attention/attention-policy.ts: the attention that a feature's state asks for.
-- Times are carried along, and are numbers.
pub mod Policy
mod Tests
use autopilot_console.Prelude.{
  ℕ, Option, some, none, Bool, true, false, List, [], ◌∷◌, if◌then◌else◌,
}
use autopilot_console.Feature.State.{FeatureState}

pub data AttentionCategory : Type 0 where
  task_review development_failed development_interrupted pr_creation_failed : AttentionCategory
  ci_failed pr_review pr_changes_requested blocked stale_github_sync : AttentionCategory

pub data AttentionAction : Type 0 where
  review_tasks retry_development retry_pr_creation open_github_checks : AttentionAction
  open_github_pr resolve_block refresh_github_status : AttentionAction

pub record AttentionInput : Type 0 where
  pub project_id : ℕ
  pub release_id : Option ℕ
  pub feature_id : ℕ
  pub state : FeatureState
  pub state_changed_at : ℕ
  pub stale_github_sync : Bool
  pub stale_since : Option ℕ

pub record AttentionItem : Type 0 where
  pub project_id : ℕ
  pub release_id : Option ℕ
  pub feature_id : ℕ
  pub reason : AttentionCategory
  pub age_basis : ℕ
  pub current_state : FeatureState
  pub category : AttentionCategory
  pub primary_action : AttentionAction

-- LIFECYCLE_ATTENTION
unfoldable pub lifecycle_attention : FeatureState → Option (AttentionCategory × AttentionAction)
lifecycle_attention FeatureState.tasks_review = some (AttentionCategory.task_review, review_tasks)
lifecycle_attention FeatureState.development_failed =
    some (AttentionCategory.development_failed, retry_development)
lifecycle_attention FeatureState.development_interrupted =
    some (AttentionCategory.development_interrupted, retry_development)
lifecycle_attention FeatureState.pr_creation_failed =
    some (AttentionCategory.pr_creation_failed, retry_pr_creation)
lifecycle_attention FeatureState.ci_failed = some (AttentionCategory.ci_failed, open_github_checks)
lifecycle_attention FeatureState.pr_review = some (AttentionCategory.pr_review, open_github_pr)
lifecycle_attention FeatureState.pr_changes_requested =
    some (AttentionCategory.pr_changes_requested, open_github_pr)
lifecycle_attention FeatureState.blocked = some (AttentionCategory.blocked, resolve_block)
lifecycle_attention _ = none

unfoldable pub derive_attention : AttentionInput → Option AttentionItem
derive_attention input = elim (lifecycle_attention input.state) [
  | some (category, action) ↦ some (record {
    project_id = input.project_id;
    release_id = input.release_id;
    feature_id = input.feature_id;
    reason = category;
    age_basis = input.state_changed_at;
    current_state = input.state;
    category = category;
    primary_action = action;
  })
  | none ↦
      if input.stale_github_sync
      then some (record {
        project_id = input.project_id;
        release_id = input.release_id;
        feature_id = input.feature_id;
        reason = AttentionCategory.stale_github_sync;
        age_basis = elim input.stale_since [ none ↦ input.state_changed_at | some since ↦ since ];
        current_state = input.state;
        category = AttentionCategory.stale_github_sync;
        primary_action = refresh_github_status;
      })
      else none
]

-- `if (item) out.push(item)`, in front of what the later rounds push.
abbrev pub push_item : Option AttentionItem → List AttentionItem → List AttentionItem
push_item none out = out
push_item (some item) out = item ∷ out

unfoldable pub derive_attention_for_features : List AttentionInput → List AttentionItem
derive_attention_for_features [] = []
derive_attention_for_features (input ∷ inputs) =
    push_item (derive_attention input) (derive_attention_for_features inputs)
