-- ===== src/Attention/Policy.antt =====
-- What asks for attention, and that the action it offers is one that the services accept.
use autopilot_console.Prelude.{
  ◌≡◌, refl, ◌∙◌, ap, some, none, true, false, List, [], ◌∷◌, ◌⊎◌, inl, inr, ◌↔◌, arith, ℕ,
  Option-cases,
}
use autopilot_console.Feature.State.{FeatureState, queued, pr_creating}
use autopilot_console.Feature.Transition.{human}
use autopilot_console.Feature.Machine.Table.{Allowed, IsStopped}
use autopilot_console.Task.Approval.{is_tasks_review}
use autopilot_console.Retry.{is_retryable_state}
use autopilot_console.Attention.{
  AttentionCategory, AttentionAction, review_tasks, retry_development, retry_pr_creation,
  refresh_github_status, open_github_checks, open_github_pr, resolve_block, AttentionInput,
  AttentionItem, lifecycle_attention, derive_attention,
}

-- The states that wait for a person: something failed or was interrupted, or a review is due.
abbrev pub WaitsForOwner : FeatureState → Type 0
WaitsForOwner s =
    (s ≡ FeatureState.tasks_review)
    ⊎ (s ≡ FeatureState.development_failed)
    ⊎ (s ≡ FeatureState.development_interrupted)
    ⊎ (s ≡ FeatureState.pr_creation_failed)
    ⊎ (s ≡ FeatureState.ci_failed)
    ⊎ (s ≡ FeatureState.pr_review)
    ⊎ (s ≡ FeatureState.pr_changes_requested)
    ⊎ (s ≡ FeatureState.blocked)

waits-some :
    (s : FeatureState)
    → WaitsForOwner s
    → (c : AttentionCategory × AttentionAction) × (lifecycle_attention s ≡ some c)
unfolding lifecycle_attention
waits-some FeatureState.tasks_review w = (_, refl)
waits-some FeatureState.development_failed w = (_, refl)
waits-some FeatureState.development_interrupted w = (_, refl)
waits-some FeatureState.pr_creation_failed w = (_, refl)
waits-some FeatureState.ci_failed w = (_, refl)
waits-some FeatureState.pr_review w = (_, refl)
waits-some FeatureState.pr_changes_requested w = (_, refl)
waits-some FeatureState.blocked w = (_, refl)
waits-some _ w = ground arith

some-waits :
    (s : FeatureState) (c : AttentionCategory × AttentionAction)
    → lifecycle_attention s ≡ some c
    → WaitsForOwner s
unfolding lifecycle_attention
some-waits s c h = ground arith

-- A feature is left out of the attention list exactly when its state waits for no one (it is not in
-- review, failed, interrupted, sent back or blocked) and its synchronisation is not stale.
pub attention_iff :
    (input : AttentionInput)
    → (derive_attention input ≡ none)
      ↔ ((WaitsForOwner input.state → ⊥) × (input.stale_github_sync ≡ false))
unfolding derive_attention
attention_iff input = elim (Option-cases (lifecycle_attention input.state)) [
  | inl quiet ↦ (
    (λ h. ((λ w. let (c, e) = waits-some input.state w in ground arith), ground arith)),
    (λ h. let (_, fresh) = h in ground arith),
  )
  | inr (c, found) ↦ ((λ h. ground arith), (λ h. absurd (h.0 (some-waits input.state c found))))
]

retry_state :
    (s : FeatureState) (c : AttentionCategory)
    → lifecycle_attention s ≡ some (c, retry_development)
    → (is_retryable_state s ≡ true) × Allowed s queued human
unfolding lifecycle_attention
retry_state FeatureState.development_failed c h = (refl, Allowed.retry IsStopped.failed)
retry_state FeatureState.development_interrupted c h = (refl, Allowed.retry IsStopped.interrupted)
retry_state _ c h = ground arith

review_state :
    (s : FeatureState) (c : AttentionCategory)
    → lifecycle_attention s ≡ some (c, review_tasks)
    → (is_tasks_review s ≡ true) × Allowed s queued human
unfolding lifecycle_attention
review_state FeatureState.tasks_review c h = (refl, Allowed.approve)
review_state _ c h = ground arith

retry_pr_state :
    (s : FeatureState) (c : AttentionCategory)
    → lifecycle_attention s ≡ some (c, retry_pr_creation)
    → Allowed s pr_creating human
unfolding lifecycle_attention
retry_pr_state FeatureState.pr_creation_failed c h = Allowed.pr_retry
retry_pr_state _ c h = ground arith

-- An item for a state that waits, or for stale synchronisation.
item_parts :
    (input : AttentionInput) (item : AttentionItem)
    → derive_attention input ≡ some item
    → (item.current_state ≡ input.state)
      × ((lifecycle_attention input.state ≡ some (item.category, item.primary_action))
          ⊎ (item.primary_action ≡ refresh_github_status))
unfolding derive_attention
item_parts input item h = elim (Option-cases (lifecycle_attention input.state)) [
  | inl quiet ↦ ground arith
  | inr ((c, a), found) ↦ ground arith
]

-- The action that an item offers is one that the feature's state admits: where it offers to retry
-- development, the state is one that the retry service accepts and a person may queue; where it
-- offers to review tasks, the state is the one that Approve & Queue accepts; where it offers to retry
-- the pull request, a person may move the feature back to its creation.
pub attention_actions :
    (input : AttentionInput) (item : AttentionItem)
    → derive_attention input ≡ some item
    → (item.current_state ≡ input.state)
      × (item.primary_action ≡ retry_development
          → (is_retryable_state input.state ≡ true) × Allowed input.state queued human)
      × (item.primary_action ≡ review_tasks
          → (is_tasks_review input.state ≡ true) × Allowed input.state queued human)
      × (item.primary_action ≡ retry_pr_creation → Allowed input.state pr_creating human)
attention_actions input item h =
    let (same, parts) = item_parts input item h in
    elim parts [
      | inr refresh ↦ (same, (λ e. ground arith), (λ e. ground arith), (λ e. ground arith))
      | inl found ↦ (
        same,
        (λ e. retry_state input.state item.category (found ∙ ap (λ a. some (item.category, a)) e)),
        (λ e. review_state input.state item.category (found ∙ ap (λ a. some (item.category, a)) e)),
        (λ e.
            retry_pr_state input.state item.category (found ∙ ap (λ a. some (item.category, a)) e)),
      )
    ]

-- The design document's table: what a state asks for, and the action that it offers.
pub data Offers : FeatureState → AttentionCategory → AttentionAction → Type 0 where
  review : Offers FeatureState.tasks_review AttentionCategory.task_review review_tasks
  failed :
      Offers FeatureState.development_failed AttentionCategory.development_failed retry_development
  interrupted :
      Offers FeatureState.development_interrupted AttentionCategory.development_interrupted
        retry_development
  creation :
      Offers FeatureState.pr_creation_failed AttentionCategory.pr_creation_failed retry_pr_creation
  checks : Offers FeatureState.ci_failed AttentionCategory.ci_failed open_github_checks
  pull_request : Offers FeatureState.pr_review AttentionCategory.pr_review open_github_pr
  changes :
      Offers FeatureState.pr_changes_requested AttentionCategory.pr_changes_requested open_github_pr
  resolution : Offers FeatureState.blocked AttentionCategory.blocked resolve_block

abbrev item_of : AttentionInput → AttentionCategory → AttentionAction → ℕ → AttentionItem
item_of input category action since = record {
  project_id = input.project_id;
  release_id = input.release_id;
  feature_id = input.feature_id;
  reason = category;
  age_basis = since;
  current_state = input.state;
  category = category;
  primary_action = action;
}

-- Since when the synchronisation is stale; where that is not known, since the state changed.
pub data Since (input : AttentionInput) : ℕ → Type 0 where
  known : {since : ℕ} → input.stale_since ≡ some since → Since input since
  unknown : input.stale_since ≡ none → Since input input.state_changed_at

-- The items of features, in their order, one for each that asks for attention.
pub data Lists : List AttentionInput → List AttentionItem → Type 0 where
  nothing_left : Lists [] []
  waits :
      {input : AttentionInput} {inputs : List AttentionInput} {items : List AttentionItem}
      (c : AttentionCategory) (a : AttentionAction)
      → Offers input.state c a
      → Lists inputs items
      → Lists (input ∷ inputs) (item_of input c a input.state_changed_at ∷ items)
  stale :
      {input : AttentionInput} {inputs : List AttentionInput} {items : List AttentionItem}
      (since : ℕ)
      → ¬ WaitsForOwner input.state
      → input.stale_github_sync ≡ true
      → Since input since
      → Lists inputs items
      → Lists
          (input ∷ inputs)
          (item_of input AttentionCategory.stale_github_sync refresh_github_status since ∷ items)
  passed :
      {input : AttentionInput} {inputs : List AttentionInput} {items : List AttentionItem}
      → ¬ WaitsForOwner input.state
      → input.stale_github_sync ≡ false
      → Lists inputs items
      → Lists (input ∷ inputs) items
