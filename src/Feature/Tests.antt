-- ===== src/Feature/Tests.antt =====
-- The theorems on the lifecycle at a command and a walk.
use autopilot_console.Prelude.{◌≡◌, ◌≢◌, ◌↔◌, ◌⊎◌, refl, some, none, List, [], ◌∷◌, Member, true}
use autopilot_console.Feature.State.{
  FeatureState, tasks_review, queued, developing, development_complete, pr_creating, ci_running,
  pr_review, development_merged, blocked,
}
use autopilot_console.Feature.Transition.{
  TransitionOwner, human, human_and_validation, worker, agent_result_and_verification,
  github_adapter, poller, FeatureTransitionCommand, AppliedFeatureTransition, applied,
  version_conflict, state_conflict, forbidden_transition,
}
use autopilot_console.Feature.Machine.{
  is_allowed, list_allowed_transitions, apply_feature_transition, apply_edge, replayed, conflicting,
}
use autopilot_console.Feature.Machine.Table.{Allowed, is_allowed_iff, list_allowed_iff}
use autopilot_console.Feature.Machine.Apply.{
  Accepts, Observes, Replays, Reports, applied_iff, rejected_reason,
}
use autopilot_console.Feature.Machine.Journeys.{walk, merged_needs, dead_ends}

abbrev command : FeatureTransitionCommand
command = record {
  feature_id = 10;
  from = tasks_review;
  to = queued;
  owner = human;
  cause = 0;
  operation_id = 5;
  expected_version = 3;
  current_version = 4;
  observed_state = some tasks_review;
  prior_applied_operation_id = none;
  prior_applied_result = none;
}

abbrev current : FeatureTransitionCommand
current = record command { expected_version = 4 }

abbrev first_result : AppliedFeatureTransition
first_result = apply_edge 1000 current

abbrev happy : List (FeatureState × TransitionOwner)
happy =
    (tasks_review, human_and_validation)
    ∷ (queued, human)
    ∷ (developing, worker)
    ∷ (development_complete, agent_result_and_verification)
    ∷ (pr_creating, worker)
    ∷ (ci_running, github_adapter)
    ∷ (pr_review, poller)
    ∷ (development_merged, poller)
    ∷ []

is_allowed_iff_example :
    (is_allowed tasks_review queued human ≡ true) ↔ Allowed tasks_review queued human
is_allowed_iff_example = is_allowed_iff tasks_review queued human

list_allowed_iff_example :
    Member (queued, human) (list_allowed_transitions tasks_review)
    ↔ (is_allowed tasks_review queued human ≡ true)
list_allowed_iff_example = list_allowed_iff tasks_review queued human

applied_iff_example :
    (apply_feature_transition 1000 current ≡ applied first_result)
    ↔ (Accepts current × Reports 1000 current first_result)
applied_iff_example = applied_iff 1000 current first_result

rejected_reason_example :
    (tasks_review ≡ tasks_review)
    × ((r : AppliedFeatureTransition) → ¬ Replays command r)
    × (((version_conflict ≡ version_conflict)
          × (command.expected_version ≢ command.current_version)
          × (tasks_review ≡ tasks_review))
        ⊎ (((version_conflict ≡ state_conflict)
              × (command.expected_version ≡ command.current_version)
              × (some tasks_review ≡ some tasks_review)
              × (tasks_review ≢ tasks_review))
            ⊎ ((version_conflict ≡ forbidden_transition)
                × (command.expected_version ≡ command.current_version)
                × Observes command
                × ¬ Allowed tasks_review queued human
                × (tasks_review ≡ tasks_review))))
unfolding apply_feature_transition replayed conflicting
rejected_reason_example =
    rejected_reason 1000 command version_conflict tasks_review tasks_review refl

merged_needs_example :
    Member (queued, human) happy
    × Member (development_complete, agent_result_and_verification) happy
    × Member (pr_creating, worker) happy
    × Member (development_merged, poller) happy
merged_needs_example = merged_needs happy (unfold walk is_allowed in refl)

dead_ends_example :
    (walk development_merged happy ≡ some queued → happy ≡ [])
    × (walk blocked happy ≡ some queued → queued ≡ blocked)
dead_ends_example = dead_ends happy queued
