-- ===== src/Lifecycle/Tests.antt =====
-- A retry and a stale move of the poller on the same feature.
use autopilot_console.Prelude.{◌≡◌, refl, some, none, List, [], ◌∷◌}
use autopilot_console.Feature.State.{FeatureState}
use autopilot_console.Feature.Transition.{human}
use autopilot_console.Store.Repositories.{get_feature_by_id}
use autopilot_console.Task.Approval.{transition_command}
use autopilot_console.Fixtures.{console, feature_row}
use autopilot_console.Lifecycle.Writes.{Write, retry_feature, github_move}
use autopilot_console.Lifecycle.Refines.{execute_all, HasWalked, execute_all-HasWalked}

abbrev writes : List Write
writes =
    retry_feature none (record {
      feature_id = 11;
      project_id = 1;
      task_approval_id = 30;
      branch_name = "feature/a";
      operation_key = 500;
      actor_id = 9;
    })
    ∷ github_move 1000 (
        transition_command 11 FeatureState.development_failed FeatureState.queued human 1 501 3
          (some FeatureState.development_failed))
    ∷ []

found : get_feature_by_id 11 console ≡ some (feature_row 11 FeatureState.development_failed)
unfolding get_feature_by_id
found = refl

execute_all-HasWalked_example :
    HasWalked 11 (feature_row 11 FeatureState.development_failed) (execute_all writes console)
execute_all-HasWalked_example =
    execute_all-HasWalked writes console 11 (feature_row 11 FeatureState.development_failed) found
