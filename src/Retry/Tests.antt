-- ===== src/Retry/Tests.antt =====
-- The theorems on retries at a stopped feature.
use autopilot_console.Prelude.{◌≡◌, refl, some, none}
use autopilot_console.Feature.Machine.{
  is_allowed, apply_feature_transition, apply_edge, replayed as prior_of, conflicting,
}
use autopilot_console.Feature.State.{same_state}
use autopilot_console.Store.Rows.{Db, DevelopmentAttemptRow, JobAttemptStatus}
use autopilot_console.Store.Tx.{Reply, replied, with_transaction}
use autopilot_console.Store.Repositories.{
  get_feature_by_id, get_development_attempt, find_idempotency, update_features,
  create_development_attempt, create_idempotency_record, append_activity_event, append_audit_event,
  feature_in_project, approval_in_feature, attempt_clashes,
}
use autopilot_console.Task.Approval.{transition_command}
use autopilot_console.Task.Approval.Approve.{unchanged_since, move_feature}
use autopilot_console.Fixtures.{console, attempt_row}
use autopilot_console.Retry.{
  RetryRequest, RetryOutcome, retried, refused, replayed, other_project, newer, latest_of,
  may_be_active, check_latest, check_retry, retry_command, record_retry_events, record_retry,
  commit_retry, retry_checked, retry_body, retry,
}
use autopilot_console.Retry.Repeat.{retry_again}
use autopilot_console.Retry.Handler.{Retried, retry-Retried, retry_unchanged}

abbrev request : RetryRequest
request = record {
  feature_id = 11;
  project_id = 1;
  task_approval_id = 30;
  branch_name = "feature/a";
  operation_key = 500;
  actor_id = 9;
}

abbrev elsewhere : RetryRequest
elsewhere = record request { project_id = 7 }

abbrev run : Reply RetryOutcome × Db
run = retry none request console

abbrev new_attempt : DevelopmentAttemptRow
new_attempt = record (attempt_row 100 11 JobAttemptStatus.queued 1000) {
  task_approval_id = 30;
  operation_key = 500;
  predecessor_attempt_id = some 40;
}

run-retried : run ≡ (replied (retried new_attempt), run.1)
unfolding retry retry_body retry_checked commit_retry record_retry record_retry_events retry_command
    check_retry check_latest may_be_active latest_of newer with_transaction get_feature_by_id
    get_development_attempt find_idempotency update_features create_development_attempt
    create_idempotency_record append_activity_event append_audit_event feature_in_project
    approval_in_feature attempt_clashes transition_command unchanged_since move_feature is_allowed
    apply_feature_transition apply_edge prior_of conflicting same_state
run-retried = refl

run-refused : retry none elsewhere console ≡ (replied (refused other_project), console)
unfolding retry retry_body retry_checked check_retry with_transaction get_feature_by_id
    find_idempotency
run-refused = refl

retry-Retried_example : Retried none request console new_attempt run.1
retry-Retried_example = retry-Retried none request console new_attempt run.1 run-retried

retry_unchanged_example : console ≡ console
retry_unchanged_example =
    retry_unchanged none elsewhere console (replied (refused other_project)) console run-refused
      (λ a e. cc)

retry_again_example : retry none request run.1 ≡ (replied (replayed new_attempt), run.1)
retry_again_example =
    retry_again none none request console new_attempt run.1 (unfold get_development_attempt in refl)
      run-retried
