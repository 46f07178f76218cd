-- ===== src/Task/Tests.antt =====
-- The theorems on the task operations at a feature in review.
use autopilot_console.Prelude.{◌≡◌, ◌⊎◌, refl, some, none, false}
use autopilot_console.Feature.State.{FeatureState, same_state}
use autopilot_console.Feature.Machine.{
  is_allowed, apply_feature_transition, apply_edge, replayed, conflicting,
}
use autopilot_console.Store.Rows.{Db, JobAttemptStatus}
use autopilot_console.Store.Tx.{Reply, replied, with_transaction}
use autopilot_console.Store.Repositories.{
  get_feature_by_id, get_project_by_id, find_idempotency, update_features, create_task_approval,
  create_development_attempt, create_idempotency_record, append_activity_event, append_audit_event,
  feature_in_project, approval_in_feature, attempt_clashes,
}
use autopilot_console.Task.Approval.{
  ServiceResult, ok, failed, stale_checksum, given_path, other_project, read_cached_approve_result,
  cached_approve, transition_command,
}
use autopilot_console.Task.Approval.Approve.{
  ApproveInput, Approved, approval_result, attempt_result, record_events, record_attempt,
  record_approval, commit_transition, approve_transition, approve_command, approve_row,
  approve_locked, approve_body, unchanged_since, move_feature,
}
use autopilot_console.Task.Approval.Approve.Entry.{
  check_feature, check_approve, approve_reply, approve_checked, approve_and_queue,
}
use autopilot_console.Task.Approval.Approve.Safety.{Created}
use autopilot_console.Task.Approval.Approve.Handler.{Checked, approve-Created, approve_unchanged}
use autopilot_console.Fixtures.{console, feature_row, read_any, admin}

abbrev input : ApproveInput
input = record {
  feature_id = 10;
  project_id = some 1;
  displayed_checksum = 77;
  operation_key = 500;
  actor = admin;
}

abbrev stale_input : ApproveInput
stale_input = record input { displayed_checksum = 78 }

abbrev run : Reply (ServiceResult Approved) × Db
run = approve_and_queue read_any (λ db. db) input console

abbrev answer : Approved
answer = record {
  feature = record (feature_row 10 FeatureState.queued) { row_version = 4 };
  approval = record {
    id = 100;
    checksum = 77;
    relative_task_path = "docs/task.json";
    approved_by_admin_id = 9;
    invalidated_at = none;
    requirements_snapshot = 5;
  };
  attempt = record {
    id = 101;
    status = JobAttemptStatus.queued;
    task_approval_id = 100;
    branch_name = "feature/a";
    operation_key = 500;
    project_id = 1;
    feature_id = 10;
  };
  idempotent = false;
}

run-approved : run ≡ (replied (ok answer), run.1)
unfolding approve_and_queue approve_checked approve_reply check_approve check_feature approve_body
    approve_locked approve_row approve_command approve_transition commit_transition record_approval
    record_attempt record_events attempt_result approval_result unchanged_since move_feature
    transition_command cached_approve read_cached_approve_result other_project given_path
    get_feature_by_id get_project_by_id find_idempotency update_features create_task_approval
    create_development_attempt create_idempotency_record append_activity_event append_audit_event
    feature_in_project approval_in_feature attempt_clashes with_transaction apply_feature_transition
    apply_edge replayed conflicting is_allowed same_state
run-approved = refl

run-stale :
    approve_and_queue read_any (λ db. db) stale_input console
    ≡ (replied (failed stale_checksum), console)
unfolding approve_and_queue approve_checked check_approve check_feature other_project given_path
    get_feature_by_id get_project_by_id find_idempotency
run-stale = refl

approve-Created_example : Checked read_any input console × Created input console answer run.1
approve-Created_example =
    approve-Created read_any (λ db. db) input console answer run.1 run-approved refl

approve_unchanged_example : (console ≡ console) ⊎ (console ≡ console)
approve_unchanged_example =
    approve_unchanged read_any (λ db. db) stale_input console (replied (failed stale_checksum))
      console run-stale (λ a e. cc)
