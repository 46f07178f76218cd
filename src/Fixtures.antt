-- ===== src/Fixtures.antt =====
-- A small database, as the tests of the services use one: a project with a feature in review, one
-- that has stopped, and one attempt in each of three statuses.
use autopilot_console.Prelude.{ℕ, Option, some, none, [], ◌∷◌, String}
use autopilot_console.Feature.State.{FeatureState}
use autopilot_console.Store.Rows.{
  Db, FeatureRow, TaskApprovalRow, DevelopmentAttemptRow, JobAttemptStatus,
}
use autopilot_console.Task.Approval.{ParsedTask, Actor}

abbrev pub feature_row : ℕ → FeatureState → FeatureRow
feature_row id state = record {
  id = id;
  project_id = 1;
  release_id = 2;
  slug = "feature";
  title = "A feature";
  summary = none;
  state = state;
  branch_name = "feature/a";
  task_path = some "docs/task.json";
  row_version = 3;
  archived_at = none;
}

abbrev pub approval_row : ℕ → ℕ → TaskApprovalRow
approval_row id feature_id = record {
  id = id;
  project_id = 1;
  feature_id = feature_id;
  relative_task_path = "docs/task.json";
  checksum = 77;
  requirements_snapshot = 5;
  approved_by_admin_id = 9;
  invalidated_at = none;
}

abbrev pub attempt_row : ℕ → ℕ → JobAttemptStatus → ℕ → DevelopmentAttemptRow
attempt_row id feature_id status enqueued_at = record {
  id = id;
  project_id = 1;
  feature_id = feature_id;
  task_approval_id = 31;
  branch_name = "feature/a";
  operation_key = id;
  status = status;
  predecessor_attempt_id = none;
  worker_registration_id = none;
  process_pid = none;
  process_start_identity = none;
  lease_expires_at = none;
  heartbeat_at = none;
  enqueued_at = enqueued_at;
  started_at = none;
  ended_at = none;
  exit_code = none;
  cancellation_requested_at = none;
  cancellation_reason = none;
  created_at = enqueued_at;
}

-- Feature 10 is in review with no approval, feature 11 failed and feature 12 is in review with the
-- approval 31.
abbrev pub console : Db
console = record {
  projects = record { id = 1; canonical_path = "/projects/one" } ∷ [];
  features =
      feature_row 10 FeatureState.tasks_review
      ∷ feature_row 11 FeatureState.development_failed
      ∷ feature_row 12 FeatureState.tasks_review
      ∷ [];
  approvals = approval_row 30 11 ∷ approval_row 31 12 ∷ [];
  attempts =
      attempt_row 40 11 JobAttemptStatus.failed 100
      ∷ attempt_row 42 13 JobAttemptStatus.queued 120
      ∷ attempt_row 41 14 JobAttemptStatus.queued 110
      ∷ [];
  workers = record { id = 60; worker_id = 6; stopped_at = none } ∷ [];
  idempotency = [];
  activity = [];
  audit = [];
  next_id = 100;
  clock = 1000;
}

-- Every task file parses to the same task.
abbrev pub read_any : String → String → Option ParsedTask
read_any root path = some (record { checksum = 77; summary = 8; requirements = 5 })

abbrev pub admin : Actor
admin = record { actor_id = 9; correlation_id = none }
