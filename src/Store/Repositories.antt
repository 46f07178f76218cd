-- ===== src/Store/Repositories.antt =====
-- packages/database/src/repositories: the queries and updates that the modelled services use, with
-- the unique indexes and hierarchy triggers of packages/database/migrations/0002_workflow_records.sql
-- and 0001_core_entities.sql that guard the inserted rows.
use autopilot_console.Prelude.{
  ℕ, ◌+◌, ◌==◌, Option, some, none, Bool, false, not, ◌&&◌, ◌||◌, [], ◌∷◌, ◌++◌, String,
  if◌then◌else◌, find, any, update_where,
}
use autopilot_console.Store.Rows.{
  Db, ProjectRow, FeatureRow, TaskApprovalRow, DevelopmentAttemptRow, JobAttemptStatus, is_active,
  is_unfinished, running, cancel_requested, IdempotencyRecordRow, IdempotencyResult,
  ActivityEventRow, AuditEventRow,
}
use autopilot_console.Store.Tx.{Tx, done, raised, unique_violation, other_error}

unfoldable pub get_feature_by_id : ℕ → Db → Option FeatureRow
get_feature_by_id id db = find (λ (r : FeatureRow). r.id == id) db.features

unfoldable pub get_project_by_id : ℕ → Db → Option ProjectRow
get_project_by_id id db = find (λ (r : ProjectRow). r.id == id) db.projects

unfoldable pub get_development_attempt : ℕ → Db → Option DevelopmentAttemptRow
get_development_attempt id db = find (λ (r : DevelopmentAttemptRow). r.id == id) db.attempts

-- SELECT result FROM idempotency_records WHERE operation_key = …
unfoldable pub find_idempotency : ℕ → Db → Option IdempotencyRecordRow
find_idempotency key db = find (λ (r : IdempotencyRecordRow). r.operation_key == key) db.idempotency

-- UPDATE features SET … WHERE id = … AND …
unfoldable pub update_features : (FeatureRow → Bool) → (FeatureRow → FeatureRow) → Db → Db
update_features test change db = record db { features = update_where test change db.features }

-- What enforce_task_approval_hierarchy and enforce_attempt_hierarchy ask of the feature.
unfoldable pub feature_in_project : ℕ → ℕ → Db → Bool
unfolding get_feature_by_id
feature_in_project feature_id project_id db = elim (get_feature_by_id feature_id db) [
  | none ↦ false
  | some f ↦ f.project_id == project_id
]

unfoldable pub create_task_approval : ℕ → ℕ → String → ℕ → ℕ → ℕ → Tx TaskApprovalRow
create_task_approval project_id feature_id path checksum requirements admin db =
    if feature_in_project feature_id project_id db
    then (let row : TaskApprovalRow = record {
      id = db.next_id;
      project_id = project_id;
      feature_id = feature_id;
      relative_task_path = path;
      checksum = checksum;
      requirements_snapshot = requirements;
      approved_by_admin_id = admin;
      invalidated_at = none;
    } in
        done row (record db { approvals = db.approvals ++ row ∷ []; next_id = db.next_id + 1 }))
    else raised other_error

-- The approval belongs to the project and the feature.
unfoldable pub approval_in_feature : ℕ → ℕ → ℕ → Db → Bool
approval_in_feature approval_id project_id feature_id db =
    elim (find (λ (a : TaskApprovalRow). a.id == approval_id) db.approvals) [
      | none ↦ false
      | some a ↦ a.project_id == project_id && a.feature_id == feature_id
    ]

-- The unique indexes of development_job_attempts: one active attempt to a project, and one
-- unfinished attempt to an operation key.
unfoldable pub attempt_clashes : ℕ → ℕ → JobAttemptStatus → Db → Bool
attempt_clashes project_id key status db =
    is_active status
      && any (λ (a : DevelopmentAttemptRow). is_active a.status && a.project_id == project_id)
          db.attempts
    || is_unfinished status
      && any (λ (a : DevelopmentAttemptRow). is_unfinished a.status && a.operation_key == key)
          db.attempts

-- `started_at` is set for an attempt that is created active; the callers modelled give none of the
-- process columns.
started : JobAttemptStatus → ℕ → Option ℕ
started running now = some now
started cancel_requested now = some now
started _ now = none

unfoldable pub create_development_attempt :
    ℕ → ℕ → ℕ → String → ℕ → JobAttemptStatus → Option ℕ → Tx DevelopmentAttemptRow
unfolding started
create_development_attempt project_id feature_id approval_id branch key status predecessor db =
    if not (feature_in_project feature_id project_id db)
      || not (approval_in_feature approval_id project_id feature_id db)
    then raised other_error
    else if attempt_clashes project_id key status db
    then raised unique_violation
    else (let row : DevelopmentAttemptRow = record {
      id = db.next_id;
      project_id = project_id;
      feature_id = feature_id;
      task_approval_id = approval_id;
      branch_name = branch;
      operation_key = key;
      status = status;
      predecessor_attempt_id = predecessor;
      worker_registration_id = none;
      process_pid = none;
      process_start_identity = none;
      lease_expires_at = none;
      heartbeat_at = none;
      enqueued_at = db.clock;
      started_at = started status db.clock;
      ended_at = none;
      exit_code = none;
      cancellation_requested_at = none;
      cancellation_reason = none;
      created_at = db.clock;
    } in
        done row (record db { attempts = db.attempts ++ row ∷ []; next_id = db.next_id + 1 }))

unfoldable pub create_idempotency_record :
    ℕ → ℕ → Option ℕ → Option ℕ → IdempotencyResult → Tx (Unit {0})
create_idempotency_record key project_id feature_id attempt_id result db =
    elim (find_idempotency key db) [
      | some _ ↦ raised unique_violation
      | none ↦ done tt (record db {
        idempotency =
            db.idempotency
            ++ record {
              operation_key = key;
              project_id = project_id;
              feature_id = feature_id;
              attempt_id = attempt_id;
              result = result;
            }
              ∷ [];
      })
    ]

unfoldable pub append_activity_event : ActivityEventRow → Db → Db
append_activity_event event db = record db { activity = db.activity ++ event ∷ [] }

unfoldable pub append_audit_event : AuditEventRow → Db → Db
append_audit_event event db = record db { audit = db.audit ++ event ∷ [] }
