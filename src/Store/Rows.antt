-- ===== src/Store/Rows.antt =====
-- The rows of packages/database/src/repositories, and the database as a record of tables.
-- Identifiers, operation keys, checksums, clock readings and JSON payloads are compared or carried
-- along, never looked into, and are numbers. `created_at` and `updated_at` columns that no modelled
-- code reads, and texts meant for people only, are left out.
use autopilot_console.Prelude.{ℕ, Option, List, String, Bool, true, false}
use autopilot_console.Feature.State.{FeatureState}

pub record ProjectRow : Type 0 where
  pub id : ℕ
  pub canonical_path : String

pub record FeatureRow : Type 0 where
  pub id : ℕ
  pub project_id : ℕ
  pub release_id : ℕ
  pub slug : String
  pub title : String
  pub summary : Option String
  pub state : FeatureState
  pub branch_name : String
  pub task_path : Option String
  pub row_version : ℕ
  pub archived_at : Option ℕ

pub record TaskApprovalRow : Type 0 where
  pub id : ℕ
  pub project_id : ℕ
  pub feature_id : ℕ
  pub relative_task_path : String
  pub checksum : ℕ
  pub requirements_snapshot : ℕ
  pub approved_by_admin_id : ℕ
  pub invalidated_at : Option ℕ

pub data JobAttemptStatus : Type 0 where
  queued running cancel_requested succeeded failed interrupted cancelled : JobAttemptStatus

-- status IN ('RUNNING', 'CANCEL_REQUESTED')
abbrev pub is_active : JobAttemptStatus → Bool
is_active running = true
is_active cancel_requested = true
is_active _ = false

-- status IN ('QUEUED', 'RUNNING', 'CANCEL_REQUESTED')
abbrev pub is_unfinished : JobAttemptStatus → Bool
is_unfinished queued = true
is_unfinished s = is_active s

pub record DevelopmentAttemptRow : Type 0 where
  pub id : ℕ
  pub project_id : ℕ
  pub feature_id : ℕ
  pub task_approval_id : ℕ
  pub branch_name : String
  pub operation_key : ℕ
  pub status : JobAttemptStatus
  pub predecessor_attempt_id : Option ℕ
  pub worker_registration_id : Option ℕ
  pub process_pid : Option ℕ
  pub process_start_identity : Option ℕ
  pub lease_expires_at : Option ℕ
  pub heartbeat_at : Option ℕ
  pub enqueued_at : ℕ
  pub started_at : Option ℕ
  pub ended_at : Option ℕ
  pub exit_code : Option ℕ
  pub cancellation_requested_at : Option ℕ
  pub cancellation_reason : Option ℕ
  pub created_at : ℕ

pub record WorkerRegistrationRow : Type 0 where
  pub id : ℕ
  pub worker_id : ℕ
  pub stopped_at : Option ℕ

pub record ApprovalResult : Type 0 where
  pub id : ℕ
  pub checksum : ℕ
  pub relative_task_path : String
  pub approved_by_admin_id : ℕ
  pub invalidated_at : Option ℕ
  pub requirements_snapshot : ℕ

pub record AttemptResult : Type 0 where
  pub id : ℕ
  pub status : JobAttemptStatus
  pub task_approval_id : ℕ
  pub branch_name : String
  pub operation_key : ℕ
  pub project_id : ℕ
  pub feature_id : ℕ

-- The JSON result kept with an operation key, by the operation that wrote it.
pub data IdempotencyResult : Type 0 where
  approve_result : ApprovalResult → AttemptResult → IdempotencyResult
  replace_result : ℕ → ℕ → ℕ → IdempotencyResult
  retry_result : ℕ → IdempotencyResult

pub record IdempotencyRecordRow : Type 0 where
  pub operation_key : ℕ
  pub project_id : ℕ
  pub feature_id : Option ℕ
  pub attempt_id : Option ℕ
  pub result : IdempotencyResult

pub record ActivityEventRow : Type 0 where
  pub project_id : Option ℕ
  pub feature_id : Option ℕ
  pub attempt_id : Option ℕ
  pub kind : String
  pub source : String

pub record AuditEventRow : Type 0 where
  pub actor_id : ℕ
  pub action : String
  pub target_id : ℕ
  pub project_id : Option ℕ
  pub feature_id : Option ℕ
  pub attempt_id : Option ℕ
  pub result : String

-- `next_id` stands for gen_random_uuid(), which never repeats a key, and `clock` for now().
pub record Db : Type 0 where
  pub projects : List ProjectRow
  pub features : List FeatureRow
  pub approvals : List TaskApprovalRow
  pub attempts : List DevelopmentAttemptRow
  pub workers : List WorkerRegistrationRow
  pub idempotency : List IdempotencyRecordRow
  pub activity : List ActivityEventRow
  pub audit : List AuditEventRow
  pub next_id : ℕ
  pub clock : ℕ
