-- ===== src/Task/Approval/Approve.antt =====
-- packages/domain/src/task/task-approval-service.ts, `approveAndQueue`: its transaction.
pub mod Entry
pub mod Laws
pub mod Safety
pub mod Handler
use autopilot_console.Prelude.{
  ℕ, ◌+◌, ◌==◌, Option, some, none, Bool, true, false, not, ◌&&◌, String, if◌then◌else◌,
  count_where,
}
use autopilot_console.Feature.State.{FeatureState, tasks_review, same_state}
use autopilot_console.Feature.State
use autopilot_console.Feature.Transition.{
  human, applied, idempotent, rejected, AppliedFeatureTransition, FeatureTransitionResult,
  FeatureTransitionCommand,
}
use autopilot_console.Feature.Machine.{apply_feature_transition}
use autopilot_console.Store.Rows.{
  Db, ProjectRow, FeatureRow, TaskApprovalRow, DevelopmentAttemptRow, JobAttemptStatus,
  ApprovalResult, AttemptResult, approve_result,
}
use autopilot_console.Store.Tx.{
  Tx, Fault, Reply, replied, threw, pure, read, write, ◌>>=◌, ◌>>◌, with_transaction,
  unique_violation, other_error,
}
use autopilot_console.Store.Repositories.{
  get_feature_by_id, get_project_by_id, find_idempotency, update_features, create_task_approval,
  create_development_attempt, create_idempotency_record, append_activity_event, append_audit_event,
}
use autopilot_console.Task.Approval.{
  TaskArtifactFailureReason, validation_failed, illegal_state, stale_checksum, not_found,
  feature_not_found, ServiceResult, ok, failed, ParsedTask, Actor, is_tasks_review, given_path,
  other_project, cached_approve, transition_command,
}

pub record ApproveInput : Type 0 where
  pub feature_id : ℕ
  pub project_id : Option ℕ
  pub displayed_checksum : ℕ
  pub operation_key : ℕ
  pub actor : Actor

pub record Approved : Type 0 where
  pub feature : FeatureRow
  pub approval : ApprovalResult
  pub attempt : AttemptResult
  pub idempotent : Bool

-- What the transaction hands back: `kind` "error", or "created" and "idempotent" with the rows.
pub data ApproveOutcome : Type 0 where
  error : TaskArtifactFailureReason → ApproveOutcome
  approved : Approved → ApproveOutcome

-- WHERE id = … AND state = … AND row_version = …
unfoldable pub unchanged_since : AppliedFeatureTransition → FeatureRow → Bool
unchanged_since t r =
    r.id == t.feature_id && (same_state r.state t.prior_state && r.row_version == t.prior_version)

unfoldable pub move_feature : AppliedFeatureTransition → FeatureRow → FeatureRow
move_feature t r = record r { state = t.next_state; row_version = t.next_version }

abbrev pub approve_cause : ℕ
approve_cause = 0

unfoldable pub approval_result : TaskApprovalRow → ParsedTask → ApprovalResult
approval_result row parsed = record {
  id = row.id;
  checksum = row.checksum;
  relative_task_path = row.relative_task_path;
  approved_by_admin_id = row.approved_by_admin_id;
  invalidated_at = none;
  requirements_snapshot = parsed.requirements;
}

unfoldable pub attempt_result : DevelopmentAttemptRow → AttemptResult
attempt_result row = record {
  id = row.id;
  status = row.status;
  task_approval_id = row.task_approval_id;
  branch_name = row.branch_name;
  operation_key = row.operation_key;
  project_id = row.project_id;
  feature_id = row.feature_id;
}

-- The writes that follow the transition: approval, attempt, activity, audit, idempotency record.
unfoldable pub record_events :
    ApproveInput
    → ParsedTask
    → FeatureRow
    → TaskApprovalRow
    → DevelopmentAttemptRow
    → Tx ApproveOutcome
record_events input parsed row approval attempt = do
  write (
      append_activity_event (record {
        project_id = some row.project_id;
        feature_id = some input.feature_id;
        attempt_id = some attempt.id;
        kind = "feature.queued";
        source = "domain:task-approval-service";
      }))
  write (
      append_audit_event (record {
        actor_id = input.actor.actor_id;
        action = "feature.approve_and_queue";
        target_id = input.feature_id;
        project_id = some row.project_id;
        feature_id = some input.feature_id;
        attempt_id = some attempt.id;
        result = "success";
      }))
  create_idempotency_record input.operation_key row.project_id (some input.feature_id)
      (some attempt.id) (approve_result (approval_result approval parsed) (attempt_result attempt))
  queued_feature ← read (get_feature_by_id input.feature_id)
  pure (
      approved (record {
        feature = elim queued_feature [ none ↦ row | some f ↦ f ];
        approval = approval_result approval parsed;
        attempt = attempt_result attempt;
        idempotent = false;
      }))

unfoldable pub record_attempt :
    ApproveInput → ParsedTask → FeatureRow → TaskApprovalRow → Tx ApproveOutcome
record_attempt input parsed row approval = do
  attempt ←
      create_development_attempt row.project_id input.feature_id approval.id row.branch_name
        input.operation_key JobAttemptStatus.queued none
  record_events input parsed row approval attempt

unfoldable pub record_approval : ApproveInput → ParsedTask → FeatureRow → String → Tx ApproveOutcome
record_approval input parsed row path = do
  approval ←
      create_task_approval row.project_id input.feature_id path parsed.checksum parsed.requirements
        input.actor.actor_id
  record_attempt input parsed row approval

-- The compare-and-set update, and what follows if it hits exactly one row.
unfoldable pub commit_transition :
    ApproveInput → ParsedTask → FeatureRow → String → AppliedFeatureTransition → Tx ApproveOutcome
unfolding unchanged_since move_feature
commit_transition input parsed row path t = do
  hits ← read (λ db. count_where (unchanged_since t) db.features)
  if not (hits == 1)
      then pure (error illegal_state)
      else (write (update_features (unchanged_since t) (move_feature t))
          >> record_approval input parsed row path)

-- What follows from the answer of the transition service.
unfoldable pub approve_transition :
    ApproveInput → ParsedTask → FeatureRow → String → FeatureTransitionResult → Tx ApproveOutcome
approve_transition input parsed row path (applied t) = commit_transition input parsed row path t
approve_transition input parsed row path (rejected _ _ _) = pure (error illegal_state)
approve_transition input parsed row path (idempotent _) = pure (error illegal_state)

unfoldable pub approve_command : ApproveInput → FeatureRow → FeatureTransitionCommand
approve_command input row =
    transition_command input.feature_id tasks_review FeatureState.queued human approve_cause
      input.operation_key row.row_version (some row.state)

-- The row under the lock, from the project check on.
unfoldable pub approve_row : ApproveInput → ParsedTask → FeatureRow → Tx ApproveOutcome
approve_row input parsed row db =
    if other_project input.project_id row
    then pure (error not_found) db
    else if not (is_tasks_review row.state)
    then pure (error illegal_state) db
    else elim (given_path row.task_path) [
      | none ↦ pure (error validation_failed) db
      | some path ↦
          approve_transition input parsed row path
            (apply_feature_transition db.clock (approve_command input row)) db
    ]

-- Under the lock: a result stored meanwhile for the same key, or the row as it is now.
unfoldable pub approve_locked :
    ApproveInput
    → ParsedTask
    → Option (ApprovalResult × AttemptResult)
    → Option FeatureRow
    → Tx ApproveOutcome
approve_locked input parsed (some (approval, attempt)) (some current) = pure (
    approved
      (record { feature = current; approval = approval; attempt = attempt; idempotent = true }))
approve_locked input parsed none (some current) = approve_row input parsed current
approve_locked input parsed _ none = pure (error feature_not_found)

unfoldable pub approve_body : ApproveInput → ParsedTask → Tx ApproveOutcome
approve_body input parsed = do
  cached ← read (cached_approve input.operation_key)
  current ← read (get_feature_by_id input.feature_id)
  approve_locked input parsed cached current
