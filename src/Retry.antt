-- ===== src/Retry.antt =====
-- apps/worker/src/process/retry-service.ts: queueing a stopped attempt again.
-- One transaction does everything, under an advisory lock on the operation key and the lock of the
-- feature's row, so it runs alone. Whether a process still runs is the argument `is_alive`, of its
-- pid and its start time; it is absent where the service has no runner.
pub mod Laws
pub mod Writes
pub mod Handler
pub mod Repeat
mod Tests
use text.Mathlib.Text.{◌==◌ as str_eq}
use autopilot_console.Prelude.{
  ℕ, ◌==◌, Option, some, none, Bool, true, false, not, ◌&&◌, ◌||◌, String, if◌then◌else◌, List, [],
  ◌∷◌, ltb, find, count_where,
}
use autopilot_console.Feature.State.{
  FeatureState, development_failed, development_interrupted, development_cancelled,
}
use autopilot_console.Feature.State
use autopilot_console.Feature.Transition.{
  human, applied, idempotent, rejected, AppliedFeatureTransition, FeatureTransitionResult,
  FeatureTransitionCommand,
}
use autopilot_console.Feature.Machine.{apply_feature_transition}
use autopilot_console.Store.Rows.{
  Db, FeatureRow, TaskApprovalRow, DevelopmentAttemptRow, JobAttemptStatus, IdempotencyRecordRow,
  retry_result,
}
use autopilot_console.Store.Tx.{Tx, Reply, pure, read, write, ◌>>=◌, ◌>>◌, with_transaction}
use autopilot_console.Store.Repositories.{
  get_feature_by_id, get_development_attempt, find_idempotency, update_features,
  create_development_attempt, create_idempotency_record, append_activity_event, append_audit_event,
}
use autopilot_console.Task.Approval.{transition_command}
use autopilot_console.Task.Approval.Approve.{unchanged_since, move_feature}

-- The texts of `reason`.
pub data BlockReason : Type 0 where
  key_of_another_retry prior_attempt_missing feature_not_found : BlockReason
  other_project state_not_retryable no_active_approval no_attempt : BlockReason
  status_not_retryable branch_mismatch process_alive : BlockReason
  transition_refused transition_already_applied feature_changed : BlockReason

pub data RetryOutcome : Type 0 where
  retried : DevelopmentAttemptRow → RetryOutcome
  refused : BlockReason → RetryOutcome
  replayed : DevelopmentAttemptRow → RetryOutcome

pub record RetryRequest : Type 0 where
  pub feature_id : ℕ
  pub project_id : ℕ
  pub task_approval_id : ℕ
  pub branch_name : String
  pub operation_key : ℕ
  pub actor_id : ℕ

-- RETRYABLE_FEATURE_STATES
abbrev pub is_retryable_state : FeatureState → Bool
is_retryable_state development_failed = true
is_retryable_state development_interrupted = true
is_retryable_state development_cancelled = true
is_retryable_state _ = false

-- RETRYABLE_ATTEMPT_STATUSES
abbrev pub is_retryable_status : JobAttemptStatus → Bool
is_retryable_status JobAttemptStatus.failed = true
is_retryable_status JobAttemptStatus.interrupted = true
is_retryable_status JobAttemptStatus.cancelled = true
is_retryable_status _ = false

-- What is stored under the operation key answers the request, if it is of the same feature.
unfoldable pub replay_retry : RetryRequest → IdempotencyRecordRow → Db → RetryOutcome
replay_retry request r db =
    let other_feature : Bool = elim r.feature_id [
      | none ↦ true
      | some f ↦ not (f == request.feature_id)
    ] in
    if not (r.project_id == request.project_id) || other_feature
    then refused key_of_another_retry
    else elim r.attempt_id [
      | none ↦ refused prior_attempt_missing
      | some prior ↦ elim (get_development_attempt prior db) [
        | none ↦ refused prior_attempt_missing
        | some attempt ↦ replayed attempt
      ]
    ]

abbrev pub is_active_approval : RetryRequest → TaskApprovalRow → Bool
is_active_approval request a =
    a.id == request.task_approval_id
    && (a.project_id == request.project_id
        && (a.feature_id == request.feature_id
            && elim a.invalidated_at [ none ↦ true | some _ ↦ false ]))

-- ORDER BY enqueued_at DESC, created_at DESC, id DESC
unfoldable pub newer : DevelopmentAttemptRow → DevelopmentAttemptRow → Bool
newer a b =
    ltb b.enqueued_at a.enqueued_at
    || a.enqueued_at == b.enqueued_at
      && (ltb b.created_at a.created_at || a.created_at == b.created_at && ltb b.id a.id)

-- WHERE feature_id = … ORDER BY … LIMIT 1
unfoldable pub latest_of : ℕ → List DevelopmentAttemptRow → Option DevelopmentAttemptRow
latest_of feature_id [] = none
latest_of feature_id (x ∷ xs) =
    let rest = latest_of feature_id xs in
    if x.feature_id == feature_id
    then elim rest [ none ↦ some x | some y ↦ some (if newer y x then y else x) ]
    else rest

-- `processPid !== null && processStartIdentity !== null && autopilot`, and then what it answers.
unfoldable pub may_be_active : Option (ℕ → ℕ → Bool) → DevelopmentAttemptRow → Bool
may_be_active none a = false
may_be_active (some is_alive) a = elim a.process_pid [
  | none ↦ false
  | some pid ↦ elim a.process_start_identity [ none ↦ false | some start ↦ is_alive pid start ]
]

pub data RetryCheck : Type 0 where
  refuse : BlockReason → RetryCheck
  proceed : FeatureRow → DevelopmentAttemptRow → RetryCheck

unfoldable pub check_latest :
    Option (ℕ → ℕ → Bool) → RetryRequest → FeatureRow → DevelopmentAttemptRow → RetryCheck
check_latest is_alive request row latest =
    if not (is_retryable_status latest.status)
    then refuse status_not_retryable
    else if not (str_eq latest.branch_name row.branch_name)
        || not (str_eq request.branch_name row.branch_name)
    then refuse branch_mismatch
    else if may_be_active is_alive latest
    then refuse process_alive
    else proceed row latest

-- The checks of a fresh key, in their order.
unfoldable pub check_retry : Option (ℕ → ℕ → Bool) → RetryRequest → Db → RetryCheck
check_retry is_alive request db = elim (get_feature_by_id request.feature_id db) [
  | none ↦ refuse feature_not_found
  | some row ↦
      if not (row.project_id == request.project_id)
      then refuse other_project
      else if not (is_retryable_state row.state)
      then refuse state_not_retryable
      else elim (find (is_active_approval request) db.approvals) [
        | none ↦ refuse no_active_approval
        | some _ ↦ elim (latest_of request.feature_id db.attempts) [
          | none ↦ refuse no_attempt
          | some l ↦ elim (get_development_attempt l.id db) [
            | none ↦ refuse no_attempt
            | some latest ↦ check_latest is_alive request row latest
          ]
        ]
      ]
]

abbrev retry_cause : ℕ
retry_cause = 10

unfoldable pub retry_command : RetryRequest → FeatureRow → FeatureTransitionCommand
retry_command request row =
    transition_command row.id row.state FeatureState.queued human retry_cause request.operation_key
      row.row_version (some row.state)

-- The writes for the new attempt: the operation key, activity and audit.
unfoldable pub record_retry_events : RetryRequest → DevelopmentAttemptRow → Tx RetryOutcome
record_retry_events request attempt = do
  create_idempotency_record request.operation_key request.project_id (some request.feature_id)
      (some attempt.id) (retry_result attempt.id)
  write (
      append_activity_event (record {
        project_id = some request.project_id;
        feature_id = some request.feature_id;
        attempt_id = some attempt.id;
        kind = "development.retried";
        source = "api";
      }))
  write (
      append_audit_event (record {
        actor_id = request.actor_id;
        action = "development.retry";
        target_id = attempt.id;
        project_id = some request.project_id;
        feature_id = some request.feature_id;
        attempt_id = some attempt.id;
        result = "success";
      }))
  pure (retried attempt)

-- The writes after the update of the feature.
unfoldable pub record_retry : RetryRequest → FeatureRow → DevelopmentAttemptRow → Tx RetryOutcome
record_retry request row latest = do
  attempt ←
      create_development_attempt request.project_id request.feature_id request.task_approval_id
        row.branch_name request.operation_key JobAttemptStatus.queued (some latest.id)
  record_retry_events request attempt

unfoldable pub commit_retry :
    RetryRequest → FeatureRow → DevelopmentAttemptRow → FeatureTransitionResult → Tx RetryOutcome
commit_retry request row latest (applied t) = do
  hits ← read (λ db. count_where (unchanged_since t) db.features)
  if hits == 0
      then pure (refused feature_changed)
      else (write (update_features (unchanged_since t) (move_feature t))
          >> record_retry request row latest)
commit_retry request row latest (rejected _ _ _) = pure (refused transition_refused)
commit_retry request row latest (idempotent _) = pure (refused transition_already_applied)

unfoldable pub retry_checked : RetryRequest → RetryCheck → Tx RetryOutcome
retry_checked request (refuse reason) db = pure (refused reason) db
retry_checked request (proceed row latest) db =
    commit_retry request row latest (apply_feature_transition db.clock (retry_command request row))
      db

unfoldable pub retry_body : Option (ℕ → ℕ → Bool) → RetryRequest → Tx RetryOutcome
retry_body is_alive request db = elim (find_idempotency request.operation_key db) [
  | some r ↦ pure (replay_retry request r db) db
  | none ↦ retry_checked request (check_retry is_alive request db) db
]

unfoldable pub retry : Option (ℕ → ℕ → Bool) → RetryRequest → Db → Reply RetryOutcome × Db
retry is_alive request db = with_transaction (retry_body is_alive request) db
