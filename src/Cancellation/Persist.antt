-- ===== src/Cancellation/Persist.antt =====
-- `persistTransition` and `persistBlocked`: the writes that end a cancellation, in the order of the
-- source. Those before a throw stay.
use autopilot_console.Prelude.{
  ℕ, ◌==◌, some, none, Bool, true, false, String, [], ◌∷◌, ◌++◌, if◌then◌else◌, count_where,
}
use autopilot_console.Feature.State.{FeatureState, blocked}
use autopilot_console.Feature.Transition.{
  TransitionOwner, guard, FeatureTransitionResult, applied, idempotent, rejected,
}
use autopilot_console.Feature.Machine.{apply_feature_transition}
use autopilot_console.Failure.{process, map_failure}
use autopilot_console.Store.Rows.{Db, FeatureRow, DevelopmentAttemptRow, JobAttemptStatus, failed}
use autopilot_console.Store.Repositories.{
  update_features, append_activity_event, append_audit_event,
}
use autopilot_console.Task.Approval.{transition_command}
use autopilot_console.Task.Approval.Approve.{unchanged_since, move_feature}
use autopilot_console.Cancellation.World.{
  World, FailureRecordRow, AttemptUpdate, update_attempt_status,
}

-- The update of `updateAttemptStatus` that sets the status alone.
abbrev pub status_only : JobAttemptStatus → AttemptUpdate
status_only status = record {
  status = status;
  ended_at = none;
  exit_code = none;
  cancellation_requested_at = none;
  cancellation_reason = none;
  worker_registration_id = none;
  process_pid = none;
  process_start_identity = none;
  lease_expires_at = none;
  heartbeat_at = none;
  started_at = none;
}

-- The actor of the audit rows.
abbrev pub cancellation_controller : ℕ
cancellation_controller = 0

pub record PersistTransitionInput : Type 0 where
  pub attempt : DevelopmentAttemptRow
  pub feature : FeatureRow
  pub target_state : FeatureState
  pub attempt_status : JobAttemptStatus
  pub owner : TransitionOwner
  pub cause : ℕ
  pub operation_id : ℕ
  pub action : String
  pub activity_type : String
  pub now : ℕ

unfoldable pub record_cancellation : PersistTransitionInput → Db → Db
record_cancellation input db =
    append_audit_event
      (record {
        actor_id = cancellation_controller;
        action = input.action;
        target_id = input.attempt.id;
        project_id = some input.attempt.project_id;
        feature_id = some input.attempt.feature_id;
        attempt_id = some input.attempt.id;
        result = "success";
      })
      (append_activity_event
        (record {
          project_id = some input.attempt.project_id;
          feature_id = some input.attempt.feature_id;
          attempt_id = some input.attempt.id;
          kind = input.activity_type;
          source = "worker";
        })
        db)

abbrev pub cancelled_update : PersistTransitionInput → AttemptUpdate
cancelled_update input = record (status_only input.attempt_status) {
  ended_at = some input.now;
  cancellation_requested_at = some input.now;
  cancellation_reason = some input.cause;
}

-- After the update of the feature.
unfoldable pub finish_attempt : PersistTransitionInput → Db → Bool × Db
finish_attempt input db =
    elim (update_attempt_status input.attempt.id (cancelled_update input) db) [
      | none ↦ (false, db)
      | some db' ↦ (true, record_cancellation input db')
    ]

-- What follows from the answer of the transition service; `false` is a throw.
unfoldable pub persist_applied : PersistTransitionInput → FeatureTransitionResult → Db → Bool × Db
persist_applied input (rejected _ _ _) db = (false, db)
persist_applied input (idempotent _) db = (false, db)
persist_applied input (applied t) db =
    if count_where (unchanged_since t) db.features == 0
    then (false, db)
    else finish_attempt input (update_features (unchanged_since t) (move_feature t) db)

unfoldable pub persist_transition : PersistTransitionInput → Db → Bool × Db
persist_transition input db =
    persist_applied input
      (apply_feature_transition input.now (
        transition_command input.feature.id input.feature.state input.target_state input.owner
          input.cause input.operation_id input.feature.row_version (some input.feature.state)))
      db

-- The rows that a block leaves, after the update of the attempt.
module _ {W : Type 0} (redact : ℕ → ℕ) (attempt : DevelopmentAttemptRow) (reason : ℕ) where
  unfoldable pub record_block : World W → World W
  unfolding map_failure
  record_block w =
      let projection = map_failure redact process (some reason) in
      let failure : FailureRecordRow = record {
        project_id = attempt.project_id;
        feature_id = attempt.feature_id;
        attempt_id = some attempt.id;
        category = projection.kind;
        recommended_action = projection.spec.recommended_action;
        detail = projection.detail;
      } in
      record w {
        failures = w.failures ++ failure ∷ [];
        db =
            append_audit_event
              (record {
                actor_id = cancellation_controller;
                action = "development.block";
                target_id = attempt.id;
                project_id = some attempt.project_id;
                feature_id = some attempt.feature_id;
                attempt_id = some attempt.id;
                result = "failure";
              })
              (append_activity_event
                (record {
                  project_id = some attempt.project_id;
                  feature_id = some attempt.feature_id;
                  attempt_id = some attempt.id;
                  kind = "development.blocked";
                  source = "worker";
                })
                w.db);
      }

  -- The feature's update is not looked at: it may have found no row.
  unfoldable pub block_applied : FeatureTransitionResult → ℕ → World W → Bool × World W
  block_applied (rejected _ _ _) now w = (false, w)
  block_applied (idempotent _) now w = (false, w)
  block_applied (applied t) now w =
      let moved = record w { db = update_features (unchanged_since t) (move_feature t) w.db } in
      elim (update_attempt_status attempt.id (record (status_only failed) { ended_at = some now })
        moved.db) [
          | none ↦ (false, moved)
          | some db' ↦ (true, record_block (record moved { db = db' }))
        ]

  unfoldable pub persist_blocked : FeatureRow → ℕ → ℕ → World W → Bool × World W
  persist_blocked feature operation_id now w =
      block_applied
        (apply_feature_transition now (
          transition_command feature.id feature.state blocked guard reason operation_id
            feature.row_version (some feature.state)))
        now w
