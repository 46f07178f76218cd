-- ===== src/Task/Approval/Attach.antt =====
-- packages/domain/src/task/task-approval-service.ts, `attachTask`.
pub mod Laws
pub mod Handler
use autopilot_console.Prelude.{
  ℕ, ◌+◌, ◌==◌, Option, some, none, Bool, true, false, not, ◌&&◌, String, if◌then◌else◌, any,
}
use autopilot_console.Feature.State.{FeatureState, planned, tasks_review}
use autopilot_console.Feature.Transition.{
  human_and_validation, applied, idempotent, rejected, FeatureTransitionResult,
}
use autopilot_console.Feature.Machine.{apply_feature_transition}
use autopilot_console.Store.Rows.{Db, ProjectRow, FeatureRow, TaskApprovalRow}
use autopilot_console.Store.Tx.{
  Tx, Reply, replied, threw, pure, throw, read, write, ◌>>=◌, ◌>>◌, with_transaction, other_error,
}
use autopilot_console.Store.Repositories.{
  get_feature_by_id, get_project_by_id, update_features, append_activity_event, append_audit_event,
}
use autopilot_console.Task.Approval.{
  validation_failed, illegal_state, approval_active, not_found, feature_not_found, ServiceResult,
  ok, failed, ParsedTask, Actor, is_tasks_review, is_reattach_state, is_legal_attach_state,
  transition_command,
}

pub record AttachInput : Type 0 where
  pub feature_id : ℕ
  pub relative_task_path : String
  pub actor : Actor

pub record Attached : Type 0 where
  pub feature : FeatureRow
  pub summary : ℕ
  pub checksum : ℕ

abbrev pub is_none {ℓ} : {A : Type ℓ} → Option A → Bool
is_none none = true
is_none (some _) = false

unfoldable pub has_active_approval : ℕ → Db → Bool
has_active_approval feature_id db =
    any (λ (a : TaskApprovalRow). a.feature_id == feature_id && is_none a.invalidated_at)
      db.approvals

-- UPDATE features SET state = …, task_path = …, row_version = row_version + 1 WHERE id = …
unfoldable pub set_task : ℕ → FeatureState → String → Db → Db
set_task feature_id state path =
    update_features (λ r. r.id == feature_id)
      (λ r. record r { state = state; task_path = some path; row_version = r.row_version + 1 })

-- The update of a feature that is in review already keeps its state.
unfoldable pub set_path : ℕ → String → Db → Db
set_path feature_id path =
    update_features (λ r. r.id == feature_id)
      (λ r. record r { task_path = some path; row_version = r.row_version + 1 })

-- `operationId` holds a random part: it is an argument, and nothing compares it.
abbrev pub attach_cause : ℕ
attach_cause = 1

-- A transition that is not rejected is written, over the feature's id alone.
unfoldable pub review_transition : AttachInput → FeatureTransitionResult → Tx (Unit {0})
review_transition input (rejected _ _ _) = throw other_error
review_transition input (applied _) =
    write (set_task input.feature_id tasks_review input.relative_task_path)
review_transition input (idempotent _) =
    write (set_task input.feature_id tasks_review input.relative_task_path)

-- The row as the transaction found it says whether it is in review, and whether it starts over.
unfoldable pub enter_review : ℕ → AttachInput → FeatureRow → Tx (Unit {0})
enter_review operation_id input current db =
    if is_tasks_review current.state
    then write (set_path input.feature_id input.relative_task_path) db
    else (let prev_state = if is_reattach_state current.state then planned else current.state in
        review_transition input
          (apply_feature_transition db.clock (
            transition_command input.feature_id prev_state tasks_review human_and_validation
              attach_cause operation_id current.row_version none))
          db)

unfoldable pub reset_state : AttachInput → FeatureRow → Db → Db
reset_state input current db =
    if is_reattach_state current.state
    then set_task input.feature_id planned input.relative_task_path db
    else db

unfoldable pub attach_events : AttachInput → FeatureRow → Db → Db
attach_events input feature db =
    append_audit_event
      (record {
        actor_id = input.actor.actor_id;
        action = "feature.task.attach";
        target_id = input.feature_id;
        project_id = some feature.project_id;
        feature_id = some input.feature_id;
        attempt_id = none;
        result = "success";
      })
      (append_activity_event
        (record {
          project_id = some feature.project_id;
          feature_id = some input.feature_id;
          attempt_id = none;
          kind = "feature.task_attached";
          source = "domain:task-approval-service";
        })
        db)

-- A row that the transaction counts on but does not find is an error.
unfoldable pub required : Option FeatureRow → Tx FeatureRow
required none = throw other_error
required (some row) = pure row

unfoldable pub attach_finish : AttachInput → FeatureRow → Tx FeatureRow
attach_finish input feature = do
  write (attach_events input feature)
  updated ← read (get_feature_by_id input.feature_id)
  required updated

unfoldable pub attach_current : ℕ → AttachInput → FeatureRow → FeatureRow → Tx FeatureRow
attach_current operation_id input feature current = do
  write (reset_state input current)
  enter_review operation_id input current
  attach_finish input feature

unfoldable pub attach_body : ℕ → AttachInput → FeatureRow → Tx FeatureRow
attach_body operation_id input feature = do
  found ← read (get_feature_by_id input.feature_id)
  current ← required found
  attach_current operation_id input feature current

unfoldable pub attach_reply :
    ParsedTask → Reply FeatureRow × Db → Reply (ServiceResult Attached) × Db
attach_reply parsed (threw e, db) = (threw e, db)
attach_reply parsed (replied feature, db) = (
  replied (ok (record { feature = feature; summary = parsed.summary; checksum = parsed.checksum })),
  db,
)

unfoldable pub attach_feature :
    (String → String → Option ParsedTask)
    → (Db → Db)
    → ℕ
    → AttachInput
    → Option FeatureRow
    → Db
    → Reply (ServiceResult Attached) × Db
attach_feature read_task others operation_id input none db =
    (replied (failed feature_not_found), db)
attach_feature read_task others operation_id input (some feature) db =
    elim (get_project_by_id feature.project_id db) [
      | none ↦ (replied (failed not_found), db)
      | some project ↦
          if not (is_legal_attach_state feature.state)
          then (replied (failed illegal_state), db)
          else if is_reattach_state feature.state && has_active_approval input.feature_id db
          then (replied (failed approval_active), db)
          else elim (read_task project.canonical_path input.relative_task_path) [
            | none ↦ (replied (failed validation_failed), db)
            | some parsed ↦
                attach_reply parsed
                  (with_transaction (attach_body operation_id input feature) (others db))
          ]
    ]

unfoldable pub attach_task :
    (String → String → Option ParsedTask)
    → (Db → Db)
    → ℕ
    → AttachInput
    → Db
    → Reply (ServiceResult Attached) × Db
attach_task read_task others operation_id input db =
    attach_feature read_task others operation_id input (get_feature_by_id input.feature_id db) db
