-- ===== src/Task/Approval/Change/Replace.antt =====
-- packages/domain/src/task/task-approval-service.ts, `replaceTask`.
use autopilot_console.Prelude.{
  ℕ, ◌+◌, ◌==◌, Option, some, none, Bool, true, false, not, ◌&&◌, if◌then◌else◌, any, update_where,
  String,
}
use autopilot_console.Feature.State.{tasks_review}
use autopilot_console.Store.Rows.{
  Db, FeatureRow, TaskApprovalRow, IdempotencyRecordRow, IdempotencyResult, replace_result,
}
use autopilot_console.Store.Tx.{
  Tx, Reply, replied, threw, Fault, unique_violation, pure, write, ◌>>◌, with_transaction,
  other_error, done,
}
use autopilot_console.Store.Repositories.{
  get_feature_by_id, get_project_by_id, find_idempotency, update_features,
  create_idempotency_record, append_activity_event, append_audit_event,
}
use autopilot_console.Task.Approval.{
  illegal_state, feature_not_found, not_found, validation_failed, ServiceResult, ok, failed, Actor,
  is_reattach_state, ParsedTask,
}
use autopilot_console.Task.Approval.Change.Invalidate.{is_open_approval, close}

pub record ReplaceInput : Type 0 where
  pub feature_id : ℕ
  pub project_id : ℕ
  pub approval_id : ℕ
  pub relative_task_path : String
  pub operation_key : ℕ
  pub actor : Actor

pub record Replaced : Type 0 where
  pub feature : FeatureRow
  pub summary : ℕ
  pub checksum : ℕ
  pub invalidated_approval_id : ℕ
  pub idempotent : Bool

-- WHERE id = … AND feature_id = … AND project_id = … AND invalidated_at IS NULL
unfoldable pub is_replaceable : ReplaceInput → TaskApprovalRow → Bool
is_replaceable input a =
    is_open_approval input.approval_id input.feature_id a && a.project_id == input.project_id

-- UPDATE features SET state = 'TASKS_REVIEW', … WHERE id = … AND project_id = …
unfoldable pub return_to_review : ReplaceInput → Db → Db
return_to_review input =
    update_features (λ r. r.id == input.feature_id && r.project_id == input.project_id)
      (λ r. record r {
        state = tasks_review;
        task_path = some input.relative_task_path;
        row_version = r.row_version + 1;
      })

unfoldable pub replace_events : ReplaceInput → Db → Db
replace_events input db =
    append_audit_event
      (record {
        actor_id = input.actor.actor_id;
        action = "feature.task.replace";
        target_id = input.feature_id;
        project_id = some input.project_id;
        feature_id = some input.feature_id;
        attempt_id = none;
        result = "success";
      })
      (append_activity_event
        (record {
          project_id = some input.project_id;
          feature_id = some input.feature_id;
          attempt_id = none;
          kind = "feature.task_replaced";
          source = "domain:task-approval-service";
        })
        db)

unfoldable pub close_approval : ReplaceInput → ℕ → Db → Db
close_approval input now db = record db {
  approvals = update_where (is_replaceable input) (close now) db.approvals;
}

-- `true` when the replacement was written, `false` when no such approval was open.
unfoldable pub replace_body : ℕ → ReplaceInput → ParsedTask → Tx Bool
replace_body now input parsed db =
    if not (any (is_replaceable input) db.approvals)
    then done false db
    else ((write (close_approval input now)
          >> (write (return_to_review input)
              >> (write (replace_events input)
                  >> (create_idempotency_record input.operation_key input.project_id
                        (some input.feature_id) none
                        (replace_result input.approval_id parsed.checksum parsed.summary)
                      >> pure true))))
        db)

-- The stored result of the key, if it is this replacement's.
unfoldable pub stored_replacement : ReplaceInput → IdempotencyResult → Option (ℕ × ℕ)
stored_replacement input (replace_result approval_id checksum summary) =
    if approval_id == input.approval_id then some (checksum, summary) else none
stored_replacement input _ = none

-- The answer for a key that is stored: the feature as it is now, or a refusal of another mutation.
unfoldable pub replay_replacement :
    ReplaceInput → IdempotencyRecordRow → FeatureRow → ServiceResult Replaced
replay_replacement input stored current = elim (stored_replacement input stored.result) [
  | none ↦ failed validation_failed
  | some (checksum, summary) ↦ ok (record {
    feature = current;
    summary = summary;
    checksum = checksum;
    invalidated_approval_id = input.approval_id;
    idempotent = true;
  })
]

-- The row of the feature, if it is in the caller's project.
unfoldable pub own_feature : ReplaceInput → Db → Option FeatureRow
own_feature input db = elim (get_feature_by_id input.feature_id db) [
  | none ↦ none
  | some row ↦ if row.project_id == input.project_id then some row else none
]

-- The `catch`: the loser of a race for the key answers with the winner's result, by calling the
-- operation again, which now finds the key stored.
unfoldable pub recover_replace : ReplaceInput → Fault → Db → Reply (ServiceResult Replaced)
recover_replace input other_error db = threw other_error
recover_replace input unique_violation db = elim (find_idempotency input.operation_key db) [
  | none ↦ threw unique_violation
  | some winner ↦ elim (stored_replacement input winner.result) [
    | none ↦ threw unique_violation
    | some _ ↦ elim (own_feature input db) [
      | none ↦ replied (failed feature_not_found)
      | some current ↦ replied (replay_replacement input winner current)
    ]
  ]
]

unfoldable pub replace_reply :
    ReplaceInput → ParsedTask → Reply Bool × Db → Reply (ServiceResult Replaced) × Db
replace_reply input parsed (threw e, db) = (recover_replace input e db, db)
replace_reply input parsed (replied false, db) = (replied (failed not_found), db)
replace_reply input parsed (replied true, db) = elim (get_feature_by_id input.feature_id db) [
  | none ↦ (replied (failed feature_not_found), db)
  | some updated ↦ (
    replied (
        ok (record {
          feature = updated;
          summary = parsed.summary;
          checksum = parsed.checksum;
          invalidated_approval_id = input.approval_id;
          idempotent = false;
        })),
    db,
  )
]

unfoldable pub replace_fresh :
    (String → String → Option ParsedTask)
    → (Db → Db)
    → ℕ
    → ReplaceInput
    → FeatureRow
    → Db
    → Reply (ServiceResult Replaced) × Db
replace_fresh read_task others now input feature db =
    if not (is_reattach_state feature.state)
    then (replied (failed illegal_state), db)
    else elim (get_project_by_id input.project_id db) [
      | none ↦ (replied (failed not_found), db)
      | some project ↦ elim (read_task project.canonical_path input.relative_task_path) [
        | none ↦ (replied (failed validation_failed), db)
        | some parsed ↦
            replace_reply input parsed
              (with_transaction (replace_body now input parsed) (others db))
      ]
    ]

unfoldable pub replace_task :
    (String → String → Option ParsedTask)
    → (Db → Db)
    → ℕ
    → ReplaceInput
    → Db
    → Reply (ServiceResult Replaced) × Db
replace_task read_task others now input db = elim (own_feature input db) [
  | none ↦ (replied (failed feature_not_found), db)
  | some feature ↦ elim (find_idempotency input.operation_key db) [
    | some stored ↦ (replied (replay_replacement input stored feature), db)
    | none ↦ replace_fresh read_task others now input feature db
  ]
]
