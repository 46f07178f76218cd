-- ===== src/Task/Approval/Approve/Entry.antt =====
-- packages/domain/src/task/task-approval-service.ts, `approveAndQueue`: the checks before the
-- transaction, and the answer after it.
use autopilot_console.Prelude.{◌==◌, Option, some, none, true, not, String, if◌then◌else◌}
use autopilot_console.Store.Rows.{Db, FeatureRow}
use autopilot_console.Store.Tx.{
  Fault, Reply, replied, threw, with_transaction, unique_violation, other_error,
}
use autopilot_console.Store.Repositories.{get_feature_by_id, get_project_by_id, find_idempotency}
use autopilot_console.Task.Approval.{
  validation_failed, illegal_state, stale_checksum, not_found, feature_not_found, ServiceResult, ok,
  failed, ParsedTask, is_tasks_review, given_path, other_project, cached_approve,
}
use autopilot_console.Task.Approval.Approve.{
  ApproveInput, Approved, ApproveOutcome, error, approved, approve_body,
}

-- What the checks before the transaction come to.
pub data ApproveCheck : Type 0 where
  answer : ServiceResult Approved → ApproveCheck
  proceed : ParsedTask → ApproveCheck

-- The checks of a fresh key: feature, project, state, task path, file, checksum.
unfoldable pub check_feature :
    (String → String → Option ParsedTask) → ApproveInput → Option FeatureRow → Db → ApproveCheck
check_feature read_task input none db = answer (failed feature_not_found)
check_feature read_task input (some row) db =
    if other_project input.project_id row
    then answer (failed not_found)
    else if not (is_tasks_review row.state)
    then answer (failed illegal_state)
    else elim (given_path row.task_path) [
      | none ↦ answer (failed validation_failed)
      | some path ↦ elim (get_project_by_id row.project_id db) [
        | none ↦ answer (failed not_found)
        | some project ↦ elim (read_task project.canonical_path path) [
          | none ↦ answer (failed validation_failed)
          | some parsed ↦
              if input.displayed_checksum == parsed.checksum
              then proceed parsed
              else answer (failed stale_checksum)
        ]
      ]
    ]

-- The fast path for a key that is stored already, then the checks.
unfoldable pub check_approve :
    (String → String → Option ParsedTask) → ApproveInput → Db → ApproveCheck
check_approve read_task input db = elim (find_idempotency input.operation_key db) [
  | none ↦ check_feature read_task input (get_feature_by_id input.feature_id db) db
  | some _ ↦ elim (get_feature_by_id input.feature_id db) [
    | none ↦ answer (failed feature_not_found)
    | some current ↦
        if other_project input.project_id current
        then answer (failed not_found)
        else elim (cached_approve input.operation_key db) [
          | none ↦ check_feature read_task input (some current) db
          | some (approval, attempt) ↦ answer (
              ok (record {
                feature = current;
                approval = approval;
                attempt = attempt;
                idempotent = true;
              }))
        ]
  ]
]

-- The `catch`: a lost uniqueness race is answered from the winner's record, or as an illegal state.
unfoldable pub recover_approve : ApproveInput → Fault → Db → Reply (ServiceResult Approved)
recover_approve input other_error db = threw other_error
recover_approve input unique_violation db = elim (cached_approve input.operation_key db) [
  | none ↦ replied (failed illegal_state)
  | some (approval, attempt) ↦ elim (get_feature_by_id input.feature_id db) [
    | none ↦ replied (failed illegal_state)
    | some current ↦ replied (
        ok
          (record { feature = current; approval = approval; attempt = attempt; idempotent = true }))
  ]
]

unfoldable pub approve_reply :
    ApproveInput → Reply ApproveOutcome × Db → Reply (ServiceResult Approved) × Db
approve_reply input (replied (error reason), db) = (replied (failed reason), db)
approve_reply input (replied (approved a), db) = (replied (ok a), db)
approve_reply input (threw e, db) = (recover_approve input e db, db)

unfoldable pub approve_checked :
    (Db → Db) → ApproveInput → Db → ApproveCheck → Reply (ServiceResult Approved) × Db
approve_checked others input db (answer result) = (replied result, db)
approve_checked others input db (proceed parsed) =
    approve_reply input (with_transaction (approve_body input parsed) (others db))

unfoldable pub approve_and_queue :
    (String → String → Option ParsedTask)
    → (Db → Db)
    → ApproveInput
    → Db
    → Reply (ServiceResult Approved) × Db
approve_and_queue read_task others input db =
    approve_checked others input db (check_approve read_task input db)
