-- ===== src/Store/Inserts.antt =====
-- What a successful insert has checked, and what it has written.
use autopilot_console.Prelude.{
  ℕ, ◌+◌, ◌≡◌, ◌==◌, ap, find, Option, none, false, arith, [], ◌∷◌, ◌++◌, String,
}
use autopilot_console.Store.Rows.{
  Db, TaskApprovalRow, DevelopmentAttemptRow, JobAttemptStatus, IdempotencyResult,
  IdempotencyRecordRow,
}
use autopilot_console.Store.Tx.{done}
use autopilot_console.Store.Repositories.{
  find_idempotency, create_task_approval, create_development_attempt, create_idempotency_record,
  attempt_clashes,
}

module _ (project_id feature_id : ℕ) (path : String) (checksum requirements admin : ℕ) (db db' : Db)
    (row : TaskApprovalRow)
    (made : create_task_approval project_id feature_id path checksum requirements admin db
      ≡ done row db') where
  pub create_task_approval_row : row ≡ record {
    id = db.next_id;
    project_id = project_id;
    feature_id = feature_id;
    relative_task_path = path;
    checksum = checksum;
    requirements_snapshot = requirements;
    approved_by_admin_id = admin;
    invalidated_at = none;
  }
  unfolding create_task_approval
  create_task_approval_row = ground arith

  pub create_task_approval_db :
      db' ≡ record db { approvals = db.approvals ++ row ∷ []; next_id = db.next_id + 1 }
  unfolding create_task_approval
  create_task_approval_db = ground arith

module _ (project_id feature_id approval_id : ℕ) (branch : String) (key : ℕ)
    (status : JobAttemptStatus) (predecessor : Option ℕ) (db db' : Db) (row : DevelopmentAttemptRow)
    (made : create_development_attempt project_id feature_id approval_id branch key status
        predecessor db
      ≡ done row db') where
  -- The identity of a new attempt.
  pub create_development_attempt_row :
      (row.id ≡ db.next_id)
      × (row.project_id ≡ project_id)
      × (row.feature_id ≡ feature_id)
      × (row.task_approval_id ≡ approval_id)
      × (row.operation_key ≡ key)
      × (row.status ≡ status)
      × (row.predecessor_attempt_id ≡ predecessor)
      × (row.branch_name ≡ branch)
  unfolding create_development_attempt
  create_development_attempt_row = ground arith

  pub create_development_attempt_db :
      db' ≡ record db { attempts = db.attempts ++ row ∷ []; next_id = db.next_id + 1 }
  unfolding create_development_attempt
  create_development_attempt_db = ground arith

  pub create_development_attempt_free : attempt_clashes project_id key status db ≡ false
  unfolding create_development_attempt
  create_development_attempt_free = ground arith

module _ (key project_id : ℕ) (feature_id attempt_id : Option ℕ) (result : IdempotencyResult)
    (db db' : Db)
    (made : create_idempotency_record key project_id feature_id attempt_id result db
      ≡ done tt db') where
  pub create_idempotency_record_fresh : find_idempotency key db ≡ none
  unfolding create_idempotency_record
  create_idempotency_record_fresh = ground arith

  pub create_idempotency_record_db : db' ≡ record db {
    idempotency =
        db.idempotency
        ++ record {
          operation_key = key;
          project_id = project_id;
          feature_id = feature_id;
          attempt_id = attempt_id;
          result = result;
        }
          ∷ [];
  }
  unfolding create_idempotency_record
  create_idempotency_record_db = ground arith

pub find_idempotency_same :
    (key : ℕ) (db db' : Db)
    → db.idempotency ≡ db'.idempotency
    → find_idempotency key db ≡ find_idempotency key db'
unfolding find_idempotency
find_idempotency_same key db db' e =
    ap (find (λ (r : IdempotencyRecordRow). r.operation_key == key)) e
