-- ===== src/Task/Approval/Approve/Laws.antt =====
-- What the transaction of Approve & Queue writes.
use mathlib.Core.Path.{subst}
use autopilot_console.Prelude.{
  ℕ, ◌==◌, ◌≡◌, refl, sym, ◌∙◌, ap, some, none, false, arith, Bool-cases, Option-cases, inl, inr,
  count_where, String, [], ◌∷◌, ◌++◌, ◌⊎◌, ==_iff,
}
use autopilot_console.Feature.State.{tasks_review}
use autopilot_console.Feature.Transition.{
  applied, rejected, idempotent, AppliedFeatureTransition, FeatureTransitionResult,
}
use autopilot_console.Feature.Machine.{apply_feature_transition, apply_edge}
use autopilot_console.Feature.Machine.Apply.{applied-Accepts}
use autopilot_console.Store.Rows.{
  Db, FeatureRow, TaskApprovalRow, DevelopmentAttemptRow, JobAttemptStatus, IdempotencyRecordRow,
  approve_result,
}
use autopilot_console.Store.Tx.{done, bind-done}
use autopilot_console.Store.Repositories.{
  get_feature_by_id, find_idempotency, create_task_approval, create_development_attempt,
  create_idempotency_record, append_activity_event, append_audit_event, update_features,
}
use autopilot_console.Store.Inserts.{
  create_task_approval_row, create_task_approval_db, create_development_attempt_row,
  create_development_attempt_db, find_idempotency_same,
}
use autopilot_console.Task.Approval.{
  TaskArtifactFailureReason, illegal_state, not_found, validation_failed, ParsedTask,
  is_tasks_review, given_path, other_project,
}
use autopilot_console.Task.Approval.Approve.{
  ApproveInput, ApproveOutcome, error, approved, approve_row, commit_transition, record_approval,
  record_attempt, record_events, unchanged_since, move_feature, approve_transition, approve_command,
  approval_result, attempt_result,
}

module _ (input : ApproveInput) (parsed : ParsedTask) where
  abbrev pub stored : FeatureRow → TaskApprovalRow → DevelopmentAttemptRow → IdempotencyRecordRow
  stored row approval attempt = record {
    operation_key = input.operation_key;
    project_id = row.project_id;
    feature_id = some input.feature_id;
    attempt_id = some attempt.id;
    result = approve_result (approval_result approval parsed) (attempt_result attempt);
  }

  -- The new rows, and how they hang together: the approval of the file that was read, the attempt
  -- for it, and the stored result of the operation key.
  pub record Recorded (row : FeatureRow) (path : String) (db : Db) (out : ApproveOutcome) (db' : Db)
      : Type 0 where
    pub approval : TaskApprovalRow
    pub attempt : DevelopmentAttemptRow
    pub approvals : db'.approvals ≡ db.approvals ++ approval ∷ []
    pub attempts : db'.attempts ≡ db.attempts ++ attempt ∷ []
    pub idempotency : db'.idempotency ≡ db.idempotency ++ stored row approval attempt ∷ []
    pub features : db'.features ≡ db.features
    pub unused_key : find_idempotency input.operation_key db ≡ none
    pub approved_file : approval.checksum ≡ parsed.checksum
    pub approved_path : approval.relative_task_path ≡ path
    pub approved_feature : approval.feature_id ≡ input.feature_id
    pub valid : approval.invalidated_at ≡ none
    pub attempt_feature : attempt.feature_id ≡ input.feature_id
    pub attempt_approval : attempt.task_approval_id ≡ approval.id
    pub attempt_status : attempt.status ≡ JobAttemptStatus.queued
    pub attempt_branch : attempt.branch_name ≡ row.branch_name
    pub answered :
        out
        ≡ approved (record {
          feature = elim (get_feature_by_id input.feature_id db') [ none ↦ row | some f ↦ f ];
          approval = approval_result approval parsed;
          attempt = attempt_result attempt;
          idempotent = false;
        })

  -- The last writes add the idempotency record, and leave the rows before it alone.
  record_events_lem :
      (row : FeatureRow) (approval : TaskApprovalRow) (attempt : DevelopmentAttemptRow) (db : Db)
      (out : ApproveOutcome) (db' : Db)
      → record_events input parsed row approval attempt db ≡ done out db'
      → (db'.approvals ≡ db.approvals)
        × (db'.attempts ≡ db.attempts)
        × (db'.features ≡ db.features)
        × (db'.idempotency ≡ db.idempotency ++ stored row approval attempt ∷ [])
        × (find_idempotency input.operation_key db ≡ none)
        × (out
            ≡ approved (record {
              feature = elim (get_feature_by_id input.feature_id db') [ none ↦ row | some f ↦ f ];
              approval = approval_result approval parsed;
              attempt = attempt_result attempt;
              idempotent = false;
            }))
  unfolding record_events create_idempotency_record append_activity_event append_audit_event
      find_idempotency
  record_events_lem row approval attempt db out db' h = ground arith

  module _ (row : FeatureRow) (path : String) (db : Db) (out : ApproveOutcome) (db' : Db) where
    recorded :
        (approval : TaskApprovalRow) (attempt : DevelopmentAttemptRow) (db1 db2 : Db)
        → create_task_approval row.project_id input.feature_id path parsed.checksum
            parsed.requirements input.actor.actor_id db
          ≡ done approval db1
        → create_development_attempt row.project_id input.feature_id approval.id row.branch_name
            input.operation_key JobAttemptStatus.queued none db1
          ≡ done attempt db2
        → record_events input parsed row approval attempt db2 ≡ done out db'
        → Recorded row path db out db'
    recorded approval attempt db1 db2 made1 made2 h =
        let a = create_task_approval_row _ _ _ _ _ _ _ _ _ made1 in
        let b = create_development_attempt_row _ _ _ _ _ _ _ _ _ _ made2 in
        let in1 = create_task_approval_db _ _ _ _ _ _ _ _ _ made1 in
        let in2 = create_development_attempt_db _ _ _ _ _ _ _ _ _ _ made2 in
        let (approvals, attempts, features, idempotency, unused, response) =
          record_events_lem row approval attempt db2 out db' h in
        record {
          approval = approval;
          attempt = attempt;
          approvals =
              approvals ∙ ap (λ (d : Db). d.approvals) in2 ∙ ap (λ (d : Db). d.approvals) in1;
          attempts =
              attempts
              ∙ ap (λ (d : Db). d.attempts) in2
              ∙ ap (λ (d : Db). d.attempts ++ attempt ∷ []) in1;
          idempotency =
              idempotency
              ∙ ap (λ (d : Db). d.idempotency ++ stored row approval attempt ∷ []) in2
              ∙ ap (λ (d : Db). d.idempotency ++ stored row approval attempt ∷ []) in1;
          features = features ∙ ap (λ (d : Db). d.features) in2 ∙ ap (λ (d : Db). d.features) in1;
          unused_key =
              find_idempotency_same input.operation_key db db2
                (sym (ap (λ (d : Db). d.idempotency) in2 ∙ ap (λ (d : Db). d.idempotency) in1))
              ∙ unused;
          approved_file = ap (λ (r : TaskApprovalRow). r.checksum) a;
          approved_path = ap (λ (r : TaskApprovalRow). r.relative_task_path) a;
          approved_feature = ap (λ (r : TaskApprovalRow). r.feature_id) a;
          valid = ap (λ (r : TaskApprovalRow). r.invalidated_at) a;
          attempt_feature = b.2;
          attempt_approval = b.3;
          attempt_status = b.5;
          attempt_branch = b.7;
          answered = response;
        }

    pub record_approval-Recorded :
        record_approval input parsed row path db ≡ done out db' → Recorded row path db out db'
    unfolding record_approval record_attempt
    record_approval-Recorded h =
        let (approval, db1, made1, h1) =
          bind-done
            (create_task_approval row.project_id input.feature_id path parsed.checksum
              parsed.requirements input.actor.actor_id)
            (record_attempt input parsed row) db h in
        let (attempt, db2, made2, h2) =
          bind-done
            (create_development_attempt row.project_id input.feature_id approval.id row.branch_name
              input.operation_key JobAttemptStatus.queued none)
            (record_events input parsed row approval) db1 h1 in
        recorded approval attempt db1 db2 made1 made2 h2

  -- The transition that the transaction commits, for the row that it found.
  abbrev pub approval_transition : FeatureRow → ℕ → AppliedFeatureTransition
  approval_transition row clock = apply_edge clock (approve_command input row)

  -- The row that was found was in review, in the caller's project, with a task, and was moved.
  pub record Committed (row : FeatureRow) (db : Db) (out : ApproveOutcome) (db' : Db) : Type 0 where
    pub path : String
    pub in_review : row.state ≡ tasks_review
    pub in_project : other_project input.project_id row ≡ false
    pub has_task : given_path row.task_path ≡ some path
    pub one_row : count_where (unchanged_since (approval_transition row db.clock)) db.features ≡ 1
    pub recorded_in :
        Recorded row path
          (update_features
            (unchanged_since (approval_transition row db.clock))
            (move_feature (approval_transition row db.clock))
            db)
          out
          db'

  module _ (row : FeatureRow) (db : Db) (out : ApproveOutcome) (db' : Db) where
    commit_transition_cases :
        (path : String) (t : AppliedFeatureTransition)
        → commit_transition input parsed row path t db ≡ done out db'
        → ((out ≡ error illegal_state) × (db' ≡ db))
          ⊎ ((count_where (unchanged_since t) db.features ≡ 1)
              × Recorded row path (update_features (unchanged_since t) (move_feature t) db) out db')
    unfolding commit_transition
    commit_transition_cases path t h =
        elim (Bool-cases (count_where (unchanged_since t) db.features == 1)) [
          | inr miss ↦ inl (ground arith, ground arith)
          | inl hit ↦
              inr ((==_iff _ _).0 hit, record_approval-Recorded row path _ out db' (ground arith))
        ]

    abbrev WroteNothing : Type 0
    WroteNothing = (why : TaskArtifactFailureReason) × (out ≡ error why) × (db' ≡ db)

    with_path :
        (path : String) (res : FeatureTransitionResult)
        → apply_feature_transition db.clock (approve_command input row) ≡ res
        → row.state ≡ tasks_review
        → other_project input.project_id row ≡ false
        → given_path row.task_path ≡ some path
        → approve_transition input parsed row path res db ≡ done out db'
        → WroteNothing ⊎ Committed row db out db'
    unfolding approve_transition
    with_path path (applied t) res state mine given h =
        let same = (applied-Accepts db.clock (approve_command input row) t res).1 in
        let taken =
          subst (λ t'. commit_transition input parsed row path t' db ≡ done out db') same h in
        elim (commit_transition_cases path (approval_transition row db.clock) taken) [
          | inl (e, d) ↦ inl (illegal_state, e, d)
          | inr (one, r) ↦ inr (record {
            path = path;
            in_review = state;
            in_project = mine;
            has_task = given;
            one_row = one;
            recorded_in = r;
          })
        ]
    with_path path (rejected _ _ _) res state mine given h =
        inl (illegal_state, ground arith, ground arith)
    with_path path (idempotent _) res state mine given h =
        inl (illegal_state, ground arith, ground arith)

    -- Either the transaction answers with an error and writes nothing, or it commits.
    pub approve_row_cases :
        approve_row input parsed row db ≡ done out db' → WroteNothing ⊎ Committed row db out db'
    unfolding approve_row
    approve_row_cases h = elim (Bool-cases (other_project input.project_id row)) [
      | inl other ↦ inl (not_found, ground arith, ground arith)
      | inr mine ↦ elim (Bool-cases (is_tasks_review row.state)) [
        | inr elsewhere ↦ inl (illegal_state, ground arith, ground arith)
        | inl review ↦ elim (Option-cases (given_path row.task_path)) [
          | inl missing ↦ inl (validation_failed, ground arith, ground arith)
          | inr (path, given) ↦
              with_path path _ refl (ground arith) mine given
                (rw (mine, review, given, approve_row) at h)
        ]
      ]
    ]
