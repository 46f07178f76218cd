-- ===== src/Task/Approval/Approve/Safety.antt =====
-- Approve & Queue as its caller sees it: what a created attempt rests on, and that everything else
-- leaves the database alone, whatever other sessions commit between the checks and the transaction.
use autopilot_console.Prelude.{
  ℕ, ◌+◌, ◌==◌, ==_refl, ◌≡◌, refl, sym, ◌∙◌, ap, Option, some, none, true, false, arith, inl, inr,
  ◌⊎◌, String, [], ◌∷◌, ◌++◌, find, find-append_right, find-update_where, find_passes,
}
use autopilot_console.Feature.State.{FeatureState, tasks_review}
use autopilot_console.Feature.Names.{same_state_iff}
use autopilot_console.Feature.Machine.{apply_edge}
use autopilot_console.Store.Rows.{
  Db, FeatureRow, TaskApprovalRow, DevelopmentAttemptRow, JobAttemptStatus, ApprovalResult,
  AttemptResult, IdempotencyRecordRow,
}
use autopilot_console.Store.Tx.{done}
use autopilot_console.Store.Repositories.{get_feature_by_id, update_features, find_idempotency}
use autopilot_console.Task.Approval.{
  TaskArtifactFailureReason, ParsedTask, feature_not_found, cached_approve,
  read_cached_approve_result, transition_command, other_project, given_path,
}
use autopilot_console.Task.Approval.Approve.{
  ApproveInput, Approved, ApproveOutcome, error, approved, approve_locked, unchanged_since,
  move_feature, approve_command, attempt_result,
}
use autopilot_console.Task.Approval.Approve.Laws.{
  Recorded, Committed, approve_row_cases, approval_transition, stored,
}

-- The row that the transaction finds under the feature's id becomes QUEUED, one version on.
module _ (input : ApproveInput) (parsed : ParsedTask) where
  moved_row :
      (row : FeatureRow) (clock : ℕ) (db : Db)
      → get_feature_by_id input.feature_id db ≡ some row
      → row.state ≡ tasks_review
      → get_feature_by_id input.feature_id (
          update_features
            (unchanged_since (approval_transition input parsed row clock))
            (move_feature (approval_transition input parsed row clock))
            db)
        ≡ some (record row { state = FeatureState.queued; row_version = row.row_version + 1 })
  unfolding get_feature_by_id update_features unchanged_since move_feature apply_edge
      approve_command transition_command
  moved_row row clock db found review =
      let t = approval_transition input parsed row clock in
      let kept =
        find-update_where (λ (r : FeatureRow). r.id == input.feature_id) (unchanged_since t)
          (move_feature t) db.features {a = row} (λ x. refl) found in
      let mine =
        find_passes (λ (r : FeatureRow). r.id == input.feature_id) db.features {a = row} found in
      let same = (same_state_iff row.state tasks_review).1 review in
      kept ∙ rw (mine, same, ==_refl row.row_version)

  abbrev pub Nothing : ApproveOutcome → Db → Db → Type 0
  Nothing out db db' = (why : TaskArtifactFailureReason) × (out ≡ error why) × (db' ≡ db)

  abbrev pub Replayed : ApproveOutcome → Db → Db → Type 0
  Replayed out db db' = (a : Approved) × (out ≡ approved a) × (a.idempotent ≡ true) × (db' ≡ db)

  abbrev pub Commits : ApproveOutcome → Db → Db → Type 0
  Commits out db db' =
      (row : FeatureRow) × (get_feature_by_id input.feature_id db ≡ some row)
      × Committed input parsed row db out db'

  pub locked_cases :
      (cached : Option (ApprovalResult × AttemptResult)) (current : Option FeatureRow) (db : Db)
      (out : ApproveOutcome) (db' : Db)
      → get_feature_by_id input.feature_id db ≡ current
      → approve_locked input parsed cached current db ≡ done out db'
      → Nothing out db db' ⊎ (Replayed out db db' ⊎ Commits out db db')
  unfolding approve_locked
  locked_cases (some (approval, attempt)) (some row) db out db' found h = inr (
      inl (
        record { feature = row; approval = approval; attempt = attempt; idempotent = true },
        ground arith,
        refl,
        ground arith,
      ))
  locked_cases none (some row) db out db' found h =
      elim (approve_row_cases input parsed row db out db' h) [
        | inl nothing ↦ inl nothing
        | inr committed ↦ inr (inr (row, found, committed))
      ]
  locked_cases none none db out db' found h = inl (feature_not_found, ground arith, ground arith)
  locked_cases (some c) none db out db' found h =
      inl (feature_not_found, ground arith, ground arith)

-- What a newly created attempt rests on. `seen` is the database that the transaction found.
pub record Created (input : ApproveInput) (seen : Db) (a : Approved) (db' : Db) : Type 0 where
  pub row : FeatureRow
  pub approval : TaskApprovalRow
  pub attempt : DevelopmentAttemptRow
  pub found : get_feature_by_id input.feature_id seen ≡ some row
  pub in_review : row.state ≡ tasks_review
  pub in_project : other_project input.project_id row ≡ false
  pub has_task : given_path row.task_path ≡ some approval.relative_task_path
  pub moved :
      get_feature_by_id input.feature_id db'
      ≡ some (record row { state = FeatureState.queued; row_version = row.row_version + 1 })
  pub approvals : db'.approvals ≡ seen.approvals ++ approval ∷ []
  pub attempts : db'.attempts ≡ seen.attempts ++ attempt ∷ []
  pub displayed : approval.checksum ≡ input.displayed_checksum
  pub valid : approval.invalidated_at ≡ none
  pub approved_feature : approval.feature_id ≡ input.feature_id
  pub attempt_approval : attempt.task_approval_id ≡ approval.id
  pub attempt_feature : attempt.feature_id ≡ input.feature_id
  pub attempt_status : attempt.status ≡ JobAttemptStatus.queued
  pub attempt_branch : attempt.branch_name ≡ row.branch_name
  pub answered_attempt : a.attempt ≡ attempt_result attempt
  pub new : a.idempotent ≡ false
  pub stored_result : cached_approve input.operation_key db' ≡ some (a.approval, a.attempt)

module _ (input : ApproveInput) (parsed : ParsedTask) (seen : Db) (a : Approved) (db' : Db)
    (displayed : input.displayed_checksum ≡ parsed.checksum) where
  response :
      (x : ApprovalResult) (y : AttemptResult) (f : FeatureRow)
      → approved a
        ≡ approved (record { feature = f; approval = x; attempt = y; idempotent = false })
      → (a.approval ≡ x) × (a.attempt ≡ y) × (a.idempotent ≡ false)
  response x y f e = ground arith

  stored_answer :
      (row : FeatureRow) (path : String) (mid : Db)
      (r : Recorded input parsed row path mid (approved a) db')
      → cached_approve input.operation_key db' ≡ some (a.approval, a.attempt)
  unfolding cached_approve find_idempotency
  stored_answer row path mid r =
      let new = stored input parsed row r.approval r.attempt in
      let p = λ (x : IdempotencyRecordRow). x.operation_key == input.operation_key in
      let (same_approval, same_attempt, fresh) = response _ _ _ r.answered in
      ap (λ l. read_cached_approve_result (find p l)) r.idempotency
      ∙ ap read_cached_approve_result (find-append_right p mid.idempotency (new ∷ []) r.unused_key)
      ∙ rw (==_refl input.operation_key, same_approval, same_attempt)

  pub Commits-Created : Commits input parsed (approved a) seen db' → Created input seen a db'
  unfolding get_feature_by_id update_features
  Commits-Created (row, found, c) =
      let r = c.recorded_in in
      record {
        row = row;
        approval = r.approval;
        attempt = r.attempt;
        found = found;
        in_review = c.in_review;
        in_project = c.in_project;
        has_task = c.has_task ∙ ap some (sym r.approved_path);
        moved =
            ap (find (λ (x : FeatureRow). x.id == input.feature_id)) r.features
            ∙ moved_row input parsed row seen.clock seen found c.in_review;
        approvals = r.approvals;
        attempts = r.attempts;
        displayed = r.approved_file ∙ sym displayed;
        valid = r.valid;
        approved_feature = r.approved_feature;
        attempt_approval = r.attempt_approval;
        attempt_feature = r.attempt_feature;
        attempt_status = r.attempt_status;
        attempt_branch = r.attempt_branch;
        answered_attempt = (response _ _ _ r.answered).1;
        new = (response _ _ _ r.answered).2;
        stored_result = stored_answer row c.path _ r;
      }
