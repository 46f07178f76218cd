-- ===== src/Task/Approval/Attach/Laws.antt =====
-- What attaching a task does to the feature, whatever other sessions commit in between.
use autopilot_console.Prelude.{
  ℕ, ◌+◌, ◌==◌, ◌≡◌, refl, ◌∙◌, ap, some, none, true, false, arith, inl, inr, ◌⊎◌, String,
  if◌then◌else◌, find-update_where, find_passes,
}
use autopilot_console.Feature.State.{FeatureState, planned, tasks_review}
use autopilot_console.Feature.Transition.{
  human_and_validation, applied, rejected, idempotent, FeatureTransitionResult,
  FeatureTransitionCommand,
}
use autopilot_console.Feature.Machine.{apply_feature_transition}
use autopilot_console.Feature.Machine.Table.{Allowed, attach}
use autopilot_console.Feature.Machine.Apply.{applied-Accepts, replay_idempotent}
use autopilot_console.Store.Rows.{Db, FeatureRow}
use autopilot_console.Store.Tx.{done, Tx}
use autopilot_console.Store.Repositories.{get_feature_by_id, update_features}
use autopilot_console.Task.Approval.{
  is_tasks_review, is_reattach_state, is_legal_attach_state, transition_command,
}
use autopilot_console.Task.Approval.Attach.{
  AttachInput, set_task, set_path, review_transition, enter_review, reset_state, attach_cause,
}

-- The row after an attachment: a stopped feature passes through PLANNED and takes two versions.
abbrev pub attached_row : String → FeatureRow → FeatureRow
attached_row path row = record row {
  state = tasks_review;
  task_path = some path;
  row_version =
      if is_reattach_state row.state then row.row_version + 1 + 1 else row.row_version + 1;
}

module _ (id : ℕ) (db : Db) (row : FeatureRow) (found : get_feature_by_id id db ≡ some row) where
  set_task_found :
      (state : FeatureState) (path : String)
      → get_feature_by_id id (set_task id state path db)
        ≡ some
            (record row { state = state; task_path = some path; row_version = row.row_version + 1 })
  unfolding get_feature_by_id set_task update_features
  set_task_found state path =
      let mine = find_passes (λ (r : FeatureRow). r.id == id) db.features {a = row} found in
      find-update_where (λ (r : FeatureRow). r.id == id) (λ r. r.id == id)
        (λ r. record r { state = state; task_path = some path; row_version = r.row_version + 1 })
        db.features {a = row} (λ x. refl) found
      ∙ rw mine

  set_path_found :
      (path : String)
      → get_feature_by_id id (set_path id path db)
        ≡ some (record row { task_path = some path; row_version = row.row_version + 1 })
  unfolding get_feature_by_id set_path update_features
  set_path_found path =
      let mine = find_passes (λ (r : FeatureRow). r.id == id) db.features {a = row} found in
      find-update_where (λ (r : FeatureRow). r.id == id) (λ r. r.id == id)
        (λ r. record r { task_path = some path; row_version = r.row_version + 1 }) db.features
        {a = row} (λ x. refl) found
      ∙ rw mine

attach_from : {s : FeatureState} → Allowed s tasks_review human_and_validation → s ≡ planned
attach_from attach = refl

module _ (operation_id : ℕ) (input : AttachInput) (row : FeatureRow) where
  abbrev command : FeatureState → FeatureTransitionCommand
  command prev =
      transition_command input.feature_id prev tasks_review human_and_validation attach_cause
        operation_id row.row_version none

  -- Only PLANNED leads to review, and what is not rejected is written.
  reviewed :
      (prev : FeatureState) (res : FeatureTransitionResult) (now : ℕ) (db db' : Db)
      → apply_feature_transition now (command prev) ≡ res
      → review_transition input res db ≡ done tt db'
      → (prev ≡ planned)
        × (db' ≡ set_task input.feature_id tasks_review input.relative_task_path db)
  unfolding review_transition transition_command
  reviewed prev (applied t) now db db' e h =
      let accepted = (applied-Accepts now (command prev) t e).0 in
      (attach_from accepted.permitted, ground arith)
  reviewed prev (rejected _ _ _) now db db' e h = absurd (ground arith)
  reviewed prev (idempotent t) now db db' e h =
      let replays = (replay_idempotent now (command prev) t).0 e in absurd (ground arith)

module _ (operation_id : ℕ) (input : AttachInput) (row : FeatureRow) (db db' : Db)
    (found : get_feature_by_id input.feature_id db ≡ some row) where
  abbrev pub Entered : Type 0
  Entered =
      (is_legal_attach_state row.state ≡ true)
      × (get_feature_by_id input.feature_id db' ≡ some (attached_row input.relative_task_path row))

  abbrev pub entry : Tx (Unit {0})
  entry = enter_review operation_id input row

  -- Entering review leaves the attached row in place, and happens from a legal state only.
  entered_again :
      is_tasks_review row.state ≡ false
      → is_reattach_state row.state ≡ true
      → entry (reset_state input row db) ≡ done tt db'
      → Entered
  unfolding enter_review reset_state
  entered_again other again h =
      let path = input.relative_task_path in
      let mid = set_task input.feature_id planned path db in
      let first = set_task_found input.feature_id db row found planned path in
      let (_, out) =
        reviewed operation_id input row planned _ _ mid db' refl (rw (other, again) at h) in
      (
        ground arith,
        ap (get_feature_by_id input.feature_id) out
            ∙ set_task_found input.feature_id mid _ first tasks_review path
            ∙ rw again,
      )

  pub entered :
      (is_tasks_review row.state ≡ true) ⊎ (is_tasks_review row.state ≡ false)
      → (is_reattach_state row.state ≡ true) ⊎ (is_reattach_state row.state ≡ false)
      → entry (reset_state input row db) ≡ done tt db'
      → Entered
  unfolding enter_review reset_state
  entered (inr other) (inl again) h = entered_again other again h
  entered (inl review) _ h =
      let out : db' ≡ set_path input.feature_id input.relative_task_path db = ground arith in
      (
        ground arith,
        ap (get_feature_by_id input.feature_id) out
            ∙ set_path_found input.feature_id db row found input.relative_task_path
            ∙ ground arith,
      )
  entered (inr other) (inr first) h =
      let (from_planned, out) =
        reviewed operation_id input row row.state _ _ db db' refl (rw (other, first) at h) in
      (
        rw from_planned,
        ap (get_feature_by_id input.feature_id) out
            ∙ set_task_found input.feature_id db row found tasks_review input.relative_task_path
            ∙ rw first,
      )
