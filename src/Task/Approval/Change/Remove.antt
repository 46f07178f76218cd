-- ===== src/Task/Approval/Change/Remove.antt =====
-- packages/domain/src/task/task-approval-service.ts, `removeTask`.
use autopilot_console.Prelude.{
  ℕ, ◌+◌, ◌==◌, ◌≡◌, refl, ◌∙◌, some, none, not, if◌then◌else◌, arith, find-update_where,
  find_passes,
}
use autopilot_console.Feature.State.{planned, tasks_review}
use autopilot_console.Feature.Transition.{
  human, applied, rejected, FeatureTransitionResult, FeatureTransitionCommand,
  AppliedFeatureTransition,
}
use autopilot_console.Feature.Machine.{apply_feature_transition, apply_edge}
use autopilot_console.Feature.Machine.Table.{remove}
use autopilot_console.Feature.Machine.Apply.{Accepts-applied, Accepts}
use autopilot_console.Store.Rows.{Db, FeatureRow}
use autopilot_console.Store.Tx.{
  Tx, Reply, replied, threw, throw, read, write, ◌>>=◌, ◌>>◌, with_transaction, other_error, done,
}
use autopilot_console.Store.Repositories.{
  get_feature_by_id, update_features, append_activity_event, append_audit_event,
}
use autopilot_console.Task.Approval.{
  illegal_state, feature_not_found, ServiceResult, ok, failed, Actor, is_tasks_review,
  transition_command,
}
use autopilot_console.Task.Approval.Attach.{required}

pub record RemoveInput : Type 0 where
  pub feature_id : ℕ
  pub actor : Actor

abbrev remove_cause : ℕ
remove_cause = 2

-- UPDATE features SET state = 'PLANNED', task_path = NULL, row_version = row_version + 1 WHERE id = …
unfoldable pub clear_task : ℕ → Db → Db
clear_task feature_id =
    update_features (λ r. r.id == feature_id)
      (λ r. record r { state = planned; task_path = none; row_version = r.row_version + 1 })

-- The transition is asked for from TASKS_REVIEW, whatever state the row has, and no observed state
-- is handed over.
unfoldable pub leave_review : ℕ → RemoveInput → FeatureRow → Db → FeatureTransitionResult
leave_review operation_id input current db = apply_feature_transition db.clock (
    transition_command input.feature_id tasks_review planned human remove_cause operation_id
      current.row_version none)

unfoldable pub remove_events : RemoveInput → FeatureRow → Db → Db
remove_events input feature db =
    append_audit_event
      (record {
        actor_id = input.actor.actor_id;
        action = "feature.task.remove";
        target_id = input.feature_id;
        project_id = some feature.project_id;
        feature_id = some input.feature_id;
        attempt_id = none;
        result = "success";
      })
      (append_activity_event
        (record {
          project_id = some feature.project_id;
          feature_id = some input.feature_id;
          attempt_id = none;
          kind = "feature.task_removed";
          source = "domain:task-approval-service";
        })
        db)

unfoldable pub remove_finish : RemoveInput → FeatureRow → FeatureTransitionResult → Tx FeatureRow
remove_finish input feature (rejected _ _ _) = throw other_error
remove_finish input feature _ = do
  write (clear_task input.feature_id)
  write (remove_events input feature)
  updated ← read (get_feature_by_id input.feature_id)
  required updated

unfoldable pub remove_body : ℕ → RemoveInput → FeatureRow → Tx FeatureRow
remove_body operation_id input feature = do
  found ← read (get_feature_by_id input.feature_id)
  current ← required found
  transition ← read (leave_review operation_id input current)
  remove_finish input feature transition

unfoldable pub remove_reply : Reply FeatureRow × Db → Reply (ServiceResult FeatureRow) × Db
remove_reply (threw e, db) = (threw e, db)
remove_reply (replied feature, db) = (replied (ok feature), db)

unfoldable pub remove_task :
    (Db → Db) → ℕ → RemoveInput → Db → Reply (ServiceResult FeatureRow) × Db
remove_task others operation_id input db = elim (get_feature_by_id input.feature_id db) [
  | none ↦ (replied (failed feature_not_found), db)
  | some feature ↦
      if not (is_tasks_review feature.state)
      then (replied (failed illegal_state), db)
      else remove_reply (with_transaction (remove_body operation_id input feature) (others db))
]

abbrev pub removed_row : FeatureRow → FeatureRow
removed_row row = record row {
  state = planned;
  task_path = none;
  row_version = row.row_version + 1;
}

clear_task_found :
    (id : ℕ) (db : Db) (row : FeatureRow)
    → get_feature_by_id id db ≡ some row
    → get_feature_by_id id (clear_task id db) ≡ some (removed_row row)
unfolding get_feature_by_id clear_task update_features
clear_task_found id db row found =
    let mine = find_passes (λ (r : FeatureRow). r.id == id) db.features {a = row} found in
    find-update_where (λ (r : FeatureRow). r.id == id) (λ r. r.id == id) removed_row db.features
      {a = row} (λ x. refl) found
    ∙ rw mine

-- The service is never told of the row's state, so it always accepts.
leave_review-applied :
    (operation_id : ℕ) (input : RemoveInput) (row : FeatureRow) (db : Db)
    → (t : AppliedFeatureTransition) × (leave_review operation_id input row db ≡ applied t)
unfolding leave_review transition_command
leave_review-applied operation_id input row db =
    let command : FeatureTransitionCommand =
      transition_command input.feature_id tasks_review planned human remove_cause operation_id
        row.row_version none in
    let accepted : Accepts command = record {
      fresh = λ r replay. cc (replay.0);
      current = refl;
      observed = λ seen e. cc e;
      permitted = remove;
    } in
    (apply_edge db.clock command, Accepts-applied db.clock command accepted)

module _ (operation_id : ℕ) (input : RemoveInput) (feature row : FeatureRow) (db : Db)
    (found : get_feature_by_id input.feature_id db ≡ some row) where
  abbrev removed_db : Db
  removed_db = remove_events input feature (clear_task input.feature_id db)

  removed_found : get_feature_by_id input.feature_id removed_db ≡ some (removed_row row)
  unfolding remove_events append_activity_event append_audit_event get_feature_by_id
  removed_found = clear_task_found input.feature_id db row found

  remove_body-done : remove_body operation_id input feature db ≡ done (removed_row row) removed_db
  unfolding remove_body remove_finish required
  remove_body-done =
      let (t, applies) = leave_review-applied operation_id input row db in
      rw (found, applies, removed_found)

-- A removal that was in review when it checked succeeds whatever the other sessions have committed
-- since: the feature goes to PLANNED without a task, one version on, from any state that they left it
-- in.
pub remove_overwrites :
    (others : Db → Db) (operation_id : ℕ) (input : RemoveInput) (db : Db) (feature row : FeatureRow)
    → get_feature_by_id input.feature_id db ≡ some feature
    → feature.state ≡ tasks_review
    → get_feature_by_id input.feature_id (others db) ≡ some row
    → (db' : Db) × (remove_task others operation_id input db
        ≡ (replied (ok (removed_row row)), db'))
      × (get_feature_by_id input.feature_id db' ≡ some (removed_row row))
unfolding remove_task remove_reply with_transaction
remove_overwrites others operation_id input db feature row known review found = (
  removed_db operation_id input feature row (others db) found,
  ground (arith, remove_body-done operation_id input feature row (others db) found),
  removed_found operation_id input feature row (others db) found,
)
