-- ===== src/Task/Approval/Tests.antt =====
-- The theorems on attaching, removing, replacing and invalidating at features in review and stopped.
use autopilot_console.Prelude.{ℕ, ◌≡◌, refl, some, false, [], ◌∷◌}
use autopilot_console.Feature.State.{FeatureState}
use autopilot_console.Store.Rows.{Db}
use autopilot_console.Store.Tx.{Reply, replied, with_transaction}
use autopilot_console.Store.Repositories.{
  get_feature_by_id, get_project_by_id, find_idempotency, update_features,
  create_idempotency_record, append_activity_event, append_audit_event,
}
use autopilot_console.Task.Approval.{ServiceResult, ok, other_project}
use autopilot_console.Task.Approval.Attach.{
  AttachInput, Attached, has_active_approval, set_task, set_path, review_transition, enter_review,
  reset_state, attach_events, required, attach_finish, attach_current, attach_body, attach_reply,
  attach_feature, attach_task,
}
use autopilot_console.Task.Approval.Attach.Handler.{Attaches, attach-Attaches}
use autopilot_console.Task.Approval.Change.Remove.{
  RemoveInput, remove_task, removed_row, remove_overwrites,
}
use autopilot_console.Task.Approval.Change.Invalidate.{
  InvalidateInput, is_open_approval, invalidate_body, invalidate_reply, invalidate_approval,
  invalidate_closes, MayInvalidate, IsOpen, Invalidated,
}
use autopilot_console.Task.Approval.Change.Replace.{
  ReplaceInput, Replaced, is_replaceable, return_to_review, replace_events, close_approval,
  replace_body, own_feature, replace_reply, replace_fresh, replace_task,
}
use autopilot_console.Task.Approval.Change.Replacement.{Replaces, replace-Replaces}
use autopilot_console.Fixtures.{console, feature_row, read_any, admin}

abbrev attach_input : AttachInput
attach_input = record { feature_id = 10; relative_task_path = "docs/new.json"; actor = admin }

abbrev attach_run : Reply (ServiceResult Attached) × Db
attach_run = attach_task read_any (λ db. db) 1 attach_input console

abbrev attached : Attached
attached = record {
  feature = record (feature_row 10 FeatureState.tasks_review) {
    task_path = some "docs/new.json";
    row_version = 4;
  };
  summary = 8;
  checksum = 77;
}

attach_run-attached : attach_run ≡ (replied (ok attached), attach_run.1)
unfolding attach_task attach_feature attach_reply attach_body attach_current attach_finish required
    attach_events reset_state enter_review review_transition set_path set_task has_active_approval
    with_transaction get_feature_by_id get_project_by_id update_features append_activity_event
    append_audit_event
attach_run-attached = refl

attach-Attaches_example : Attaches attach_input console attached.feature attach_run.1
attach-Attaches_example =
    attach-Attaches read_any (λ db. db) 1 attach_input console attached attach_run.1
      attach_run-attached

-- The feature is queued by another session between the check and the transaction.
abbrev queueing : Db → Db
queueing db = record db { features = feature_row 10 FeatureState.queued ∷ [] }

abbrev remove_input : RemoveInput
remove_input = record { feature_id = 10; actor = admin }

remove_overwrites_example :
    (db' : Db) × (remove_task queueing 1 remove_input console
      ≡ (replied (ok (removed_row (feature_row 10 FeatureState.queued))), db'))
    × (get_feature_by_id 10 db' ≡ some (removed_row (feature_row 10 FeatureState.queued)))
unfolding get_feature_by_id
remove_overwrites_example =
    remove_overwrites queueing 1 remove_input console (feature_row 10 FeatureState.tasks_review)
      (feature_row 10 FeatureState.queued) refl refl refl

abbrev invalidate_input : InvalidateInput
invalidate_input = record { feature_id = 12; project_id = some 1; approval_id = 31; actor = admin }

abbrev invalidate_run : Reply (ServiceResult (ℕ × ℕ)) × Db
invalidate_run = invalidate_approval (λ db. db) 2000 invalidate_input console

invalidate_run-ok : invalidate_run ≡ (replied (ok (31, 2000)), invalidate_run.1)
unfolding invalidate_approval invalidate_reply invalidate_body is_open_approval with_transaction
    get_feature_by_id other_project append_audit_event
invalidate_run-ok = refl

invalidate_closes_example :
    ((MayInvalidate invalidate_input console × IsOpen invalidate_input console.approvals)
      → invalidate_run.0 ≡ replied (ok (31, 2000)))
    × ((r : ℕ × ℕ) (db' : Db)
        → invalidate_run ≡ (replied (ok r), db')
        → MayInvalidate invalidate_input console
          × IsOpen invalidate_input console.approvals
          × (r ≡ (31, 2000))
          × Invalidated 2000 invalidate_input console.approvals db'.approvals
          × (db'.features ≡ console.features)
          × (db'.attempts ≡ console.attempts))
invalidate_closes_example = invalidate_closes (λ db. db) 2000 invalidate_input console

abbrev replace_input : ReplaceInput
replace_input = record {
  feature_id = 11;
  project_id = 1;
  approval_id = 30;
  relative_task_path = "docs/new.json";
  operation_key = 500;
  actor = admin;
}

abbrev replace_run : Reply (ServiceResult Replaced) × Db
replace_run = replace_task read_any (λ db. db) 2000 replace_input console

abbrev replaced : Replaced
replaced = record {
  feature = record (feature_row 11 FeatureState.tasks_review) {
    task_path = some "docs/new.json";
    row_version = 4;
  };
  summary = 8;
  checksum = 77;
  invalidated_approval_id = 30;
  idempotent = false;
}

replace_run-replaced : replace_run ≡ (replied (ok replaced), replace_run.1)
unfolding replace_task replace_fresh replace_reply replace_body close_approval replace_events
    return_to_review is_replaceable own_feature is_open_approval with_transaction get_feature_by_id
    get_project_by_id find_idempotency update_features create_idempotency_record
    append_activity_event append_audit_event
replace_run-replaced = refl

replace-Replaces_example : Replaces replace_input console replace_run.1
replace-Replaces_example =
    replace-Replaces read_any (λ db. db) 2000 replace_input console replaced replace_run.1 refl
      replace_run-replaced
