-- ===== src/Task/Approval/Attach/Handler.antt =====
-- Attaching a task as the caller sees it.
use autopilot_console.Prelude.{
  ℕ, ◌≡◌, ◌∙◌, Option, some, none, true, arith, Bool-cases, Option-cases, inl, inr, String,
}
use autopilot_console.Store.Rows.{Db, FeatureRow}
use autopilot_console.Store.Tx.{replied, done, with_transaction, bind-done}
use autopilot_console.Store.Repositories.{
  get_feature_by_id, get_project_by_id, append_activity_event, append_audit_event,
}
use autopilot_console.Task.Approval.{ok, ParsedTask, is_legal_attach_state}
use autopilot_console.Task.Approval.Attach.{
  AttachInput, Attached, enter_review, reset_state, attach_events, required, attach_body,
  attach_finish, attach_current, attach_reply, attach_feature, attach_task,
}
use autopilot_console.Task.Approval.Attach.Laws.{attached_row, entered}

-- The row that the transaction found, from a legal state, is the attached row in the end.
abbrev pub Attaches : AttachInput → Db → FeatureRow → Db → Type 0
Attaches input db out db' =
    (row : FeatureRow) × (get_feature_by_id input.feature_id db ≡ some row)
    × (is_legal_attach_state row.state ≡ true)
    × (out ≡ attached_row input.relative_task_path row)
    × (get_feature_by_id input.feature_id db' ≡ some out)

module _ (operation_id : ℕ) (input : AttachInput) (feature : FeatureRow) (db : Db)
    (out : FeatureRow) (db' : Db) where
  finished :
      (mid : Db)
      → attach_finish input feature mid ≡ done out db'
      → (get_feature_by_id input.feature_id mid ≡ some out)
        × (get_feature_by_id input.feature_id db' ≡ get_feature_by_id input.feature_id mid)
  unfolding attach_finish attach_events append_activity_event append_audit_event get_feature_by_id
      required
  finished mid h = ground arith

  attach_body-Attaches :
      attach_body operation_id input feature db ≡ done out db' → Attaches input db out db'
  unfolding attach_body attach_current required
  attach_body-Attaches h = elim (Option-cases (get_feature_by_id input.feature_id db)) [
    | inl missing ↦ absurd (ground arith)
    | inr (row, found) ↦
        let (_, mid, entry, rest) =
          bind-done (enter_review operation_id input row) (λ _. attach_finish input feature)
            (reset_state input row db) (rw (found) at h) in
        let (last, same) = finished mid rest in
        let (legal, kept) =
          entered operation_id input row db mid found (Bool-cases _) (Bool-cases _) entry in
        (row, found, legal, ground arith, same ∙ last)
  ]

module _ (read_task : String → String → Option ParsedTask) (others : Db → Db) (operation_id : ℕ)
    (input : AttachInput) (db : Db) where
  replied_body :
      (parsed : ParsedTask) (feature : FeatureRow) (a : Attached) (db' : Db)
      → attach_reply parsed (with_transaction (attach_body operation_id input feature) (others db))
        ≡ (replied (ok a), db')
      → attach_body operation_id input feature (others db) ≡ done a.feature db'
  unfolding attach_reply with_transaction
  replied_body parsed feature a db' h = ground arith

  ran_body :
      (o : Option FeatureRow) (a : Attached) (db' : Db)
      → attach_feature read_task others operation_id input o db ≡ (replied (ok a), db')
      → (feature : FeatureRow) × (attach_body operation_id input feature (others db)
          ≡ done a.feature db')
  unfolding attach_feature
  ran_body none a db' h = absurd (ground arith)
  ran_body (some feature) a db' h = elim (Option-cases (get_project_by_id feature.project_id db)) [
    | inl missing ↦ absurd (ground arith)
    | inr (project, known) ↦
        elim (Option-cases (read_task project.canonical_path input.relative_task_path)) [
          | inl unreadable ↦ absurd (ground arith)
          | inr (parsed, good) ↦ (feature, ground (arith, replied_body parsed feature a db'))
        ]
  ]

-- Whatever other sessions commit in between: a successful attachment found the feature in PLANNED, in
-- review or stopped, puts it in review with the new path, and raises its version by one, or by two
-- where it had stopped; the caller gets the row as it is stored.
pub attach-Attaches :
    (read_task : String → String → Option ParsedTask) (others : Db → Db) (operation_id : ℕ)
    (input : AttachInput) (db : Db) (a : Attached) (db' : Db)
    → attach_task read_task others operation_id input db ≡ (replied (ok a), db')
    → Attaches input (others db) a.feature db'
unfolding attach_task
attach-Attaches read_task others operation_id input db a db' h =
    let (feature, ran) = ran_body read_task others operation_id input db _ a db' h in
    attach_body-Attaches operation_id input feature (others db) a.feature db' ran
