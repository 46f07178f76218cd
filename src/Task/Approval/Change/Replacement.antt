-- ===== src/Task/Approval/Change/Replacement.antt =====
-- What replacing the task of a stopped feature does, whatever other sessions commit in between.
use autopilot_console.Prelude.{
  ℕ, ◌+◌, ◌==◌, ==_iff, ◌≡◌, refl, sym, ◌∙◌, ap, Option, some, none, true, false, ◌&&◌, arith, inl,
  inr, Option-cases, any, update_where, List, [], ◌∷◌, String, find, find-update_where, find_passes,
}
use autopilot_console.Feature.State.{tasks_review}
use autopilot_console.Store.Rows.{Db, FeatureRow, TaskApprovalRow, IdempotencyRecordRow}
use autopilot_console.Store.Tx.{
  replied, Fault, unique_violation, with_transaction, other_error, done,
}
use autopilot_console.Store.Repositories.{
  get_feature_by_id, get_project_by_id, find_idempotency, update_features,
  create_idempotency_record, append_activity_event, append_audit_event,
}
use autopilot_console.Task.Approval.{ok, ParsedTask}
use autopilot_console.Task.Approval.Change.Invalidate.{is_open_approval, close}
use autopilot_console.Task.Approval.Change.Replace.{
  ReplaceInput, Replaced, is_replaceable, return_to_review, replace_events, close_approval,
  replace_body, replay_replacement, own_feature, recover_replace, replace_reply, replace_fresh,
  replace_task,
}

abbrev pub replaced_row : ReplaceInput → FeatureRow → FeatureRow
replaced_row input row = record row {
  state = tasks_review;
  task_path = some input.relative_task_path;
  row_version = row.row_version + 1;
}

closed_all :
    (input : ReplaceInput) (at : ℕ) (xs : List TaskApprovalRow)
    → any (is_replaceable input) (update_where (is_replaceable input) (close at) xs) ≡ false
unfolding is_replaceable is_open_approval
closed_all input at [] = refl
closed_all input at (x ∷ xs) = ground (arith, closed_all input at xs)

returned :
    (input : ReplaceInput) (db : Db) (row : FeatureRow)
    → get_feature_by_id input.feature_id db ≡ some row
    → row.project_id ≡ input.project_id
    → get_feature_by_id input.feature_id (return_to_review input db) ≡ some (replaced_row input row)
unfolding get_feature_by_id return_to_review update_features
returned input db row found own =
    let mine =
      find_passes (λ (r : FeatureRow). r.id == input.feature_id) db.features {a = row} found in
    find-update_where (λ (r : FeatureRow). r.id == input.feature_id)
      (λ r. r.id == input.feature_id && r.project_id == input.project_id) (replaced_row input)
      db.features {a = row} (λ x. refl) found
    ∙ rw (mine, (==_iff _ _).1 own)

-- What the transaction found and left, when it wrote the replacement.
pub record Replaces (input : ReplaceInput) (seen db' : Db) : Type 0 where
  pub was_open : any (is_replaceable input) seen.approvals ≡ true
  pub closed : any (is_replaceable input) db'.approvals ≡ false
  pub in_review :
      (row : FeatureRow)
      → own_feature input seen ≡ some row
      → get_feature_by_id input.feature_id db' ≡ some (replaced_row input row)
  pub stored : (r : IdempotencyRecordRow) → find_idempotency input.operation_key seen ≡ some r → ⊥
  pub attempts : db'.attempts ≡ seen.attempts

module _ (now : ℕ) (input : ReplaceInput) (parsed : ParsedTask) (seen db' : Db)
    (ran : replace_body now input parsed seen ≡ done true db') where
  features_after : db'.features ≡ (return_to_review input seen).features
  unfolding replace_body create_idempotency_record replace_events append_activity_event
      append_audit_event close_approval return_to_review update_features
  features_after = ground arith

  approvals_after :
      (any (is_replaceable input) seen.approvals ≡ true)
      × (db'.approvals ≡ update_where (is_replaceable input) (close now) seen.approvals)
      × (db'.attempts ≡ seen.attempts)
  unfolding replace_body create_idempotency_record replace_events append_activity_event
      append_audit_event close_approval return_to_review update_features
  approvals_after = ground arith

  key_before : find_idempotency input.operation_key seen ≡ none
  unfolding replace_body create_idempotency_record replace_events append_activity_event
      append_audit_event close_approval return_to_review update_features find_idempotency
  key_before = ground arith

  own_row :
      (row : FeatureRow)
      → own_feature input seen ≡ some row
      → (get_feature_by_id input.feature_id seen ≡ some row) × (row.project_id ≡ input.project_id)
  unfolding own_feature
  own_row row own = ground arith

  replace_body-Replaces : Replaces input seen db'
  unfolding get_feature_by_id
  replace_body-Replaces =
      let (open_one, closed_rows, attempts) = approvals_after in
      record {
        was_open = open_one;
        closed = ap (any (is_replaceable input)) closed_rows ∙ closed_all input now seen.approvals;
        in_review = λ row own.
            let (found, mine) = own_row row own in
            ap (find (λ (r : FeatureRow). r.id == input.feature_id)) features_after
            ∙ returned input seen row found mine;
        stored = λ r e. cc (sym key_before ∙ e);
        attempts = attempts;
      }

module _ (read_task : String → String → Option ParsedTask) (others : Db → Db) (now : ℕ)
    (input : ReplaceInput) (db : Db) (r : Replaced) (db' : Db) (new : r.idempotent ≡ false) where
  replay-ne-new :
      (stored : IdempotencyRecordRow) (f : FeatureRow)
      → replay_replacement input stored f ≡ ok r
      → ⊥
  unfolding replay_replacement
  replay-ne-new stored f h = ground arith

  recover-ne-new : (e : Fault) (d : Db) → recover_replace input e d ≡ replied (ok r) → ⊥
  unfolding recover_replace
  recover-ne-new other_error d h = cc
  recover-ne-new unique_violation d h =
      elim (Option-cases (find_idempotency input.operation_key d)) [
        | inl lost ↦ absurd (ground arith)
        | inr (winner, e) ↦ elim (Option-cases (own_feature input d)) [
          | inl gone ↦ absurd (ground arith)
          | inr (f, own) ↦ ground (arith, replay-ne-new winner f)
        ]
      ]

  reply_ran :
      (parsed : ParsedTask)
      → replace_reply input parsed (with_transaction (replace_body now input parsed) (others db))
        ≡ (replied (ok r), db')
      → replace_body now input parsed (others db) ≡ done true db'
  unfolding replace_reply with_transaction
  reply_ran parsed h =
      ground
        (arith, recover-ne-new unique_violation (others db), recover-ne-new other_error (others db))

  fresh_ran :
      (feature : FeatureRow)
      → replace_fresh read_task others now input feature db ≡ (replied (ok r), db')
      → (parsed : ParsedTask) × (replace_body now input parsed (others db) ≡ done true db')
  unfolding replace_fresh
  fresh_ran feature h = elim (Option-cases (get_project_by_id input.project_id db)) [
    | inl missing ↦ absurd (ground arith)
    | inr (project, known) ↦
        elim (Option-cases (read_task project.canonical_path input.relative_task_path)) [
          | inl unreadable ↦ absurd (ground arith)
          | inr (parsed, good) ↦ (parsed, ground (arith, reply_ran parsed))
        ]
  ]

  task_ran :
      replace_task read_task others now input db ≡ (replied (ok r), db')
      → (parsed : ParsedTask) × (replace_body now input parsed (others db) ≡ done true db')
  unfolding replace_task
  task_ran h = elim (Option-cases (own_feature input db)) [
    | inl missing ↦ absurd (ground arith)
    | inr (feature, own) ↦ elim (Option-cases (find_idempotency input.operation_key db)) [
      | inl unused ↦ fresh_ran feature (ground arith)
      | inr (stored, e) ↦ absurd (ground (arith, replay-ne-new stored feature))
    ]
  ]

-- Whatever other sessions commit in between: a new replacement closes the open approval that it
-- names, uses a key that was not stored, leaves the attempts alone, and puts the caller's feature
-- back in review with the new path, one version on.
pub replace-Replaces :
    (read_task : String → String → Option ParsedTask) (others : Db → Db) (now : ℕ)
    (input : ReplaceInput) (db : Db) (r : Replaced) (db' : Db)
    → r.idempotent ≡ false
    → replace_task read_task others now input db ≡ (replied (ok r), db')
    → Replaces input (others db) db'
replace-Replaces read_task others now input db r db' new h =
    let (parsed, ran) = task_ran read_task others now input db r db' new h in
    replace_body-Replaces now input parsed (others db) db' ran
