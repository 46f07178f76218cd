-- ===== src/Retry/Handler.antt =====
-- What the caller of a retry sees, and what it may rely on.
use mathlib.Core.Path.{subst}
use autopilot_console.Prelude.{
  ℕ, ◌+◌, ◌==◌, ==_refl, ◌≡◌, refl, sym, ◌∙◌, ap, Option, some, none, Bool, arith, Option-cases,
  inl, inr, ◌⊎◌, [], ◌∷◌, ◌++◌, find, find-update_where,
}
use autopilot_console.Feature.State.{FeatureState}
use autopilot_console.Feature.Names.{same_state_iff}
use autopilot_console.Feature.Machine.{apply_edge}
use autopilot_console.Store.Rows.{
  Db, FeatureRow, DevelopmentAttemptRow, JobAttemptStatus, IdempotencyRecordRow,
}
use autopilot_console.Store.Tx.{Reply, replied, threw, Outcome, done, raised, with_transaction}
use autopilot_console.Store.Repositories.{get_feature_by_id, find_idempotency, update_features}
use autopilot_console.Task.Approval.{transition_command}
use autopilot_console.Task.Approval.Approve.{unchanged_since, move_feature}
use autopilot_console.Retry.{
  RetryRequest, RetryOutcome, retried, RetryCheck, refuse, proceed, check_retry, retry_checked,
  retry_body, retry, retry_command, replay_retry,
}
use autopilot_console.Retry.Laws.{Checked, check_retry-Checked}
use autopilot_console.Retry.Writes.{stored_retry, Recorded, commit_retry_cases}

replay_retry-ne-retried :
    (request : RetryRequest) (r : IdempotencyRecordRow) (db : Db) (a : DevelopmentAttemptRow)
    → replay_retry request r db ≡ retried a
    → ⊥
unfolding replay_retry
replay_retry-ne-retried request r db a h = ground arith

module _ (is_alive : Option (ℕ → ℕ → Bool)) (request : RetryRequest) (db : Db) where
  -- What a retry that reports a new attempt rests on, and what it leaves behind.
  pub record Retried (attempt : DevelopmentAttemptRow) (db' : Db) : Type 0 where
    pub row : FeatureRow
    pub latest : DevelopmentAttemptRow
    pub unused_key : find_idempotency request.operation_key db ≡ none
    pub checked : Checked is_alive request db row latest
    pub moved :
        get_feature_by_id request.feature_id db'
        ≡ some (record row { state = FeatureState.queued; row_version = row.row_version + 1 })
    pub attempts : db'.attempts ≡ db.attempts ++ attempt ∷ []
    pub idempotency : db'.idempotency ≡ db.idempotency ++ stored_retry request attempt ∷ []
    pub new_id : attempt.id ≡ db.next_id
    pub feature : attempt.feature_id ≡ request.feature_id
    pub approval : attempt.task_approval_id ≡ request.task_approval_id
    pub status : attempt.status ≡ JobAttemptStatus.queued
    pub predecessor : attempt.predecessor_attempt_id ≡ some latest.id
    pub branch_name : attempt.branch_name ≡ row.branch_name

  moved_retry :
      (row : FeatureRow)
      → get_feature_by_id request.feature_id db ≡ some row
      → get_feature_by_id request.feature_id (
          update_features
            (unchanged_since (apply_edge db.clock (retry_command request row)))
            (move_feature (apply_edge db.clock (retry_command request row)))
            db)
        ≡ some (record row { state = FeatureState.queued; row_version = row.row_version + 1 })
  unfolding get_feature_by_id update_features unchanged_since move_feature apply_edge retry_command
      transition_command
  moved_retry row found =
      let t = apply_edge db.clock (retry_command request row) in
      let kept =
        find-update_where (λ (r : FeatureRow). r.id == request.feature_id) (unchanged_since t)
          (move_feature t) db.features {a = row} (λ x. refl) found in
      let same = (same_state_iff row.state row.state).1 refl in
      kept ∙ rw (==_refl row.id, same, ==_refl row.row_version)

  commits-Retried :
      (row : FeatureRow) (latest attempt : DevelopmentAttemptRow) (db' : Db)
      → find_idempotency request.operation_key db ≡ none
      → Checked is_alive request db row latest
      → Recorded request row.branch_name latest
          (update_features
            (unchanged_since (apply_edge db.clock (retry_command request row)))
            (move_feature (apply_edge db.clock (retry_command request row)))
            db)
          attempt
          db'
      → Retried attempt db'
  unfolding get_feature_by_id update_features
  commits-Retried row latest attempt db' unused checked r = record {
    row = row;
    latest = latest;
    unused_key = unused;
    checked = checked;
    moved =
        ap (find (λ (x : FeatureRow). x.id == request.feature_id)) r.features
        ∙ moved_retry row checked.found;
    attempts = r.attempts;
    idempotency = r.idempotency;
    new_id = r.new_id;
    feature = r.feature;
    approval = r.approval;
    status = r.status;
    predecessor = r.predecessor;
    branch_name = r.branch_name;
  }

  checked_cases :
      (c : RetryCheck) (out : RetryOutcome) (db' : Db)
      → find_idempotency request.operation_key db ≡ none
      → check_retry is_alive request db ≡ c
      → retry_checked request c db ≡ done out db'
      → (((a : DevelopmentAttemptRow) → out ≡ retried a → ⊥) × (db' ≡ db))
        ⊎ ((attempt : DevelopmentAttemptRow) × (out ≡ retried attempt) × Retried attempt db')
  unfolding retry_checked
  checked_cases (refuse reason) out db' unused check h = inl ((λ a e. ground arith), ground arith)
  checked_cases (proceed row latest) out db' unused check h =
      elim (commit_retry_cases is_alive request row latest db out db' _ refl h) [
        | inl nothing ↦ inl nothing
        | inr (attempt, response, recorded) ↦ inr (
          attempt,
          response,
          commits-Retried row latest attempt db' unused
              (check_retry-Checked is_alive request db row latest check) recorded,
        )
      ]

  pub retry_body_cases :
      (out : RetryOutcome) (db' : Db)
      → retry_body is_alive request db ≡ done out db'
      → (((a : DevelopmentAttemptRow) → out ≡ retried a → ⊥) × (db' ≡ db))
        ⊎ ((attempt : DevelopmentAttemptRow) × (out ≡ retried attempt) × Retried attempt db')
  unfolding retry_body
  retry_body_cases out db' h = elim (Option-cases (find_idempotency request.operation_key db)) [
    | inl unused ↦ checked_cases _ out db' unused refl (ground arith)
    | inr (r, used) ↦
        inl ((λ a e. replay_retry-ne-retried request r db a (ground arith)), ground arith)
  ]

  replied_cases :
      (o : Outcome RetryOutcome) (reply : Reply RetryOutcome) (db' : Db)
      → retry_body is_alive request db ≡ o
      → ◌≡◌ {A = Reply RetryOutcome × Db}
          (elim o [ done a d ↦ (replied a, d) | raised e ↦ (threw e, db) ])
          (reply, db')
      → (((a : DevelopmentAttemptRow) → reply ≡ replied (retried a) → ⊥) × (db' ≡ db))
        ⊎ ((attempt : DevelopmentAttemptRow) × (reply ≡ replied (retried attempt))
            × Retried attempt db')
  replied_cases (raised e) reply db' ran h = inl ((λ a r. ground arith), ground arith)
  replied_cases (done out d) reply db' ran h = elim (retry_body_cases out d ran) [
    | inl (other, same) ↦ inl ((λ a r. other a (ground arith)), ground arith)
    | inr (attempt, response, made) ↦
        inr (attempt, ground arith, subst (λ x. Retried attempt x) (ground arith) made)
  ]

  pub retry_cases :
      (reply : Reply RetryOutcome) (db' : Db)
      → retry is_alive request db ≡ (reply, db')
      → (((a : DevelopmentAttemptRow) → reply ≡ replied (retried a) → ⊥) × (db' ≡ db))
        ⊎ ((attempt : DevelopmentAttemptRow) × (reply ≡ replied (retried attempt))
            × Retried attempt db')
  unfolding retry with_transaction
  retry_cases reply db' h = replied_cases _ reply db' refl h

retried_injective :
    {a b : DevelopmentAttemptRow} → replied (retried a) ≡ replied (retried b) → a ≡ b
retried_injective e = cc

-- A retry that reports a new attempt found its operation key unused, and the feature in the request's
-- project, stopped, with the named approval in force; the feature's latest attempt had ended, on the
-- branch of the feature and of the request, with no process that a runner takes for alive; and the
-- retry has queued the feature one version on, and has added one queued attempt that names the
-- approval and the attempt it follows, and one stored result for the key.
pub retry-Retried :
    (is_alive : Option (ℕ → ℕ → Bool)) (request : RetryRequest) (db : Db)
    (attempt : DevelopmentAttemptRow) (db' : Db)
    → retry is_alive request db ≡ (replied (retried attempt), db')
    → Retried is_alive request db attempt db'
retry-Retried is_alive request db attempt db' h = elim (retry_cases is_alive request db _ db' h) [
  | inl (other, _) ↦ absurd (other attempt refl)
  | inr (a, same, made) ↦
      subst (λ x. Retried is_alive request db x db') (sym (retried_injective same)) made
]

-- A retry that reports no new attempt, be it refused, answered from a stored result or ended by an
-- error, leaves the database as it was.
pub retry_unchanged :
    (is_alive : Option (ℕ → ℕ → Bool)) (request : RetryRequest) (db : Db)
    (reply : Reply RetryOutcome) (db' : Db)
    → retry is_alive request db ≡ (reply, db')
    → ((a : DevelopmentAttemptRow) → reply ≡ replied (retried a) → ⊥)
    → db' ≡ db
retry_unchanged is_alive request db reply db' h other =
    elim (retry_cases is_alive request db reply db' h) [
      | inl (_, same) ↦ same
      | inr (a, response, made) ↦ absurd (other a response)
    ]
