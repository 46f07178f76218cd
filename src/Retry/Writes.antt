-- ===== src/Retry/Writes.antt =====
-- The writes of a retry, from the update of the feature on.
use mathlib.Core.Path.{subst}
use autopilot_console.Prelude.{
  ℕ, ◌==◌, ◌≡◌, ◌∙◌, ap, Option, some, Bool, arith, Bool-cases, inl, inr, ◌⊎◌, count_where, String,
  [], ◌∷◌, ◌++◌,
}
use autopilot_console.Feature.Transition.{
  applied, idempotent, rejected, AppliedFeatureTransition, FeatureTransitionResult,
}
use autopilot_console.Feature.Machine.{apply_feature_transition, apply_edge}
use autopilot_console.Feature.Machine.Apply.{applied-Accepts}
use autopilot_console.Store.Rows.{
  Db, FeatureRow, DevelopmentAttemptRow, JobAttemptStatus, IdempotencyRecordRow, retry_result,
}
use autopilot_console.Store.Tx.{done, bind-done}
use autopilot_console.Store.Repositories.{
  find_idempotency, update_features, create_development_attempt, create_idempotency_record,
  append_activity_event, append_audit_event,
}
use autopilot_console.Store.Inserts.{create_development_attempt_row, create_development_attempt_db}
use autopilot_console.Task.Approval.Approve.{unchanged_since, move_feature}
use autopilot_console.Retry.{
  RetryRequest, RetryOutcome, retried, record_retry, record_retry_events, commit_retry,
  retry_command,
}

abbrev pub stored_retry : RetryRequest → DevelopmentAttemptRow → IdempotencyRecordRow
stored_retry request attempt = record {
  operation_key = request.operation_key;
  project_id = request.project_id;
  feature_id = some request.feature_id;
  attempt_id = some attempt.id;
  result = retry_result attempt.id;
}

-- The new attempt, and where it stands.
pub record Recorded (request : RetryRequest) (branch : String) (latest : DevelopmentAttemptRow)
    (db : Db) (attempt : DevelopmentAttemptRow) (db' : Db) : Type 0 where
  pub features : db'.features ≡ db.features
  pub attempts : db'.attempts ≡ db.attempts ++ attempt ∷ []
  pub idempotency : db'.idempotency ≡ db.idempotency ++ stored_retry request attempt ∷ []
  pub new_id : attempt.id ≡ db.next_id
  pub feature : attempt.feature_id ≡ request.feature_id
  pub approval : attempt.task_approval_id ≡ request.task_approval_id
  pub status : attempt.status ≡ JobAttemptStatus.queued
  pub predecessor : attempt.predecessor_attempt_id ≡ some latest.id
  pub branch_name : attempt.branch_name ≡ branch

record_retry_events_lem :
    (request : RetryRequest) (attempt : DevelopmentAttemptRow) (db : Db) (out : RetryOutcome)
    (db' : Db)
    → record_retry_events request attempt db ≡ done out db'
    → (out ≡ retried attempt)
      × (db'.features ≡ db.features)
      × (db'.attempts ≡ db.attempts)
      × (db'.idempotency ≡ db.idempotency ++ stored_retry request attempt ∷ [])
unfolding record_retry_events create_idempotency_record append_activity_event append_audit_event
    find_idempotency
record_retry_events_lem request attempt db out db' h = ground arith

module _ (is_alive : Option (ℕ → ℕ → Bool)) (request : RetryRequest) (row : FeatureRow)
    (latest : DevelopmentAttemptRow) where
  record_retry-Recorded :
      (db : Db) (out : RetryOutcome) (db' : Db)
      → record_retry request row latest db ≡ done out db'
      → (attempt : DevelopmentAttemptRow) × (out ≡ retried attempt)
        × Recorded request row.branch_name latest db attempt db'
  unfolding record_retry
  record_retry-Recorded db out db' h =
      let (attempt, db1, made, h1) =
        bind-done
          (create_development_attempt request.project_id request.feature_id request.task_approval_id
            row.branch_name request.operation_key JobAttemptStatus.queued (some latest.id))
          (record_retry_events request) db h in
      let b = create_development_attempt_row _ _ _ _ _ _ _ _ _ _ made in
      let added = create_development_attempt_db _ _ _ _ _ _ _ _ _ _ made in
      let (response, features, attempts, idempotency) =
        record_retry_events_lem request attempt db1 out db' h1 in
      (
        attempt,
        response,
        record {
          features = features ∙ ap (λ (d : Db). d.features) added;
          attempts = attempts ∙ ap (λ (d : Db). d.attempts) added;
          idempotency =
              idempotency
              ∙ ap (λ (d : Db). d.idempotency ++ stored_retry request attempt ∷ []) added;
          new_id = b.0;
          feature = b.2;
          approval = b.3;
          status = b.5;
          predecessor = b.6;
          branch_name = b.7;
        },
      )

  abbrev pub retry_transition : ℕ → AppliedFeatureTransition
  retry_transition clock = apply_edge clock (retry_command request row)

  -- The two outcomes of the transaction's last part.
  abbrev pub Refuses : RetryOutcome → Db → Db → Type 0
  Refuses out db db' = ((a : DevelopmentAttemptRow) → out ≡ retried a → ⊥) × (db' ≡ db)

  abbrev pub Commits : RetryOutcome → Db → Db → Type 0
  Commits out db db' =
      (attempt : DevelopmentAttemptRow) × (out ≡ retried attempt)
      × Recorded request row.branch_name latest
          (update_features (unchanged_since (retry_transition db.clock))
            (move_feature (retry_transition db.clock)) db)
          attempt db'

  pub commit_retry_cases :
      (db : Db) (out : RetryOutcome) (db' : Db) (res : FeatureTransitionResult)
      → apply_feature_transition db.clock (retry_command request row) ≡ res
      → commit_retry request row latest res db ≡ done out db'
      → Refuses out db db' ⊎ Commits out db db'
  unfolding commit_retry
  commit_retry_cases db out db' (applied t) res h =
      let same = (applied-Accepts db.clock (retry_command request row) t res).1 in
      let taken : commit_retry request row latest (applied (retry_transition db.clock)) db
          ≡ done out db' =
        subst (λ t'. commit_retry request row latest (applied t') db ≡ done out db') same h in
      elim (Bool-cases
        (count_where (unchanged_since (retry_transition db.clock)) db.features == 0)) [
          | inl miss ↦ inl ((λ a e. ground arith), ground arith)
          | inr hit ↦ inr (record_retry-Recorded _ out db' (ground arith))
        ]
  commit_retry_cases db out db' (rejected _ _ _) res h = inl ((λ a e. ground arith), ground arith)
  commit_retry_cases db out db' (idempotent _) res h = inl ((λ a e. ground arith), ground arith)
