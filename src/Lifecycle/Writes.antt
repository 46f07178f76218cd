-- ===== src/Lifecycle/Writes.antt =====
-- Each write of a service or worker that moves a feature keeps to the table of allowed transitions.
use mathlib.Core.Path.{subst}
use autopilot_console.Prelude.{
  ℕ, ◌+◌, ◌==◌, ◌≡◌, refl, sym, ◌∙◌, ap, Option, some, Bool, List, [], arith, Bool-cases,
  Option-cases, inl, inr, count_where,
}
use autopilot_console.Feature.Transition.{
  AppliedFeatureTransition, FeatureTransitionCommand, FeatureTransitionResult, applied, idempotent,
  rejected,
}
use autopilot_console.Feature.Machine.{apply_feature_transition, apply_edge}
use autopilot_console.Feature.Machine.Table.{Allowed, approve}
use autopilot_console.Feature.Machine.Apply.{applied-Accepts}
use autopilot_console.Store.Rows.{Db, FeatureRow, DevelopmentAttemptRow, failed}
use autopilot_console.Store.Tx.{Tx, Outcome, done, raised, with_transaction}
use autopilot_console.Store.Repositories.{
  find_idempotency, update_features, append_activity_event, append_audit_event,
}
use autopilot_console.Task.Approval.{ParsedTask, transition_command}
use autopilot_console.Task.Approval.Approve.{
  ApproveInput, ApproveOutcome, approve_body, approve_command, unchanged_since, move_feature,
}
use autopilot_console.Task.Approval.Approve.Laws.{approval_transition}
use autopilot_console.Task.Approval.Approve.Safety.{locked_cases}
use autopilot_console.Retry.{
  RetryRequest, RetryOutcome, RetryCheck, refuse, proceed, check_retry, commit_retry, retry_checked,
  retry_body, retry, retry_command,
}
use autopilot_console.Retry.Writes.{commit_retry_cases}
use autopilot_console.Github.Store.{store_transition}
use autopilot_console.Cancellation.World.{World, AttemptUpdate, update_attempt_status}
use autopilot_console.Cancellation.Persist.{
  PersistTransitionInput, cancelled_update, record_cancellation, finish_attempt, persist_applied,
  persist_transition, status_only, record_block, block_applied, persist_blocked,
}
use autopilot_console.Lifecycle.Legal.{Legal, untouched, moves}

-- A write, with whatever the session read before it: other writes may have come in between.
pub data Write : Type 0 where
  github_move : ℕ → FeatureTransitionCommand → Write
  cancel : PersistTransitionInput → Write
  block_reused : (ℕ → ℕ) → DevelopmentAttemptRow → ℕ → FeatureRow → ℕ → ℕ → Write
  retry_feature : Option (ℕ → ℕ → Bool) → RetryRequest → Write
  approve_and_queue : ApproveInput → ParsedTask → Write

abbrev alone : Db → World (Unit {0})
alone db = record { db = db; failures = []; sent = []; os = tt }

unfoldable pub execute : Write → Db → Db
execute (github_move clock command) db =
    (store_transition (apply_feature_transition clock command) db).1
execute (cancel input) db = (persist_transition input db).1
execute (block_reused redact attempt reason feature operation_id now) db =
    (persist_blocked redact attempt reason feature operation_id now (alone db)).1.db
execute (retry_feature is_alive request) db = (retry is_alive request db).1
execute (approve_and_queue input parsed) db = (with_transaction (approve_body input parsed) db).1

-- The update for a command that the transition service applies.
applied-Legal :
    (clock : ℕ) (c : FeatureTransitionCommand) (t : AppliedFeatureTransition)
    (before after : List FeatureRow)
    → apply_feature_transition clock c ≡ applied t
    → (db : Db) → db.features ≡ before
    → after ≡ (update_features (unchanged_since t) (move_feature t) db).features
    → Legal before after
unfolding apply_edge update_features
applied-Legal clock c t before after e db is_before is_after =
    let (accepts, same) = applied-Accepts clock c t e in
    let permitted : Allowed (apply_edge clock c).prior_state (apply_edge clock c).next_state
        (apply_edge clock c).owner =
      accepts.permitted in
    subst (λ (rows : List FeatureRow). Legal rows after) is_before
      (moves t
        (subst (λ (z : AppliedFeatureTransition). Allowed z.prior_state z.next_state z.owner)
          (sym same) permitted)
        (subst (λ (z : AppliedFeatureTransition). z.next_version ≡ z.prior_version + 1) (sym same)
          refl)
        is_after)

store-Legal :
    (clock : ℕ) (c : FeatureTransitionCommand) (r : FeatureTransitionResult) (db : Db)
    → apply_feature_transition clock c ≡ r
    → Legal db.features (store_transition r db).1.features
unfolding store_transition
store-Legal clock c (rejected _ _ _) db e = untouched refl
store-Legal clock c (idempotent _) db e = untouched refl
store-Legal clock c (applied t) db e =
    elim (Bool-cases (count_where (unchanged_since t) db.features == 0)) [
      | inl miss ↦ untouched (rw (miss, store_transition))
      | inr hit ↦ applied-Legal clock c t db.features _ e db refl (rw (hit, store_transition))
    ]

-- The writes to attempts and the notes beside them leave the features.
update_attempt_features :
    (id : ℕ) (u : AttemptUpdate) (db db' : Db)
    → update_attempt_status id u db ≡ some db'
    → db'.features ≡ db.features
unfolding update_attempt_status
update_attempt_features id u db db' h = ground arith

finish_features :
    (input : PersistTransitionInput) (db : Db) → (finish_attempt input db).1.features ≡ db.features
unfolding finish_attempt record_cancellation append_audit_event append_activity_event
finish_features input db =
    elim (Option-cases (update_attempt_status input.attempt.id (cancelled_update input) db)) [
      | inl e ↦ rw (e, finish_attempt)
      | inr (db', e) ↦ rw (e, finish_attempt) (update_attempt_features _ _ db db' e)
    ]

cancel-Legal :
    (input : PersistTransitionInput) (c : FeatureTransitionCommand) (r : FeatureTransitionResult)
    (db : Db)
    → apply_feature_transition input.now c ≡ r
    → Legal db.features (persist_applied input r db).1.features
unfolding persist_applied
cancel-Legal input c (rejected _ _ _) db e = untouched refl
cancel-Legal input c (idempotent _) db e = untouched refl
cancel-Legal input c (applied t) db e =
    elim (Bool-cases (count_where (unchanged_since t) db.features == 0)) [
      | inl miss ↦ untouched (rw (miss, persist_applied))
      | inr hit ↦ applied-Legal input.now c t db.features _ e db refl (
          rw (hit, persist_applied)
            (finish_features input (update_features (unchanged_since t) (move_feature t) db)))
    ]

block-Legal :
    (redact : ℕ → ℕ) (attempt : DevelopmentAttemptRow) (reason now : ℕ)
    (c : FeatureTransitionCommand) (r : FeatureTransitionResult) (w : World (Unit {0}))
    → apply_feature_transition now c ≡ r
    → Legal w.db.features (block_applied redact attempt reason r now w).1.db.features
unfolding block_applied record_block append_audit_event append_activity_event
block-Legal redact attempt reason now c (rejected _ _ _) w e = untouched refl
block-Legal redact attempt reason now c (idempotent _) w e = untouched refl
block-Legal redact attempt reason now c (applied t) w e =
    let moved = update_features (unchanged_since t) (move_feature t) w.db in
    applied-Legal now c t w.db.features _ e w.db refl
      (elim (Option-cases (
        update_attempt_status attempt.id (record (status_only failed) { ended_at = some now })
          moved)) [
            | inl none_found ↦ rw (none_found, block_applied)
            | inr (db', found) ↦
                rw (found, block_applied) (update_attempt_features _ _ moved db' found)
          ])

module _ (is_alive : Option (ℕ → ℕ → Bool)) (request : RetryRequest) where
  commit_retry-Legal :
      (row : FeatureRow) (latest : DevelopmentAttemptRow) (db : Db) (out : RetryOutcome) (db' : Db)
      (r : FeatureTransitionResult)
      → apply_feature_transition db.clock (retry_command request row) ≡ r
      → commit_retry request row latest r db ≡ done out db'
      → Legal db.features db'.features
  unfolding commit_retry
  commit_retry-Legal row latest db out db' (rejected _ _ _) e h = untouched (ground arith)
  commit_retry-Legal row latest db out db' (idempotent _) e h = untouched (ground arith)
  commit_retry-Legal row latest db out db' (applied t) e h =
      elim (commit_retry_cases is_alive request row latest db out db' (applied t) e h) [
        | inl (other, same) ↦ untouched (ap (λ (d : Db). d.features) same)
        | inr (attempt, response, recorded) ↦
            let edge = (applied-Accepts db.clock (retry_command request row) t e).1 in
            applied-Legal db.clock (retry_command request row)
              (apply_edge db.clock (retry_command request row)) db.features db'.features
              (e ∙ ap applied edge) db refl recorded.features
      ]

  retry_checked-Legal :
      (c : RetryCheck) (db : Db) (out : RetryOutcome) (db' : Db)
      → retry_checked request c db ≡ done out db'
      → Legal db.features db'.features
  unfolding retry_checked
  retry_checked-Legal (refuse reason) db out db' h = untouched (ground arith)
  retry_checked-Legal (proceed row latest) db out db' h =
      commit_retry-Legal row latest db out db' _ refl h

  retry_body-Legal :
      (db : Db) (out : RetryOutcome) (db' : Db)
      → retry_body is_alive request db ≡ done out db'
      → Legal db.features db'.features
  unfolding retry_body
  retry_body-Legal db out db' h = elim (Option-cases (find_idempotency request.operation_key db)) [
    | inl unused ↦ retry_checked-Legal (check_retry is_alive request db) db out db' (ground arith)
    | inr (r, used) ↦ untouched (ground arith)
  ]

approve_body-Legal :
    (input : ApproveInput) (parsed : ParsedTask) (db : Db) (out : ApproveOutcome) (db' : Db)
    → approve_body input parsed db ≡ done out db'
    → Legal db.features db'.features
unfolding approve_body apply_edge approve_command transition_command update_features
approve_body-Legal input parsed db out db' h =
    elim (locked_cases input parsed _ _ db out db' refl h) [
      | inl (why, e, same) ↦ untouched (ap (λ (d : Db). d.features) same)
      | inr (inl (a, e, again, same)) ↦ untouched (ap (λ (d : Db). d.features) same)
      | inr (inr (row, found, committed)) ↦
          moves (approval_transition input parsed row db.clock) approve refl
            committed.recorded_in.features
    ]

transaction-Legal :
    {A : Type 0} (body : Tx A) (db : Db)
    → ((out : A) (db' : Db) → body db ≡ done out db' → Legal db.features db'.features)
    → (o : Outcome A) → body db ≡ o
    → Legal db.features (with_transaction body db).1.features
unfolding with_transaction
transaction-Legal body db legal (done out db') e = rw (e, with_transaction) (legal out db' e)
transaction-Legal body db legal (raised f) e = rw (e, with_transaction) (untouched refl)

pub execute-Legal : (x : Write) (db : Db) → Legal db.features (execute x db).features
unfolding execute persist_transition persist_blocked retry
execute-Legal (github_move clock command) db = store-Legal clock command _ db refl
execute-Legal (cancel input) db = cancel-Legal input _ _ db refl
execute-Legal (block_reused redact attempt reason feature operation_id now) db =
    block-Legal redact attempt reason now _ _ (alone db) refl
execute-Legal (retry_feature is_alive request) db =
    transaction-Legal (retry_body is_alive request) db (retry_body-Legal is_alive request db) _ refl
execute-Legal (approve_and_queue input parsed) db =
    transaction-Legal (approve_body input parsed) db (approve_body-Legal input parsed db) _ refl
