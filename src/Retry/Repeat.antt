-- ===== src/Retry/Repeat.antt =====
-- Sending a retry a second time.
use autopilot_console.Prelude.{
  ℕ, ◌==◌, ==_refl, ◌≡◌, ◌∙◌, ap, Option, some, none, Bool, arith, [], ◌∷◌, ◌++◌, find,
  find-append_right,
}
use autopilot_console.Store.Rows.{Db, DevelopmentAttemptRow, IdempotencyRecordRow}
use autopilot_console.Store.Tx.{replied, with_transaction}
use autopilot_console.Store.Repositories.{get_development_attempt, find_idempotency}
use autopilot_console.Retry.{RetryRequest, retried, replayed, retry_body, retry, replay_retry}
use autopilot_console.Retry.Writes.{stored_retry}
use autopilot_console.Retry.Handler.{retry-Retried}

-- The stored result, and the attempt that it names, are found again.
stored_found :
    (request : RetryRequest) (db : Db) (attempt : DevelopmentAttemptRow) (db' : Db)
    → find_idempotency request.operation_key db ≡ none
    → db'.idempotency ≡ db.idempotency ++ stored_retry request attempt ∷ []
    → find_idempotency request.operation_key db' ≡ some (stored_retry request attempt)
unfolding find_idempotency
stored_found request db attempt db' unused added =
    let p = λ (x : IdempotencyRecordRow). x.operation_key == request.operation_key in
    ap (find p) added
    ∙ find-append_right p db.idempotency (stored_retry request attempt ∷ []) unused
    ∙ rw (==_refl request.operation_key)

attempt_found :
    (db : Db) (attempt : DevelopmentAttemptRow) (db' : Db)
    → get_development_attempt db.next_id db ≡ none
    → attempt.id ≡ db.next_id
    → db'.attempts ≡ db.attempts ++ attempt ∷ []
    → get_development_attempt attempt.id db' ≡ some attempt
unfolding get_development_attempt
attempt_found db attempt db' fresh id added =
    let p = λ (x : DevelopmentAttemptRow). x.id == attempt.id in
    ap (find p) added
    ∙ find-append_right p db.attempts (attempt ∷ [])
        (ap (λ i. find (λ (x : DevelopmentAttemptRow). x.id == i) db.attempts) id ∙ fresh)
    ∙ rw (==_refl attempt.id)

replay_stored :
    (request : RetryRequest) (attempt : DevelopmentAttemptRow) (db : Db)
    → get_development_attempt attempt.id db ≡ some attempt
    → replay_retry request (stored_retry request attempt) db ≡ replayed attempt
unfolding replay_retry
replay_stored request attempt db found =
    rw (==_refl request.project_id, ==_refl request.feature_id, found)

-- After a retry that reported a new attempt, whose id is the id of no attempt before it, sending the
-- same request again answers with the same attempt as a replay, and changes nothing.
pub retry_again :
    (is_alive is_alive' : Option (ℕ → ℕ → Bool)) (request : RetryRequest) (db : Db)
    (attempt : DevelopmentAttemptRow) (db' : Db)
    → get_development_attempt db.next_id db ≡ none
    → retry is_alive request db ≡ (replied (retried attempt), db')
    → retry is_alive' request db' ≡ (replied (replayed attempt), db')
unfolding retry with_transaction retry_body
retry_again is_alive is_alive' request db attempt db' fresh h =
    let made = retry-Retried is_alive request db attempt db' h in
    let found = stored_found request db attempt db' made.unused_key made.idempotency in
    let answer =
      replay_stored request attempt db'
        (attempt_found db attempt db' fresh made.new_id made.attempts) in
    ground arith
