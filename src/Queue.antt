-- ===== src/Queue.antt =====
-- packages/database/src/queue/development-queue.ts: claiming the next queued attempt.
-- The rows that other transactions hold are the argument `locked`, and what other sessions commit
-- between the choice of a candidate and its update is `others`: PostgreSQL's default isolation shows
-- each statement what is committed then.
pub mod Laws
pub mod Fifo
pub mod Guard
mod Tests
use autopilot_console.Prelude.{
  ℕ, ◌+◌, ◌==◌, Option, some, none, Bool, true, false, not, ◌&&◌, ◌||◌, if◌then◌else◌, List, [],
  ◌∷◌, ltb, leb, any, find, filter_where, update_where, count_where,
}
use autopilot_console.Store.Rows.{
  Db, DevelopmentAttemptRow, WorkerRegistrationRow, JobAttemptStatus, is_active, queued, running,
}
use autopilot_console.Store.Tx.{Reply, replied, threw, unique_violation}

abbrev pub is_registered : ℕ → WorkerRegistrationRow → Bool
is_registered worker_id w =
    w.worker_id == worker_id && elim w.stopped_at [ none ↦ true | some _ ↦ false ]

abbrev pub is_queued : JobAttemptStatus → Bool
is_queued queued = true
is_queued _ = false

abbrev pub is_active_in : ℕ → DevelopmentAttemptRow → Bool
is_active_in project_id a = is_active a.status && a.project_id == project_id

-- status = 'QUEUED' AND NOT EXISTS (an active attempt of the project), FOR UPDATE SKIP LOCKED
unfoldable pub is_candidate : (DevelopmentAttemptRow → Bool) → Db → DevelopmentAttemptRow → Bool
is_candidate locked db a =
    is_queued a.status && (not (any (is_active_in a.project_id) db.attempts) && not (locked a))

-- ORDER BY enqueued_at ASC, id ASC
unfoldable pub before : DevelopmentAttemptRow → DevelopmentAttemptRow → Bool
before a b = ltb a.enqueued_at b.enqueued_at || a.enqueued_at == b.enqueued_at && ltb a.id b.id

-- … LIMIT 1
unfoldable pub oldest : List DevelopmentAttemptRow → Option DevelopmentAttemptRow
oldest [] = none
oldest (x ∷ xs) = elim (oldest xs) [ none ↦ some x | some y ↦ some (if before y x then y else x) ]

-- WHERE id = … AND status = 'QUEUED'
unfoldable pub is_target : ℕ → DevelopmentAttemptRow → Bool
is_target id a = a.id == id && is_queued a.status

abbrev pub start : ℕ → ℕ → ℕ → DevelopmentAttemptRow → DevelopmentAttemptRow
start registration now lease_expires a = record a {
  status = running;
  worker_registration_id = some registration;
  started_at = some now;
  lease_expires_at = some lease_expires;
  heartbeat_at = some now;
}

-- The update, under the index development_job_attempts_one_active_per_project.
unfoldable pub start_attempt :
    ℕ → ℕ → ℕ → DevelopmentAttemptRow → Db → Reply (Option DevelopmentAttemptRow) × Db
start_attempt registration now lease_expires target db =
    elim (find (is_target target.id) db.attempts) [
      | none ↦ (replied none, db)
      | some row ↦
          if any (is_active_in row.project_id) db.attempts then (threw unique_violation, db) else (
            replied (some (start registration now lease_expires row)),
            record db {
              attempts =
                  update_where (is_target target.id) (start registration now lease_expires)
                    db.attempts;
            },
          )
    ]

abbrev pub active_count : Db → ℕ
active_count db = count_where (λ (a : DevelopmentAttemptRow). is_active a.status) db.attempts

unfoldable pub claim_next_attempt :
    ℕ
    → ℕ
    → (Db → Db)
    → (DevelopmentAttemptRow → Bool)
    → ℕ
    → ℕ
    → Db
    → Reply (Option DevelopmentAttemptRow) × Db
claim_next_attempt max_concurrent lease_duration others locked now worker_id db =
    elim (find (is_registered worker_id) db.workers) [
      | none ↦ (replied none, db)
      | some worker ↦
          if leb max_concurrent (active_count db)
          then (replied none, db)
          else elim (oldest (filter_where (is_candidate locked db) db.attempts)) [
            | none ↦ (replied none, db)
            | some target ↦ start_attempt worker.id now (now + lease_duration) target (others db)
          ]
    ]

-- The defaults of `DevelopmentQueueOptions`.
abbrev pub default_max_concurrent : ℕ
default_max_concurrent = 4

abbrev pub default_lease_duration_ms : ℕ
default_lease_duration_ms = 30000
