-- ===== src/Cancellation/World.antt =====
-- What the cancellation controller acts on. Its `sql` is a plain connection, so that each statement
-- commits on its own, and stays committed when a later step throws. The process tree and the clock,
-- `Os`, are given from outside, with a state of their own; signals are recorded as they are sent.
use autopilot_console.Prelude.{ℕ, ◌==◌, Option, some, none, Bool, List, [], ◌∷◌, ◌++◌, update_where}
use autopilot_console.Failure.{FailureKind, FailureRecommendedAction}
use autopilot_console.Store.Rows.{Db, DevelopmentAttemptRow, JobAttemptStatus}
use autopilot_console.Store.Repositories.{get_development_attempt}

pub data SignalKind : Type 0 where
  graceful term kill : SignalKind

-- `ProcessTreeInspector`, `sleep` and `now`. `get_descendants` and `signal` can throw. `others` is what
-- other sessions commit while the controller waits, and `blocked_id` an operation id with its suffix
-- `:blocked`.
pub record Os (W : Type 0) : Type 0 where
  pub verify_identity : ℕ → ℕ → W → Bool × W
  pub get_descendants : ℕ → W → Option (List ℕ) × W
  pub signal : ℕ → SignalKind → W → Bool × W
  pub sleep : ℕ → W → W
  pub now : W → ℕ × W
  pub others : W → Db → Db
  pub blocked_id : ℕ → ℕ

-- A row of failure_records.
pub record FailureRecordRow : Type 0 where
  pub project_id : ℕ
  pub feature_id : ℕ
  pub attempt_id : Option ℕ
  pub category : FailureKind
  pub recommended_action : FailureRecommendedAction
  pub detail : Option ℕ

pub record World (W : Type 0) : Type 0 where
  pub db : Db
  pub failures : List FailureRecordRow
  pub sent : List (ℕ × SignalKind)
  pub os : W

-- A call that comes back, or throws; the world goes on either way.
pub data Answer (A : Type 0) : Type 0 where
  returned : A → Answer A
  threw : Answer A

module _ {W : Type 0} (os : Os W) where
  unfoldable pub verify_identity : ℕ → ℕ → World W → Bool × World W
  verify_identity pid start w =
      let (same, os') = os.verify_identity pid start w.os in (same, record w { os = os' })

  unfoldable pub get_descendants : ℕ → World W → Option (List ℕ) × World W
  get_descendants pid w =
      let (pids, os') = os.get_descendants pid w.os in (pids, record w { os = os' })

  unfoldable pub signal : ℕ → SignalKind → World W → Bool × World W
  signal pid kind w =
      let (went, os') = os.signal pid kind w.os in
      (went, record w { os = os'; sent = w.sent ++ (pid, kind) ∷ [] })

  unfoldable pub sleep : ℕ → World W → World W
  sleep ms w = record w { os = os.sleep ms w.os; db = os.others w.os w.db }

  unfoldable pub now : World W → ℕ × World W
  now w = let (time, os') = os.now w.os in (time, record w { os = os' })

-- The columns that `updateAttemptStatus` can set.
pub record AttemptUpdate : Type 0 where
  pub status : JobAttemptStatus
  pub ended_at : Option ℕ
  pub exit_code : Option ℕ
  pub cancellation_requested_at : Option ℕ
  pub cancellation_reason : Option ℕ
  pub worker_registration_id : Option ℕ
  pub process_pid : Option ℕ
  pub process_start_identity : Option ℕ
  pub lease_expires_at : Option ℕ
  pub heartbeat_at : Option ℕ
  pub started_at : Option ℕ

-- `COALESCE(value, old)`
abbrev pub coalesce : Option ℕ → Option ℕ → Option ℕ
coalesce (some value) old = some value
coalesce none old = old

unfoldable pub updated_attempt : AttemptUpdate → DevelopmentAttemptRow → DevelopmentAttemptRow
updated_attempt u a = record a {
  status = u.status;
  ended_at = coalesce u.ended_at a.ended_at;
  exit_code = coalesce u.exit_code a.exit_code;
  cancellation_requested_at = coalesce u.cancellation_requested_at a.cancellation_requested_at;
  cancellation_reason = coalesce u.cancellation_reason a.cancellation_reason;
  worker_registration_id = coalesce u.worker_registration_id a.worker_registration_id;
  process_pid = coalesce u.process_pid a.process_pid;
  process_start_identity = coalesce u.process_start_identity a.process_start_identity;
  lease_expires_at = coalesce u.lease_expires_at a.lease_expires_at;
  heartbeat_at = coalesce u.heartbeat_at a.heartbeat_at;
  started_at = coalesce u.started_at a.started_at;
}

-- It throws where there is no such attempt; `none` stands for that.
unfoldable pub update_attempt_status : ℕ → AttemptUpdate → Db → Option Db
unfolding updated_attempt
update_attempt_status id u db = elim (get_development_attempt id db) [
  | none ↦ none
  | some a ↦ some (record db {
    attempts =
        update_where (λ (r : DevelopmentAttemptRow). r.id == id) (updated_attempt u) db.attempts;
  })
]
