-- ===== src/Cancellation/Owned.antt =====
-- The worker stops only what it owns, and only the process it recorded.
use autopilot_console.Prelude.{ℕ, ◌≡◌, some, true, List, ◌∷◌, ◌++◌}
use autopilot_console.Store.Rows.{Db, FeatureRow, DevelopmentAttemptRow, cancel_requested}
use autopilot_console.Store.Repositories.{get_development_attempt, get_feature_by_id}
use autopilot_console.Cancellation.World.{SignalKind, graceful, Os, World}
use autopilot_console.Cancellation.Stopping.{Stopping}

-- The attempt that a command is for, read by the worker that owns it.
pub record Owns (worker_id attempt_id : ℕ) (db : Db) (attempt : DevelopmentAttemptRow)
    (feature : FeatureRow) : Type 0 where
  pub found : get_development_attempt attempt_id db ≡ some attempt
  pub feature_found : get_feature_by_id attempt.feature_id db ≡ some feature
  pub status : attempt.status ≡ cancel_requested
  pub worker : attempt.worker_registration_id ≡ some worker_id

module _ {W : Type 0} (os : Os W) (redact : ℕ → ℕ) (replaced grace kill_grace worker_id : ℕ)
    (command_id : DevelopmentAttemptRow → ℕ) where
  -- An attempt of the worker was asked to stop, its process was there, and the signals go to it.
  pub record Stops (attempt_id : ℕ) (w w' : World W) : Type 0 where
    pub attempt : DevelopmentAttemptRow
    pub feature : FeatureRow
    pub pid : ℕ
    pub start : ℕ
    pub owned : Owns worker_id attempt_id w.db attempt feature
    pub process_pid : attempt.process_pid ≡ some pid
    pub process_start : attempt.process_start_identity ≡ some start
    pub verified : (os.verify_identity pid start w.os).0 ≡ true
    pub rounds : List (ℕ × SignalKind)
    pub sent : w'.sent ≡ w.sent ++ (pid, graceful) ∷ rounds
    pub stopping :
        Stopping os grace kill_grace pid start
          (os.now (os.verify_identity pid start w.os).1).1
          rounds
