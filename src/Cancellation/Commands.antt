-- ===== src/Cancellation/Commands.antt =====
-- apps/worker/src/runtime/job-command-worker.ts: the worker carries out the cancellations that the API
-- has stored.
use autopilot_console.Prelude.{
  ℕ, ◌==◌, Option, some, none, Bool, true, false, List, [], ◌∷◌, ◌++◌, map, if◌then◌else◌, ◌&&◌,
  filter_where,
}
use autopilot_console.Store.Rows.{
  Db, FeatureRow, DevelopmentAttemptRow, JobAttemptStatus, cancel_requested,
}
use autopilot_console.Store.Repositories.{get_development_attempt, get_feature_by_id}
use autopilot_console.Cancellation.World.{Os, World, Answer, returned, threw}
use autopilot_console.Cancellation.Controller.{CancelOutcome, RunHandle, cancel_running}

abbrev pub or_zero : Option ℕ → ℕ
or_zero (some n) = n
or_zero none = 0

-- The fields of the handle that the controller reads.
abbrev pub to_handle : DevelopmentAttemptRow → RunHandle
to_handle attempt = record {
  project_id = attempt.project_id;
  feature_id = attempt.feature_id;
  pid = or_zero attempt.process_pid;
  start_time_ms = or_zero attempt.process_start_identity;
}

abbrev pub is_cancel_requested : JobAttemptStatus → Bool
is_cancel_requested cancel_requested = true
is_cancel_requested _ = false

abbrev pub same_worker : Option ℕ → ℕ → Bool
same_worker none worker_id = false
same_worker (some id) worker_id = id == worker_id

abbrev pub is_owned : ℕ → DevelopmentAttemptRow → Bool
is_owned worker_id a =
    is_cancel_requested a.status && same_worker a.worker_registration_id worker_id

-- `loadOwnedCancelRequested`
unfoldable pub load_owned : ℕ → ℕ → Db → Option (DevelopmentAttemptRow × FeatureRow)
load_owned worker_id attempt_id db = elim (get_development_attempt attempt_id db) [
  | none ↦ none
  | some attempt ↦
      if is_owned worker_id attempt
      then elim (get_feature_by_id attempt.feature_id db) [
        | none ↦ none
        | some feature ↦ some (attempt, feature)
      ]
      else none
]

-- `attempt.cancellationReason ?? "owner requested stop"`
abbrev pub reason_of : DevelopmentAttemptRow → ℕ
reason_of attempt = elim attempt.cancellation_reason [ none ↦ 0 | some reason ↦ reason ]

-- `command_id` is the operation id made of the attempt and the time of the request, `order` the ORDER
-- BY of the candidates.
module _ {W : Type 0} (os : Os W) (redact : ℕ → ℕ) (replaced grace kill_grace worker_id : ℕ)
    (command_id : DevelopmentAttemptRow → ℕ) where
  unfoldable pub process_owned :
      Option (DevelopmentAttemptRow × FeatureRow)
      → World W
      → Answer (Option (ℕ × CancelOutcome)) × World W
  process_owned none w = (returned none, w)
  process_owned (some (attempt, feature)) w =
      let (outcome, w') =
        cancel_running os attempt feature (reason_of attempt) (command_id attempt) redact replaced
          grace kill_grace (to_handle attempt) w in
      elim outcome [ threw ↦ (threw, w') | returned o ↦ (returned (some (attempt.id, o)), w') ]

  unfoldable pub process_one_cancel : ℕ → World W → Answer (Option (ℕ × CancelOutcome)) × World W
  process_one_cancel attempt_id w = process_owned (load_owned worker_id attempt_id w.db) w

  abbrev pub with_outcome :
      Option (ℕ × CancelOutcome) → List (ℕ × CancelOutcome) → List (ℕ × CancelOutcome)
  with_outcome none outcomes = outcomes
  with_outcome (some outcome) outcomes = outcomes ++ outcome ∷ []

  -- The loop over the candidates; a throw ends it.
  unfoldable pub process_all :
      List ℕ → List (ℕ × CancelOutcome) → World W → Answer (List (ℕ × CancelOutcome)) × World W
  process_all [] outcomes w = (returned outcomes, w)
  process_all (id ∷ ids) outcomes w =
      let (result, w') = process_one_cancel id w in
      elim result [
        | threw ↦ (threw, w')
        | returned o ↦ process_all ids (with_outcome o outcomes) w'
      ]

  unfoldable pub process_pending_cancels :
      (List DevelopmentAttemptRow → List DevelopmentAttemptRow)
      → World W
      → Answer (List (ℕ × CancelOutcome)) × World W
  process_pending_cancels order w =
      process_all
        (map (λ (a : DevelopmentAttemptRow). a.id)
          (order (filter_where (is_owned worker_id) w.db.attempts)))
        [] w
