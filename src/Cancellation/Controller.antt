-- ===== src/Cancellation/Controller.antt =====
-- `cancelQueued` and `cancelRunning`: the checks, the signals from the polite to the final one, and the
-- writes at the end.
use autopilot_console.Prelude.{
  ℕ, ◌==◌, Option, some, none, Bool, true, false, not, ◌||◌, List, [], ◌∷◌, if◌then◌else◌,
}
use autopilot_console.Feature.State.{development_cancelled}
use autopilot_console.Feature.Transition.{TransitionOwner, human, human_and_process_control}
use autopilot_console.Store.Rows.{
  Db, FeatureRow, DevelopmentAttemptRow, JobAttemptStatus, queued, running, cancel_requested,
  cancelled,
}
use autopilot_console.Store.Repositories.{get_development_attempt}
use autopilot_console.Cancellation.World.{
  SignalKind, graceful, term, kill, Os, World, Answer, returned, threw, verify_identity,
  get_descendants, signal, sleep, now, update_attempt_status,
}
use autopilot_console.Cancellation.Persist.{
  status_only, PersistTransitionInput, persist_transition, persist_blocked,
}

pub data CancelRefusal : Type 0 where
  not_queued not_running wrong_handle no_process pid_reuse : CancelRefusal

-- All of them carry the id of the attempt.
pub data CancelOutcome : Type 0 where
  cancelled_outcome : CancelOutcome
  blocked_outcome : CancelRefusal → CancelOutcome
  idempotent_outcome : CancelOutcome

pub record RunHandle : Type 0 where
  pub project_id : ℕ
  pub feature_id : ℕ
  pub pid : ℕ
  pub start_time_ms : ℕ

abbrev pub is_cancelled : JobAttemptStatus → Bool
is_cancelled cancelled = true
is_cancelled _ = false

abbrev pub is_queued : JobAttemptStatus → Bool
is_queued queued = true
is_queued _ = false

abbrev pub is_stoppable : JobAttemptStatus → Bool
is_stoppable running = true
is_stoppable cancel_requested = true
is_stoppable _ = false

-- `fresh && fresh.status === "CANCELLED"`
unfoldable pub already_cancelled : ℕ → Db → Bool
already_cancelled id db = elim (get_development_attempt id db) [
  | none ↦ false
  | some fresh ↦ is_cancelled fresh.status
]

abbrev pub cancellation :
    DevelopmentAttemptRow → FeatureRow → TransitionOwner → ℕ → ℕ → ℕ → PersistTransitionInput
cancellation attempt feature owner reason operation_id time = record {
  attempt = attempt;
  feature = feature;
  target_state = development_cancelled;
  attempt_status = cancelled;
  owner = owner;
  cause = reason;
  operation_id = operation_id;
  action = "development.cancel";
  activity_type = "development.cancelled";
  now = time;
}

-- What `cancelRunning` checks before it looks at a process: the process to verify, or an answer.
pub data RunningCheck : Type 0 where
  answer : CancelOutcome → RunningCheck
  verify : ℕ → ℕ → RunningCheck

unfoldable pub check_process : Option ℕ → Option ℕ → RunningCheck
check_process none start = answer (blocked_outcome no_process)
check_process (some pid) none = answer (blocked_outcome no_process)
check_process (some pid) (some start) = verify pid start

unfoldable pub check_running : DevelopmentAttemptRow → RunHandle → Db → RunningCheck
unfolding already_cancelled
check_running attempt handle db =
    if already_cancelled attempt.id db
    then answer idempotent_outcome
    else if not (is_stoppable attempt.status)
    then answer (blocked_outcome not_running)
    else if not (handle.project_id == attempt.project_id)
        || not (handle.feature_id == attempt.feature_id)
    then answer (blocked_outcome wrong_handle)
    else check_process attempt.process_pid attempt.process_start_identity

module _ {W : Type 0} (os : Os W) where
  -- A signal to each, whatever becomes of it.
  unfoldable pub signal_all : SignalKind → List ℕ → World W → World W
  signal_all kind [] w = w
  signal_all kind (pid ∷ pids) w = signal_all kind pids (signal os pid kind w).1

  -- The descendants, then the wrapper; `false` where the descendants cannot be read.
  unfoldable pub signal_tree : SignalKind → ℕ → World W → Bool × World W
  signal_tree kind pid w =
      let (found, w') = get_descendants os pid w in
      elim found [
        | none ↦ (false, w')
        | some pids ↦ (true, (signal os pid kind (signal_all kind pids w')).1)
      ]

  -- `run` where the process is alive still.
  unfoldable pub while_alive : ℕ → ℕ → (World W → Bool × World W) → World W → Bool × World W
  while_alive pid start run w =
      let (alive, w') = verify_identity os pid start w in if alive then run w' else (true, w')

  -- `m` and then `k`, where `m` does not throw.
  unfoldable pub and_then : Bool × World W → (World W → Bool × World W) → Bool × World W
  and_then (false, w) k = (false, w)
  and_then (true, w) k = k w

  -- After the first signal.
  unfoldable pub escalate : ℕ → ℕ → ℕ → World W → Bool × World W
  escalate kill_grace pid start w =
      while_alive pid start
        (λ w1.
          and_then (signal_tree term pid w1)
            (λ w2. while_alive pid start (signal_tree kill pid) (sleep os kill_grace w2)))
        w

  unfoldable pub stop_process : ℕ → ℕ → ℕ → ℕ → World W → Bool × World W
  stop_process grace kill_grace pid start w =
      and_then (signal os pid graceful w) (λ w'. escalate kill_grace pid start (sleep os grace w'))

  -- A run of writes to the database alone.
  abbrev pub on_db : World W → Bool × Db → Bool × World W
  on_db w (done, db) = (done, record w { db = db })

  abbrev pub answering : CancelOutcome → Bool × World W → Answer CancelOutcome × World W
  answering outcome (false, w) = (threw, w)
  answering outcome (true, w) = (returned outcome, w)

  module _ (attempt : DevelopmentAttemptRow) (feature : FeatureRow) (reason operation_id : ℕ) where
    unfoldable pub conclude : TransitionOwner → World W → Bool × World W
    conclude owner w =
        let (time, w') = now os w in
        on_db w'
          (persist_transition (cancellation attempt feature owner reason operation_id time) w'.db)

    unfoldable pub cancel_queued : World W → Answer CancelOutcome × World W
    cancel_queued w =
        if already_cancelled attempt.id w.db
        then (returned idempotent_outcome, w)
        else if not (is_queued attempt.status)
        then (returned (blocked_outcome not_queued), w)
        else answering cancelled_outcome (conclude human w)

    -- `CANCEL_REQUESTED` is stored before the first signal.
    unfoldable pub request_cancel : World W → Bool × World W
    request_cancel w =
        let (time, w') = now os w in
        elim (update_attempt_status attempt.id
          (record (status_only cancel_requested) {
            cancellation_requested_at = some time;
            cancellation_reason = some reason;
          })
          w'.db) [ none ↦ (false, w') | some db ↦ (true, record w' { db = db }) ]

    module _ (redact : ℕ → ℕ) (replaced grace kill_grace : ℕ) (handle : RunHandle) where
      -- Another process has the pid.
      unfoldable pub refuse_reused : World W → Bool × World W
      refuse_reused w =
          let (time, w') = now os w in
          persist_blocked redact attempt replaced feature (os.blocked_id operation_id) time w'

      unfoldable pub stop_and_record : World W → Bool × World W
      stop_and_record w = and_then (request_cancel w) (λ w1.
          and_then (stop_process grace kill_grace handle.pid handle.start_time_ms w1)
            (conclude human_and_process_control))

      unfoldable pub cancel_checked : RunningCheck → World W → Answer CancelOutcome × World W
      cancel_checked (answer outcome) w = (returned outcome, w)
      cancel_checked (verify pid start) w =
          let (same, w') = verify_identity os pid start w in
          if same
          then answering cancelled_outcome (stop_and_record w')
          else answering (blocked_outcome pid_reuse) (refuse_reused w')

      unfoldable pub cancel_running : World W → Answer CancelOutcome × World W
      cancel_running w = cancel_checked (check_running attempt handle w.db) w
