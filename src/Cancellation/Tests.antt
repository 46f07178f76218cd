-- ===== src/Cancellation/Tests.antt =====
-- A running attempt is stopped by the worker that owns it.
use autopilot_console.Prelude.{ℕ, ◌≡◌, refl, some, true, [], ◌∷◌}
use autopilot_console.Feature.State.{FeatureState, developing, same_state}
use autopilot_console.Feature.Machine.{
  is_allowed, apply_feature_transition, apply_edge, replayed as prior_of, conflicting,
}
use autopilot_console.Store.Rows.{FeatureRow, DevelopmentAttemptRow, JobAttemptStatus}
use autopilot_console.Store.Repositories.{
  get_feature_by_id, get_development_attempt, update_features, append_activity_event,
  append_audit_event,
}
use autopilot_console.Task.Approval.{transition_command}
use autopilot_console.Task.Approval.Approve.{unchanged_since, move_feature}
use autopilot_console.Fixtures.{console, feature_row, attempt_row}
use autopilot_console.Cancellation.World.{
  graceful, term, kill, Os, World, verify_identity, get_descendants, signal, sleep, now,
  updated_attempt, update_attempt_status,
}
use autopilot_console.Cancellation.Persist.{
  record_cancellation, finish_attempt, persist_applied, persist_transition,
}
use autopilot_console.Cancellation.Controller.{
  already_cancelled, check_process, check_running, signal_all, signal_tree, while_alive, and_then,
  escalate, stop_process, conclude, request_cancel, stop_and_record, cancel_checked, cancel_running,
}
use autopilot_console.Cancellation.Commands.{
  to_handle, load_owned, process_owned, process_one_cancel,
}

-- Process 900 with the child 901 outlives SIGTERM: the state counts the looks at it.
abbrev stubborn : Os ℕ
stubborn = record {
  verify_identity = λ pid start n. (true, n);
  get_descendants = λ pid n. (some (901 ∷ []), n);
  signal = λ pid kind n. (true, n);
  sleep = λ ms n. n;
  now = λ n. (2000, n);
  others = λ n db. db;
  blocked_id = λ id. id;
}

abbrev attempt : DevelopmentAttemptRow
attempt = record (attempt_row 43 15 JobAttemptStatus.cancel_requested 130) {
  worker_registration_id = some 60;
  process_pid = some 900;
  process_start_identity = some 5000;
}

abbrev feature : FeatureRow
feature = feature_row 15 FeatureState.developing

abbrev world : World ℕ
world = record {
  db = record console { features = feature ∷ []; attempts = attempt ∷ [] };
  failures = [];
  sent = [];
  os = 0;
}

abbrev redact : ℕ → ℕ
redact n = n

abbrev command_id : DevelopmentAttemptRow → ℕ
command_id a = 700

abbrev after : World ℕ
after = (process_one_cancel stubborn redact 1 5000 2500 60 command_id 43 world).1

-- All three signals, the child first.
after-sent :
    after.sent ≡ (900, graceful) ∷ (901, term) ∷ (900, term) ∷ (901, kill) ∷ (900, kill) ∷ []
unfolding process_one_cancel process_owned load_owned cancel_running cancel_checked stop_and_record
    request_cancel conclude stop_process escalate and_then while_alive signal_tree signal_all
    check_running check_process already_cancelled verify_identity get_descendants signal sleep now
    updated_attempt update_attempt_status record_cancellation finish_attempt persist_applied
    persist_transition get_feature_by_id get_development_attempt update_features
    append_activity_event append_audit_event transition_command unchanged_since move_feature
    is_allowed apply_feature_transition apply_edge prior_of conflicting same_state
after-sent = refl

abbrev stopped : World ℕ
stopped =
    (cancel_running stubborn attempt feature 8 700 redact 1 5000 2500 (to_handle attempt) world).1
