-- ===== src/Github/Tests.antt =====
-- The theorems on polling at a few errors and answers.
use autopilot_console.Prelude.{◌⊎◌, ℕ, ◌<◌, ◌≡◌, refl, some, false, true, not, List, [], ◌∷◌, arith}
use autopilot_console.Feature.State.{ci_failed, pr_review, same_state}
use autopilot_console.Feature.Transition.{poller}
use autopilot_console.Feature.Machine.{is_allowed}
use autopilot_console.Github.Backoff.{
  GitHubBackoffState, BackoffStep, asked, failed, default_options, should_backoff, record_backoff,
  backoff_run, backoff_latches, record_backoff_pause,
}
use autopilot_console.Feature.Machine.{apply_feature_transition, apply_edge, replayed, conflicting}
use autopilot_console.Feature.State.{pr_changes_requested}
use autopilot_console.Store.Rows.{Db}
use autopilot_console.Store.Repositories.{get_feature_by_id, update_features}
use autopilot_console.Task.Approval.{transition_command}
use autopilot_console.Task.Approval.Approve.{unchanged_since, move_feature}
use autopilot_console.Fixtures.{console, feature_row}
use autopilot_console.Github.Store.{
  TransitionRequest, MoveResult, conflict, store_command, store_transition,
  transition_feature_in_store,
}
use autopilot_console.Github.Store.Moves.{
  Moves, transition_feature_in_store-Moves, transition_unmoved,
}
use autopilot_console.Github.Poll.Requests.{lacks, poll_requests}
use autopilot_console.Github.Poll.{
  PullRequestStatus, open_pr, failing, no_decision, poll, poll_status, resolve_check_state,
}

abbrev five_errors : GitHubBackoffState
five_errors = record {
  consecutive_errors = 5;
  last_error_at = some 100;
  backoff_until = some 480100;
}

abbrev steps : List BackoffStep
steps = asked 500000 ∷ failed 600000 ∷ []

backoff_latches_example :
    should_backoff default_options 9000000 (backoff_run default_options five_errors steps) ≡ true
backoff_latches_example =
    backoff_latches default_options five_errors steps 9000000 (ground arith) (ground arith)

-- After two errors, the pause for the second being over.
abbrev two_errors : GitHubBackoffState
two_errors = record {
  consecutive_errors = 2;
  last_error_at = some 40000;
  backoff_until = some 100000;
}

record_backoff_pause_example :
    should_backoff default_options 220000 (record_backoff default_options 101000 two_errors) ≡ true
record_backoff_pause_example =
    record_backoff_pause default_options 101000 220000 two_errors (λ until set. ground arith)
      (ground arith) (ground arith) (ground arith)

abbrev red : PullRequestStatus
red = record { state = open_pr; check_summary = failing; review_decision = no_decision }

poll_requests_example :
    (is_allowed pr_review ci_failed poller ≡ not (lacks pr_review ci_failed))
    × (false ≡ false)
    × ((seen : ℕ) → some 5 ≡ some seen → seen < 6)
unfolding poll poll_status resolve_check_state same_state
poll_requests_example =
    poll_requests pr_review ci_failed poller (some "ci.failed") false (some 5) 6 red refl

abbrev to_changes : TransitionRequest
to_changes = record {
  from = pr_review;
  to = pr_changes_requested;
  owner = poller;
  operation_id = 70;
}

abbrev reviewing : Db
reviewing = record console { features = feature_row 10 pr_review ∷ [] }

abbrev move : MoveResult × Db
move = transition_feature_in_store (λ db. db) 10 to_changes reviewing

abbrev meanwhile : Db → Db
meanwhile db = record db { features = feature_row 10 ci_failed ∷ [] }

transition_feature_in_store-Moves_example : Moves 10 to_changes reviewing reviewing move.1
unfolding transition_feature_in_store store_transition store_command get_feature_by_id
    update_features unchanged_since move_feature transition_command apply_feature_transition
    apply_edge replayed conflicting is_allowed same_state
transition_feature_in_store-Moves_example =
    transition_feature_in_store-Moves (λ db. db) 10 to_changes reviewing move.1 (ground arith) refl

transition_unmoved_example :
    (meanwhile reviewing ≡ reviewing) ⊎ (meanwhile reviewing ≡ meanwhile reviewing)
unfolding transition_feature_in_store store_transition store_command get_feature_by_id
    update_features unchanged_since move_feature transition_command apply_feature_transition
    apply_edge replayed conflicting is_allowed same_state
transition_unmoved_example =
    transition_unmoved meanwhile 10 to_changes reviewing conflict (meanwhile reviewing) refl
