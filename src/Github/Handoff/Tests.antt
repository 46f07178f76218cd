-- ===== src/Github/Handoff/Tests.antt =====
-- A handoff that creates a pull request, and its repetition.
use autopilot_console.Prelude.{ℕ, ◌≡◌, refl, some, none, true, [], ◌∷◌}
use autopilot_console.Feature.State.{FeatureState, same_state}
use autopilot_console.Feature.Machine.{
  is_allowed, apply_feature_transition, apply_edge, replayed as prior_of, conflicting,
}
use autopilot_console.Store.Rows.{JobAttemptStatus}
use autopilot_console.Store.Repositories.{
  get_feature_by_id, get_project_by_id, get_development_attempt, update_features,
  append_activity_event, append_audit_event,
}
use autopilot_console.Task.Approval.{transition_command}
use autopilot_console.Task.Approval.Approve.{unchanged_since, move_feature}
use autopilot_console.Fixtures.{console, feature_row, attempt_row}
use autopilot_console.Github.Store.{store_command, store_transition, transition_feature_in_store}
use autopilot_console.Github.Handoff.Store.{
  PullRequestIdentity, completed, absent, Hub, HandoffWorld, answered, load_context, stored_outcome,
  note, audit, transition, persist_identity, record_result,
}
use autopilot_console.Github.Handoff.Worker.{
  finish, create, look_up, resolve_identity, push_branch, resolve_branch, begin, begin_loaded,
  handoff,
}
use autopilot_console.Github.Handoff.Completed.{Completes, handoff-Completes}
use autopilot_console.Github.Handoff.Repeat.{handoff_again}

abbrev identity : PullRequestIdentity
identity = record {
  number = 7;
  url = 70;
  head_branch = "feature/a";
  base_branch = "develop";
  original_head_sha = 900;
}

-- No pull request is there yet, and the state counts nothing.
abbrev hub : Hub ℕ
hub = record {
  ensure_feature_branch = λ branch g. (some 900, g);
  push_feature_branch = λ branch sha g. (some sha, g);
  get_pull_request_status = λ number g. (true, g);
  find_existing = λ branch g. (absent, g);
  create_pull_request = λ branch g. (some identity, g);
  others = λ g db. db;
  repository_of = λ project_id. project_id;
}

abbrev world : HandoffWorld ℕ
world = record {
  db = record console {
    features = feature_row 16 FeatureState.development_complete ∷ [];
    attempts = attempt_row 44 16 JobAttemptStatus.succeeded 140 ∷ [];
  };
  pull_requests = [];
  results = [];
  failures = [];
  requested = [];
  hub = 0;
}

handoff-completed : (handoff hub 44 world).0 ≡ answered (completed 7)
unfolding handoff begin_loaded begin resolve_branch push_branch resolve_identity look_up create
    finish record_result persist_identity transition note audit stored_outcome load_context
    get_feature_by_id get_project_by_id get_development_attempt update_features
    append_activity_event append_audit_event transition_command unchanged_since move_feature
    is_allowed apply_feature_transition apply_edge prior_of conflicting same_state store_command
    store_transition transition_feature_in_store
handoff-completed = refl

fresh : stored_outcome 44 world.results ≡ none
unfolding stored_outcome
fresh = refl

handoff-Completes_example : Completes hub 44 world 7 (handoff hub 44 world).1
handoff-Completes_example = handoff-Completes hub 44 world 7 fresh handoff-completed

handoff_again_example :
    handoff hub 44 (handoff hub 44 world).1 ≡ (answered (completed 7), (handoff hub 44 world).1)
handoff_again_example = handoff_again hub 44 world (λ g db has. has) 7 handoff-completed
