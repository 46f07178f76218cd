-- ===== src/Github/Poll.antt =====
-- apps/worker/src/github/pr-reconciliation-worker.ts: what one poll of a pull request asks for. The
-- answer of GitHub is the argument `status`, less the parts that only go into texts.
pub mod Requests
use autopilot_console.Prelude.{
  ℕ, ◌<◌, ◌≡◌, refl, sym, ◌∙◌, ap, Option, some, none, Bool, true, false, inl, inr, String, not,
  ◌&&◌, ◌||◌, if◌then◌else◌, leb, arith, all, Bool-cases,
}
use autopilot_console.Feature.State.{
  FeatureState, pr_creating, pr_creation_failed, ci_running, ci_failed, pr_review,
  pr_changes_requested, development_merged, blocked, same_state, feature_states,
}
use autopilot_console.Feature.Transition.{TransitionOwner, guard, poller}
use autopilot_console.Feature.Names.{
  number, owners, owner_number, agree, agree_sound, on_every_transition,
}
use autopilot_console.Feature.Machine.{is_allowed}

pub data PullRequestLifecycleState : Type 0 where
  open_pr merged_pr closed_pr : PullRequestLifecycleState

pub data CheckSummary : Type 0 where
  pending passing failing no_checks : CheckSummary

pub data ReviewDecision : Type 0 where
  approved changes_requested review_required no_decision unknown : ReviewDecision

pub record PullRequestStatus : Type 0 where
  pub state : PullRequestLifecycleState
  pub check_summary : CheckSummary
  pub review_decision : ReviewDecision

unfoldable pub resolve_review : PullRequestStatus → FeatureState × Option String
resolve_review status = elim status.review_decision [
  | changes_requested ↦ (pr_changes_requested, some "pr.changes_requested")
  | _ ↦ elim status.check_summary [
    | passing ↦ (pr_review, some "ci.passed")
    | _ ↦ (pr_review, none)
  ]
]

-- The target state, and the type of the activity to record.
unfoldable pub resolve_check_state : PullRequestStatus → FeatureState × Option String
unfolding resolve_review
resolve_check_state status = elim status.state [
  | merged_pr ↦ (development_merged, some "pr.merged")
  | closed_pr ↦ (blocked, some "pr.closed_without_merge")
  | open_pr ↦ elim status.check_summary [
    | pending ↦ (ci_running, none)
    | failing ↦ (ci_failed, some "ci.failed")
    | _ ↦ resolve_review status
  ]
]

-- TERMINAL_STATES
abbrev pub is_poll_terminal : FeatureState → Bool
is_poll_terminal development_merged = true
is_poll_terminal blocked = true
is_poll_terminal _ = false

-- RECONCILIABLE_STATES
abbrev pub is_reconciliable : FeatureState → Bool
is_reconciliable ci_running = true
is_reconciliable ci_failed = true
is_reconciliable pr_review = true
is_reconciliable pr_changes_requested = true
is_reconciliable pr_creating = true
is_reconciliable pr_creation_failed = true
is_reconciliable _ = false

-- The owner that a requested transition names.
abbrev pub request_owner : FeatureState → TransitionOwner
request_owner blocked = guard
request_owner _ = poller

-- What the poll of one pull request does, if GitHub answers: it passes the pull request over,
-- passes over an answer that is not newer than the last, takes the observation with no transition,
-- or takes it and asks the store for a transition.
pub data PollDecision : Type 0 where
  skipped stale observed : PollDecision
  requested : FeatureState → TransitionOwner → Option String → PollDecision

unfoldable pub poll_status : FeatureState → PullRequestStatus → PollDecision
unfolding resolve_check_state same_state
poll_status state status =
    let (target, activity) = resolve_check_state status in
    if same_state target state then observed else requested target (request_owner target) activity

unfoldable pub poll : FeatureState → Bool → Option ℕ → ℕ → PullRequestStatus → PollDecision
unfolding poll_status
poll state backing_off last_observed_at now status =
    if is_poll_terminal state || not (is_reconciliable state) || backing_off
    then skipped
    else elim last_observed_at [
      | none ↦ poll_status state status
      | some last ↦ if leb now last then stale else poll_status state status
    ]
