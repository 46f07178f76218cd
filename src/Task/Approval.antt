-- ===== src/Task/Approval.antt =====
-- packages/domain/src/task/task-approval-service.ts: what the five operations share.
-- Each operation reads the database, and then commits in a transaction of its own. What other
-- sessions commit between the two is an argument, `others`. A transaction itself runs alone: the
-- rows that it decides by are locked. Reading and parsing a task file is the argument `read_task`,
-- over the project's root and the relative path; `none` is its VALIDATION_FAILED.
pub mod Attach
pub mod Approve
pub mod Change
mod Tests
use text.Mathlib.Text.{◌==◌ as str_eq}
use autopilot_console.Prelude.{
  ℕ, Option, none, some, Bool, true, false, not, ◌||◌, String, if◌then◌else◌, ◌==◌,
}
use autopilot_console.Feature.State.{
  FeatureState, planned, tasks_review, development_failed, development_interrupted,
  development_cancelled,
}
use autopilot_console.Feature.Transition.{TransitionOwner, FeatureTransitionCommand}
use autopilot_console.Store.Rows.{
  Db, FeatureRow, ApprovalResult, AttemptResult, IdempotencyRecordRow, IdempotencyResult,
  approve_result,
}
use autopilot_console.Store.Repositories.{find_idempotency}

pub data TaskArtifactFailureReason : Type 0 where
  validation_failed illegal_state approval_active : TaskArtifactFailureReason
  stale_checksum not_found feature_not_found : TaskArtifactFailureReason

-- `ok: true` with what the operation returns, or `ok: false` with the reason.
pub data ServiceResult (A : Type 0) : Type 0 where
  ok : A → ServiceResult A
  failed : TaskArtifactFailureReason → ServiceResult A

-- What `readAndParseTaskFile` returns for a good file. The summary is kept as a JSON payload.
pub record ParsedTask : Type 0 where
  pub checksum : ℕ
  pub summary : ℕ
  pub requirements : ℕ

pub record Actor : Type 0 where
  pub actor_id : ℕ
  pub correlation_id : Option ℕ

-- REATTACH_STATES
abbrev pub is_reattach_state : FeatureState → Bool
is_reattach_state development_failed = true
is_reattach_state development_interrupted = true
is_reattach_state development_cancelled = true
is_reattach_state _ = false

-- LEGAL_ATTACH_STATES
abbrev pub is_legal_attach_state : FeatureState → Bool
is_legal_attach_state planned = true
is_legal_attach_state tasks_review = true
is_legal_attach_state s = is_reattach_state s

-- INVALIDATE_APPROVAL_STATES
abbrev pub is_invalidate_approval_state : FeatureState → Bool
is_invalidate_approval_state tasks_review = true
is_invalidate_approval_state s = is_reattach_state s

abbrev pub is_tasks_review : FeatureState → Bool
is_tasks_review tasks_review = true
is_tasks_review _ = false

-- `!taskPath` also refuses the empty text.
unfoldable pub given_path : Option String → Option String
given_path none = none
given_path (some path) = if str_eq path "" then none else some path

-- `projectId !== undefined && row.projectId !== projectId`
unfoldable pub other_project : Option ℕ → FeatureRow → Bool
other_project none row = false
other_project (some project_id) row = not (row.project_id == project_id)

-- `readCachedApproveResult`: only a result with an approval and an attempt counts.
unfoldable pub read_cached_approve_result :
    Option IdempotencyRecordRow → Option (ApprovalResult × AttemptResult)
read_cached_approve_result none = none
read_cached_approve_result (some r) = elim r.result [
  | approve_result approval attempt ↦ some (approval, attempt)
  | _ ↦ none
]

unfoldable pub cached_approve : ℕ → Db → Option (ApprovalResult × AttemptResult)
unfolding read_cached_approve_result
cached_approve key db = read_cached_approve_result (find_idempotency key db)

-- The command for a transition from a row's own version. No prior result is ever handed over.
unfoldable pub transition_command :
    ℕ
    → FeatureState
    → FeatureState
    → TransitionOwner
    → ℕ
    → ℕ
    → ℕ
    → Option FeatureState
    → FeatureTransitionCommand
transition_command feature_id from to owner cause operation_id version observed = record {
  feature_id = feature_id;
  from = from;
  to = to;
  owner = owner;
  cause = cause;
  operation_id = operation_id;
  expected_version = version;
  current_version = version;
  observed_state = observed;
  prior_applied_operation_id = none;
  prior_applied_result = none;
}
