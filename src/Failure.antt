-- ===== src/Failure.antt =====
-- packages/domain/src/failure/failure-policy.ts: what a failure means for the owner. Texts meant for
-- people are left out; `redact`, regular expressions over the detail, is an argument.
use autopilot_console.Prelude.{ℕ, Option, some, none, Bool, true, false}
use autopilot_console.Attention.{
  AttentionCategory, AttentionAction, blocked, development_failed, pr_creation_failed, ci_failed,
  development_interrupted, stale_github_sync, retry_development, resolve_block, retry_pr_creation,
  open_github_checks, refresh_github_status,
}

pub data FailureKind : Type 0 where
  validation queue process task_result git github ci cancellation interruption stale_sync :
      FailureKind

pub data FailureRecommendedAction : Type 0 where
  attention_action : AttentionAction → FailureRecommendedAction
  fix_input : FailureRecommendedAction

pub record FailureSpec : Type 0 where
  pub recommended_action : FailureRecommendedAction
  pub attention_category : Option AttentionCategory
  pub requires_explicit_retry : Bool

abbrev pub specs : FailureKind → FailureSpec
specs validation = record {
  recommended_action = fix_input;
  attention_category = some blocked;
  requires_explicit_retry = false;
}
specs queue = record {
  recommended_action = attention_action retry_development;
  attention_category = some development_failed;
  requires_explicit_retry = true;
}
specs process = record {
  recommended_action = attention_action retry_development;
  attention_category = some development_failed;
  requires_explicit_retry = true;
}
specs task_result = record {
  recommended_action = attention_action retry_development;
  attention_category = some development_failed;
  requires_explicit_retry = true;
}
specs git = record {
  recommended_action = attention_action resolve_block;
  attention_category = some blocked;
  requires_explicit_retry = true;
}
specs github = record {
  recommended_action = attention_action retry_pr_creation;
  attention_category = some pr_creation_failed;
  requires_explicit_retry = true;
}
specs ci = record {
  recommended_action = attention_action open_github_checks;
  attention_category = some ci_failed;
  requires_explicit_retry = false;
}
specs cancellation = record {
  recommended_action = attention_action retry_development;
  attention_category = none;
  requires_explicit_retry = false;
}
specs interruption = record {
  recommended_action = attention_action retry_development;
  attention_category = some development_interrupted;
  requires_explicit_retry = true;
}
specs stale_sync = record {
  recommended_action = attention_action refresh_github_status;
  attention_category = some stale_github_sync;
  requires_explicit_retry = false;
}

pub record FailureProjection : Type 0 where
  pub kind : FailureKind
  pub detail : Option ℕ
  pub spec : FailureSpec

-- `mapFailure`, with the fields of the specification kept together.
unfoldable pub map_failure : (ℕ → ℕ) → FailureKind → Option ℕ → FailureProjection
map_failure redact kind none = record { kind = kind; detail = none; spec = specs kind }
map_failure redact kind (some detail) = record {
  kind = kind;
  detail = some (redact detail);
  spec = specs kind;
}
