-- ===== src/Feature/Transition.antt =====
-- packages/domain/src/feature/feature-transition.ts: the command, the event and the results of the
-- transition service. Identifiers, causes and clock readings are opaque to it and are numbers here;
-- the human-readable `message` of a rejection is left out.
use autopilot_console.Prelude.{ℕ, Option}
use autopilot_console.Feature.State.{FeatureState}

pub data TransitionOwner : Type 0 where
  human human_and_validation human_and_process_control worker : TransitionOwner
  agent_result_and_verification reconciliation github_adapter poller guard : TransitionOwner

pub data TransitionRejectionReason : Type 0 where
  forbidden_transition state_conflict version_conflict : TransitionRejectionReason

-- `type` is the constant "feature.transitioned".
pub record FeatureTransitionEvent : Type 0 where
  pub feature_id : ℕ
  pub from : FeatureState
  pub to : FeatureState
  pub owner : TransitionOwner
  pub cause : ℕ
  pub operation_id : ℕ
  pub timestamp : ℕ
  pub prior_version : ℕ
  pub next_version : ℕ

pub record AppliedFeatureTransition : Type 0 where
  pub feature_id : ℕ
  pub prior_state : FeatureState
  pub next_state : FeatureState
  pub owner : TransitionOwner
  pub cause : ℕ
  pub operation_id : ℕ
  pub timestamp : ℕ
  pub prior_version : ℕ
  pub next_version : ℕ
  pub event : FeatureTransitionEvent

pub record FeatureTransitionCommand : Type 0 where
  pub feature_id : ℕ
  pub from : FeatureState
  pub to : FeatureState
  pub owner : TransitionOwner
  pub cause : ℕ
  pub operation_id : ℕ
  pub expected_version : ℕ
  pub current_version : ℕ
  pub observed_state : Option FeatureState
  pub prior_applied_operation_id : Option ℕ
  pub prior_applied_result : Option AppliedFeatureTransition

-- `idempotent` carries the original result, and emits nothing; `rejected` carries the reason, the
-- prior and the next state.
pub data FeatureTransitionResult : Type 0 where
  applied : AppliedFeatureTransition → FeatureTransitionResult
  idempotent : AppliedFeatureTransition → FeatureTransitionResult
  rejected : TransitionRejectionReason → FeatureState → FeatureState → FeatureTransitionResult
