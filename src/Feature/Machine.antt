-- ===== src/Feature/Machine.antt =====
-- packages/domain/src/feature/feature-state-machine.ts: the transition table, its two lookups, and
-- the transition service.
pub mod Table
pub mod Apply
pub mod Journeys
use Prim.Native.String.{◌++◌ as ◌<>◌}
use text.Mathlib.Text.{◌==◌ as str_eq}
use autopilot_console.Prelude.{
  ℕ, ◌+◌, Option, none, some, Bool, true, false, not, List, [], ◌∷◌, ◌++◌, map, String,
  if◌then◌else◌, any, ◌==◌, filter_where,
}
use autopilot_console.Feature.State.{
  FeatureState, state_text, same_state, feature_states, is_terminal_feature_state, planned,
  tasks_review, queued, developing, development_failed, development_interrupted,
  development_cancelled, development_complete, pr_creating, pr_creation_failed, ci_running,
  ci_failed, pr_review, pr_changes_requested, development_merged, blocked,
}
use autopilot_console.Feature.Transition.{
  TransitionOwner, human, human_and_validation, human_and_process_control, worker,
  agent_result_and_verification, reconciliation, github_adapter, poller, guard,
  AppliedFeatureTransition, FeatureTransitionEvent, FeatureTransitionCommand,
  FeatureTransitionResult, applied, idempotent, rejected, forbidden_transition, state_conflict,
  version_conflict,
}

pub record TransitionEdge : Type 0 where
  pub from : FeatureState
  pub to : FeatureState
  pub owner : TransitionOwner

abbrev edge : FeatureState → FeatureState → TransitionOwner → TransitionEdge
edge f t o = record { from = f; to = t; owner = o }

abbrev pub explicit_edges : List TransitionEdge
explicit_edges =
    edge planned tasks_review human_and_validation
    ∷ edge tasks_review planned human
    ∷ edge tasks_review queued human
    ∷ edge queued developing worker
    ∷ edge queued development_cancelled human
    ∷ edge developing development_complete agent_result_and_verification
    ∷ edge developing development_failed worker
    ∷ edge developing development_interrupted reconciliation
    ∷ edge developing development_cancelled human_and_process_control
    ∷ edge development_failed queued human
    ∷ edge development_interrupted queued human
    ∷ edge development_cancelled queued human
    ∷ edge development_complete pr_creating worker
    ∷ edge pr_creating ci_running github_adapter
    ∷ edge pr_creating pr_creation_failed github_adapter
    ∷ edge pr_creation_failed pr_creating human
    ∷ edge ci_running ci_failed poller
    ∷ edge ci_running pr_review poller
    ∷ edge ci_failed ci_running poller
    ∷ edge ci_failed pr_review poller
    ∷ edge pr_review pr_changes_requested poller
    ∷ edge pr_changes_requested ci_running poller
    ∷ edge pr_changes_requested pr_review poller
    ∷ edge pr_creating development_merged poller
    ∷ edge pr_creation_failed development_merged poller
    ∷ edge ci_running development_merged poller
    ∷ edge ci_failed development_merged poller
    ∷ edge pr_review development_merged poller
    ∷ edge pr_changes_requested development_merged poller
    ∷ []

unfoldable pub owner_text : TransitionOwner → String
owner_text human = "human"
owner_text human_and_validation = "human_and_validation"
owner_text human_and_process_control = "human_and_process_control"
owner_text worker = "worker"
owner_text agent_result_and_verification = "agent_result_and_verification"
owner_text reconciliation = "reconciliation"
owner_text github_adapter = "github_adapter"
owner_text poller = "poller"
owner_text guard = "guard"

unfoldable pub edge_key : FeatureState → FeatureState → TransitionOwner → String
unfolding state_text owner_text
edge_key from to owner = state_text from <> ("|" <> (state_text to <> ("|" <> owner_text owner)))

-- The loop of EDGE_LOOKUP and of EDGES_BY_FROM that adds BLOCKED to every state but the merged one.
guarded : List FeatureState → List FeatureState
unfolding same_state
guarded [] = []
guarded (s ∷ ss) = if same_state s development_merged then guarded ss else s ∷ guarded ss

unfoldable pub edge_lookup : List String
unfolding edge_key guarded
edge_lookup =
    map (λ (e : TransitionEdge). edge_key e.from e.to e.owner) explicit_edges
    ++ map (λ s. edge_key s blocked guard) (guarded feature_states)

unfoldable pub is_allowed : FeatureState → FeatureState → TransitionOwner → Bool
unfolding edge_lookup edge_key is_terminal_feature_state
is_allowed from to owner =
    if is_terminal_feature_state from
    then false
    else any (λ k. str_eq k (edge_key from to owner)) edge_lookup

-- EDGES_BY_FROM.get(from): the explicit edges of the state in table order, and the guard's edge last.
-- The map has an entry for every state, so `?? []` is never taken.
unfoldable pub list_allowed_transitions : FeatureState → List (FeatureState × TransitionOwner)
unfolding same_state
list_allowed_transitions from =
    map (λ (e : TransitionEdge). (e.to, e.owner))
      (filter_where (λ e. same_state e.from from) explicit_edges)
    ++ (if same_state from development_merged then [] else (blocked, guard) ∷ [])

-- `command.priorAppliedOperationId !== undefined && … === command.operationId`, and the result that
-- it then needs.
unfoldable pub replayed : FeatureTransitionCommand → Option AppliedFeatureTransition
replayed c = elim c.prior_applied_operation_id [
  | none ↦ none
  | some prior ↦ if prior == c.operation_id then c.prior_applied_result else none
]

-- `observedState !== undefined && observedState !== from`: the observed state that conflicts.
unfoldable pub conflicting : FeatureTransitionCommand → Option FeatureState
unfolding same_state
conflicting c = elim c.observed_state [
  | none ↦ none
  | some seen ↦ if same_state seen c.from then none else some seen
]

unfoldable pub apply_edge : ℕ → FeatureTransitionCommand → AppliedFeatureTransition
apply_edge timestamp c =
    let prior_version = c.current_version in
    let next_version = prior_version + 1 in
    record {
      feature_id = c.feature_id;
      prior_state = c.from;
      next_state = c.to;
      owner = c.owner;
      cause = c.cause;
      operation_id = c.operation_id;
      timestamp = timestamp;
      prior_version = prior_version;
      next_version = next_version;
      event = record {
        feature_id = c.feature_id;
        from = c.from;
        to = c.to;
        owner = c.owner;
        cause = c.cause;
        operation_id = c.operation_id;
        timestamp = timestamp;
        prior_version = prior_version;
        next_version = next_version;
      };
    }

-- The clock is read once, so it is its reading, `timestamp`.
unfoldable pub apply_feature_transition : ℕ → FeatureTransitionCommand → FeatureTransitionResult
apply_feature_transition timestamp c = elim (replayed c) [
  | some prior ↦ idempotent prior
  | none ↦
      if not (c.expected_version == c.current_version)
      then rejected version_conflict c.from c.from
      else elim (conflicting c) [
        | some seen ↦ rejected state_conflict seen seen
        | none ↦
            if is_allowed c.from c.to c.owner
            then applied (apply_edge timestamp c)
            else rejected forbidden_transition c.from c.from
      ]
]
