-- ===== src/Feature/State.antt =====
-- packages/domain/src/feature/feature-state.ts: the closed set of lifecycle states. The constructors
-- are the source's literals in lower case; `state_text` gives the literal back.
use autopilot_console.Prelude.{Bool, List, [], ◌∷◌, String, any}
use text.Mathlib.Text.{◌==◌}

pub data FeatureState : Type 0 where
  planned tasks_review queued developing development_failed development_interrupted : FeatureState
  development_cancelled development_complete pr_creating pr_creation_failed : FeatureState
  ci_running ci_failed pr_review pr_changes_requested development_merged blocked : FeatureState

pub FeatureState-discrete : Discrete FeatureState
FeatureState-discrete = hlevel

unfoldable pub state_text : FeatureState → String
state_text planned = "PLANNED"
state_text tasks_review = "TASKS_REVIEW"
state_text queued = "QUEUED"
state_text developing = "DEVELOPING"
state_text development_failed = "DEVELOPMENT_FAILED"
state_text development_interrupted = "DEVELOPMENT_INTERRUPTED"
state_text development_cancelled = "DEVELOPMENT_CANCELLED"
state_text development_complete = "DEVELOPMENT_COMPLETE"
state_text pr_creating = "PR_CREATING"
state_text pr_creation_failed = "PR_CREATION_FAILED"
state_text ci_running = "CI_RUNNING"
state_text ci_failed = "CI_FAILED"
state_text pr_review = "PR_REVIEW"
state_text pr_changes_requested = "PR_CHANGES_REQUESTED"
state_text development_merged = "DEVELOPMENT_MERGED"
state_text blocked = "BLOCKED"

-- FEATURE_STATES
abbrev pub feature_states : List FeatureState
feature_states =
    planned ∷ tasks_review ∷ queued ∷ developing ∷ development_failed ∷ development_interrupted
    ∷ development_cancelled ∷ development_complete ∷ pr_creating ∷ pr_creation_failed ∷ ci_running
    ∷ ci_failed ∷ pr_review ∷ pr_changes_requested ∷ development_merged ∷ blocked ∷ []

-- `===` on states: on their literals.
unfoldable pub same_state : FeatureState → FeatureState → Bool
unfolding state_text
same_state a b = state_text a == state_text b

-- TERMINAL_FEATURE_STATES
abbrev pub terminal_feature_states : List FeatureState
terminal_feature_states = development_merged ∷ []

unfoldable pub is_feature_state : String → Bool
unfolding state_text
is_feature_state value = any (λ s. state_text s == value) feature_states

unfoldable pub is_terminal_feature_state : FeatureState → Bool
unfolding same_state
is_terminal_feature_state state = any (λ s. same_state s state) terminal_feature_states
