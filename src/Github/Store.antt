-- ===== src/Github/Store.antt =====
-- apps/worker/src/github/pr-handoff-store.ts, `transitionFeatureInStore`, through which the handoff
-- and the poller move features. It runs in no transaction: what other sessions commit between its
-- read and its update is the argument `others`.
pub mod Moves
use mathlib.Core.Path.{subst}
use autopilot_console.Prelude.{
  ℕ, ◌+◌, ◌≤◌, ◌<◌, ◌==◌, ==_iff, ==_refl, ◌≡◌, ◌≢◌, refl, sym, ◌∙◌, ap, Option, some, none, Bool,
  true, false, not, ◌&&◌, arith, Bool-cases, Option-cases, inl, inr, ◌⊎◌, if◌then◌else◌,
  count_where, count_where_same, count_where_le, and_true, find, find-update_where, find_passes,
  Member, here, there, List, [], ◌∷◌,
}
use autopilot_console.Feature.State.{FeatureState, same_state}
use autopilot_console.Feature.Names.{same_state_iff}
use autopilot_console.Feature.Transition.{
  TransitionOwner, applied, idempotent, rejected, AppliedFeatureTransition, FeatureTransitionResult,
  FeatureTransitionCommand,
}
use autopilot_console.Feature.Machine.{apply_feature_transition, apply_edge}
use autopilot_console.Feature.Machine.Table.{Allowed}
use autopilot_console.Feature.Machine.Apply.{applied-Accepts}
use autopilot_console.Store.Rows.{Db, FeatureRow}
use autopilot_console.Store.Repositories.{get_feature_by_id, update_features}
use autopilot_console.Task.Approval.{transition_command}
use autopilot_console.Task.Approval.Approve.{unchanged_since, move_feature}

pub record TransitionRequest : Type 0 where
  pub from : FeatureState
  pub to : FeatureState
  pub owner : TransitionOwner
  pub operation_id : ℕ

-- The texts of `reason`.
pub data MoveRejection : Type 0 where
  no_feature refused already_applied conflict : MoveRejection

pub data MoveResult : Type 0 where
  moved : MoveResult
  not_moved : MoveRejection → MoveResult

-- The cause is the operation's id.
unfoldable pub store_command : ℕ → TransitionRequest → FeatureRow → FeatureTransitionCommand
store_command feature_id request feature =
    transition_command feature_id request.from request.to request.owner request.operation_id
      request.operation_id feature.row_version (some feature.state)

-- The update and its answer, from the answer of the transition service.
unfoldable pub store_transition : FeatureTransitionResult → Db → MoveResult × Db
store_transition (rejected _ _ _) db = (not_moved refused, db)
store_transition (idempotent _) db = (not_moved already_applied, db)
store_transition (applied t) db =
    if count_where (unchanged_since t) db.features == 0
    then (not_moved conflict, db)
    else (moved, update_features (unchanged_since t) (move_feature t) db)

unfoldable pub transition_feature_in_store :
    (Db → Db) → ℕ → TransitionRequest → Db → MoveResult × Db
transition_feature_in_store others feature_id request db = elim (get_feature_by_id feature_id db) [
  | none ↦ (not_moved no_feature, db)
  | some feature ↦
      store_transition
        (apply_feature_transition db.clock (store_command feature_id request feature)) (others db)
]
