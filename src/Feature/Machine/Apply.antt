-- ===== src/Feature/Machine/Apply.antt =====
-- The transition service: when it applies a command, what it then records, and what it refuses.
use mathlib.Core.Path.{subst}
use autopilot_console.Prelude.{
  ℕ, ◌+◌, ◌==◌, ==_iff, refl, ◌≡◌, ap, sym, ◌∙◌, ◌≢◌, ◌↔◌, ◌⊎◌, inl, inr, some, none, true, false,
  Bool-cases, Option-cases, arith,
}
use autopilot_console.Feature.State.{FeatureState}
use autopilot_console.Feature.Names.{same_state_iff}
use autopilot_console.Feature.Transition.{
  FeatureTransitionCommand, AppliedFeatureTransition, applied, idempotent, rejected,
  TransitionRejectionReason, version_conflict, state_conflict, forbidden_transition,
}
use autopilot_console.Feature.Machine.{
  is_allowed, replayed, conflicting, apply_edge, apply_feature_transition,
}
use autopilot_console.Feature.Machine.Table.{Allowed, is_allowed_iff}

-- The command repeats the operation whose result it carries.
abbrev pub Replays : FeatureTransitionCommand → AppliedFeatureTransition → Type 0
Replays c r =
    (c.prior_applied_operation_id ≡ some c.operation_id) × (c.prior_applied_result ≡ some r)

-- What the storage showed, if the caller looked, is the state that the command starts from.
abbrev pub Observes : FeatureTransitionCommand → Type 0
Observes c = (seen : FeatureState) → c.observed_state ≡ some seen → seen ≡ c.from

-- What the service demands before it applies a command.
pub record Accepts (c : FeatureTransitionCommand) : Type 0 where
  pub fresh : (r : AppliedFeatureTransition) → ¬ Replays c r
  pub current : c.expected_version ≡ c.current_version
  pub observed : Observes c
  pub permitted : Allowed c.from c.to c.owner

replayed_iff :
    (c : FeatureTransitionCommand) (r : AppliedFeatureTransition)
    → (replayed c ≡ some r) ↔ Replays c r
unfolding replayed
replayed_iff c r = ground arith

conflicting-none : (c : FeatureTransitionCommand) → conflicting c ≡ none → Observes c
unfolding conflicting
conflicting-none c h seen e = ground (arith, same_state_iff seen c.from)

conflicting-some :
    (c : FeatureTransitionCommand) (seen : FeatureState)
    → conflicting c ≡ some seen
    → (c.observed_state ≡ some seen) × (seen ≢ c.from)
unfolding conflicting
conflicting-some c seen h = ground (arith, same_state_iff seen c.from)

none-conflicting : (c : FeatureTransitionCommand) → Observes c → conflicting c ≡ none
unfolding conflicting
none-conflicting c h = elim (Option-cases c.observed_state) [
  | inl unseen ↦ rw (unseen, conflicting)
  | inr (seen, e) ↦ ground (arith, (same_state_iff seen c.from).1 (h seen e))
]

fresh-replayed : (c : FeatureTransitionCommand) → Accepts c → replayed c ≡ none
fresh-replayed c a = elim (Option-cases (replayed c)) [
  | inl e ↦ e
  | inr (r, e) ↦ absurd (a.fresh r ((replayed_iff c r).0 e))
]

pub Accepts-applied :
    (now : ℕ) (c : FeatureTransitionCommand)
    → Accepts c
    → apply_feature_transition now c ≡ applied (apply_edge now c)
unfolding apply_feature_transition
Accepts-applied now c a =
    let same_version = (==_iff c.expected_version c.current_version).1 a.current in
    let fresh = fresh-replayed c a in
    let quiet = none-conflicting c a.observed in
    let listed = (is_allowed_iff c.from c.to c.owner).1 a.permitted in ground arith

pub applied-Accepts :
    (now : ℕ) (c : FeatureTransitionCommand) (r : AppliedFeatureTransition)
    → apply_feature_transition now c ≡ applied r
    → Accepts c × (r ≡ apply_edge now c)
unfolding apply_feature_transition
applied-Accepts now c r h =
    let new : replayed c ≡ none = ground arith in
    let quiet : conflicting c ≡ none = ground arith in
    let listed : is_allowed c.from c.to c.owner ≡ true = ground arith in
    (
      record {
        fresh = λ r' old. cc (sym new ∙ (replayed_iff c r').1 old);
        current = ground arith;
        observed = conflicting-none c quiet;
        permitted = (is_allowed_iff _ _ _).0 listed;
      },
      ground arith,
    )

-- What a result reports of the command that was applied at `now`, and its event beside it.
pub record Reports (now : ℕ) (c : FeatureTransitionCommand) (r : AppliedFeatureTransition)
    : Type 0 where
  pub feature : (r.feature_id ≡ c.feature_id) × (r.event.feature_id ≡ c.feature_id)
  pub left : (r.prior_state ≡ c.from) × (r.event.from ≡ c.from)
  pub entered : (r.next_state ≡ c.to) × (r.event.to ≡ c.to)
  pub by : (r.owner ≡ c.owner) × (r.event.owner ≡ c.owner)
  pub because : (r.cause ≡ c.cause) × (r.event.cause ≡ c.cause)
  pub operation : (r.operation_id ≡ c.operation_id) × (r.event.operation_id ≡ c.operation_id)
  pub at : (r.timestamp ≡ now) × (r.event.timestamp ≡ now)
  pub version_before :
      (r.prior_version ≡ c.current_version) × (r.event.prior_version ≡ c.current_version)
  pub version_after :
      (r.next_version ≡ c.current_version + 1) × (r.event.next_version ≡ c.current_version + 1)

apply_edge-Reports : (now : ℕ) (c : FeatureTransitionCommand) → Reports now c (apply_edge now c)
unfolding apply_edge
apply_edge-Reports now c = record {
  feature = (refl, refl);
  left = (refl, refl);
  entered = (refl, refl);
  by = (refl, refl);
  because = (refl, refl);
  operation = (refl, refl);
  at = (refl, refl);
  version_before = (refl, refl);
  version_after = (refl, refl);
}

Reports-unique :
    (now : ℕ) (c : FeatureTransitionCommand) (r : AppliedFeatureTransition)
    → Reports now c r
    → r ≡ apply_edge now c
unfolding apply_edge
Reports-unique now c r h i = record {
  feature_id = h.feature.0 i;
  prior_state = h.left.0 i;
  next_state = h.entered.0 i;
  owner = h.by.0 i;
  cause = h.because.0 i;
  operation_id = h.operation.0 i;
  timestamp = h.at.0 i;
  prior_version = h.version_before.0 i;
  next_version = h.version_after.0 i;
  event = record {
    feature_id = h.feature.1 i;
    from = h.left.1 i;
    to = h.entered.1 i;
    owner = h.by.1 i;
    cause = h.because.1 i;
    operation_id = h.operation.1 i;
    timestamp = h.at.1 i;
    prior_version = h.version_before.1 i;
    next_version = h.version_after.1 i;
  };
}

-- The service applies a command exactly when it is no repeat, its version is current, the observed
-- state is the expected one and the transition is in the design document's table; the result and its
-- event both name the feature, the state before and after, the owner, the cause, the operation, the
-- time, and the version before and the next one.
pub applied_iff :
    (now : ℕ) (c : FeatureTransitionCommand) (r : AppliedFeatureTransition)
    → (apply_feature_transition now c ≡ applied r) ↔ (Accepts c × Reports now c r)
applied_iff now c r = (
  λ h.
      let (accepts, same) = applied-Accepts now c r h in
      (accepts, subst (Reports now c) (sym same) (apply_edge-Reports now c)),
  λ a. Accepts-applied now c a.0 ∙ ap applied (sym (Reports-unique now c r a.1)),
)

-- A rejection never names a new state and is of a command that is no repeat. Its reason is the first
-- check that fails, where the earlier ones have passed: the version, then the observed state, then the
-- table.
pub rejected_reason :
    (now : ℕ) (c : FeatureTransitionCommand) (why : TransitionRejectionReason) (s t : FeatureState)
    → apply_feature_transition now c ≡ rejected why s t
    → (s ≡ t)
      × ((r : AppliedFeatureTransition) → ¬ Replays c r)
      × (((why ≡ version_conflict) × (c.expected_version ≢ c.current_version) × (t ≡ c.from))
          ⊎ (((why ≡ state_conflict)
                × (c.expected_version ≡ c.current_version)
                × (c.observed_state ≡ some t)
                × (t ≢ c.from))
              ⊎ ((why ≡ forbidden_transition)
                  × (c.expected_version ≡ c.current_version)
                  × Observes c
                  × ¬ Allowed c.from c.to c.owner
                  × (t ≡ c.from))))
unfolding apply_feature_transition
rejected_reason now c why s t h =
    let new : replayed c ≡ none = ground arith in
    let fresh : (r : AppliedFeatureTransition) → ¬ Replays c r =
      λ r old. cc (sym new ∙ (replayed_iff c r).1 old) in
    elim (Bool-cases (c.expected_version == c.current_version)) [
      | inr stale ↦ (ground arith, fresh, inl (ground arith, ground arith, ground arith))
      | inl same ↦ elim (Option-cases (conflicting c)) [
        | inr (seen, e) ↦
            let facts = conflicting-some c seen e in
            (
              ground arith,
              fresh,
              inr (inl (ground arith, ground arith, ground arith, ground arith)),
            )
        | inl quiet ↦
            let refused : is_allowed c.from c.to c.owner ≡ false = ground arith in
            (
              ground arith,
              fresh,
              inr (
                  inr (
                    ground arith,
                    ground arith,
                    conflicting-none c quiet,
                    λ a. cc (sym refused ∙ (is_allowed_iff _ _ _).1 a),
                    ground arith,
                  )),
            )
      ]
    ]

-- Repeating an applied operation returns its first result, whatever the version, the state or the
-- table say now.
pub replay_idempotent :
    (now : ℕ) (c : FeatureTransitionCommand) (r : AppliedFeatureTransition)
    → (apply_feature_transition now c ≡ idempotent r) ↔ Replays c r
unfolding apply_feature_transition
replay_idempotent now c r = (
  λ h. let old : replayed c ≡ some r = ground arith in (replayed_iff c r).0 old,
  λ h. let old = (replayed_iff c r).1 h in ground arith,
)
