-- ===== src/Feature/Machine/Table.antt =====
-- The transition table as the design document lists it, and the lookups of the code against it.
use mathlib.Core.Path.{subst₂, subst₃}
use autopilot_console.Prelude.{
  ◌==◌, ◌≡◌, refl, sym, ap, ◌∙◌, ◌≢◌, ◌↔◌, inl, inr, Bool, true, not, ◌&&◌, ◌||◌, all, any, Member,
  All, any-Member, any_of_Member, ==_refl, All-Member, and_true, or_true, arith,
}
use autopilot_console.Feature.State.{
  FeatureState, feature_states, planned, tasks_review, queued, developing, development_failed,
  development_interrupted, development_cancelled, development_complete, pr_creating,
  pr_creation_failed, ci_running, ci_failed, pr_review, pr_changes_requested, development_merged,
  blocked,
}
use autopilot_console.Feature.Transition.{
  TransitionOwner, human, human_and_validation, human_and_process_control, worker,
  agent_result_and_verification, reconciliation, github_adapter, poller, guard,
}
use autopilot_console.Feature.Names.{
  number, owners, owner_number, agree, agree_sound, state_eq, owner_eq, on_every_transition,
}
use autopilot_console.Feature.Machine.{
  TransitionEdge, explicit_edges, is_allowed, list_allowed_transitions,
}

-- A pull request is being made or is open.
pub data IsPrState : FeatureState → Type 0 where
  creating : IsPrState pr_creating
  creation_failed : IsPrState pr_creation_failed
  running : IsPrState ci_running
  failed : IsPrState ci_failed
  review : IsPrState pr_review
  changes : IsPrState pr_changes_requested

-- Development stopped short, and may be retried.
pub data IsStopped : FeatureState → Type 0 where
  failed : IsStopped development_failed
  interrupted : IsStopped development_interrupted
  cancelled : IsStopped development_cancelled

-- The table "Allowed transitions and their owners" of section F-5, row by row
-- (docs/autopilotagent/autopilot-console-phase-1/autopilot-console-phase-1.md).
pub data Allowed : FeatureState → FeatureState → TransitionOwner → Type 0 where
  attach : Allowed planned tasks_review human_and_validation
  remove : Allowed tasks_review planned human
  approve : Allowed tasks_review queued human
  claim : Allowed queued developing worker
  cancel_queued : Allowed queued development_cancelled human
  complete : Allowed developing development_complete agent_result_and_verification
  fail : Allowed developing development_failed worker
  interrupt : Allowed developing development_interrupted reconciliation
  cancel_running : Allowed developing development_cancelled human_and_process_control
  retry : {s : FeatureState} → IsStopped s → Allowed s queued human
  hand_off : Allowed development_complete pr_creating worker
  pr_made : Allowed pr_creating ci_running github_adapter
  pr_failed : Allowed pr_creating pr_creation_failed github_adapter
  pr_retry : Allowed pr_creation_failed pr_creating human
  ci_fails : Allowed ci_running ci_failed poller
  ci_passes : Allowed ci_running pr_review poller
  ci_restarts : Allowed ci_failed ci_running poller
  ci_mends : Allowed ci_failed pr_review poller
  changes_asked : Allowed pr_review pr_changes_requested poller
  changes_pushed : Allowed pr_changes_requested ci_running poller
  changes_passed : Allowed pr_changes_requested pr_review poller
  merge : {s : FeatureState} → IsPrState s → Allowed s development_merged poller
  block : {s : FeatureState} → s ≢ development_merged → Allowed s blocked guard

matches : FeatureState → FeatureState → TransitionOwner → TransitionEdge → Bool
matches f t o e =
    number e.from == number f && (number e.to == number t && owner_number e.owner == owner_number o)

guards : FeatureState → FeatureState → TransitionOwner → Bool
guards f t o =
    not (number f == 14) && (number blocked == number t && owner_number guard == owner_number o)

lookup_row : FeatureState → FeatureState → TransitionOwner → Bool
lookup_row f t o = agree (is_allowed f t o) (any (matches f t o) explicit_edges || guards f t o)

lookup_table :
    all (λ f. all (λ t. all (lookup_row f t) owners) feature_states) feature_states ≡ true
unfolding is_allowed lookup_row matches guards agree number owner_number
lookup_table = refl

-- The key lookup finds exactly the listed edges and the guard's.
is_allowed-lookup :
    (f t : FeatureState) (o : TransitionOwner)
    → is_allowed f t o ≡ (any (matches f t o) explicit_edges || guards f t o)
unfolding lookup_row
is_allowed-lookup f t o = agree_sound _ _ (on_every_transition lookup_row lookup_table f t o)

edges_Allowed : All (λ (e : TransitionEdge). Allowed e.from e.to e.owner) explicit_edges
edges_Allowed = (
  attach,
  (
    remove,
    (
      approve,
      (
        claim,
        (
          cancel_queued,
          (
            complete,
            (
              fail,
              (
                interrupt,
                (
                  cancel_running,
                  (
                    retry failed,
                    (
                      retry interrupted,
                      (
                        retry cancelled,
                        (
                          hand_off,
                          (
                            pr_made,
                            (
                              pr_failed,
                              (
                                pr_retry,
                                (
                                  ci_fails,
                                  (
                                    ci_passes,
                                    (
                                      ci_restarts,
                                      (
                                        ci_mends,
                                        (
                                          changes_asked,
                                          (
                                            changes_pushed,
                                            (
                                              changes_passed,
                                              (
                                                merge creating,
                                                (
                                                  merge creation_failed,
                                                  (
                                                    merge running,
                                                    (
                                                      merge failed,
                                                      (merge review, (merge changes, tt)),
                                                    ),
                                                  ),
                                                ),
                                              ),
                                            ),
                                          ),
                                        ),
                                      ),
                                    ),
                                  ),
                                ),
                              ),
                            ),
                          ),
                        ),
                      ),
                    ),
                  ),
                ),
              ),
            ),
          ),
        ),
      ),
    ),
  ),
)

transported :
    (e : TransitionEdge) (f t : FeatureState) (o : TransitionOwner)
    → Allowed e.from e.to e.owner
    → matches f t o e ≡ true
    → Allowed f t o
unfolding matches
transported e f t o a h =
    let (same_from, rest) = and_true _ _ h in
    let (same_to, same_owner) = and_true _ _ rest in
    subst₃ Allowed (state_eq _ _ same_from) (state_eq _ _ same_to) (owner_eq _ _ same_owner) a

not_merged : (f : FeatureState) → not (number f == 14) ≡ true → f ≢ development_merged
unfolding number
not_merged f h e = ground (arith, ap number e)

by_guard : (f t : FeatureState) (o : TransitionOwner) → guards f t o ≡ true → Allowed f t o
unfolding guards
by_guard f t o h =
    let (live, rest) = and_true _ _ h in
    let (to_blocked, of_guard) = and_true _ _ rest in
    subst₂ (λ t' o'. Allowed f t' o') (state_eq blocked t to_blocked) (owner_eq guard o of_guard)
      (block λ e. not_merged f live e)

pub is_allowed_sound :
    (f t : FeatureState) (o : TransitionOwner) → is_allowed f t o ≡ true → Allowed f t o
is_allowed_sound f t o h = elim (or_true _ _ (sym (is_allowed-lookup f t o) ∙ h)) [
  | inl listed ↦
      let (e, m, found) = any-Member (matches f t o) explicit_edges listed in
      transported e f t o
        (All-Member (λ (e : TransitionEdge). Allowed e.from e.to e.owner) m edges_Allowed) found
  | inr guarded ↦ by_guard f t o guarded
]

is_allowed-block : (s : FeatureState) → s ≢ development_merged → is_allowed s blocked guard ≡ true
unfolding is_allowed
is_allowed-block development_merged h = absurd (h refl)
is_allowed-block _ h = refl

pub is_allowed_complete :
    {f t : FeatureState} {o : TransitionOwner} → Allowed f t o → is_allowed f t o ≡ true
unfolding is_allowed
is_allowed_complete (retry failed) = refl
is_allowed_complete (retry interrupted) = refl
is_allowed_complete (retry cancelled) = refl
is_allowed_complete (merge creating) = refl
is_allowed_complete (merge creation_failed) = refl
is_allowed_complete (merge running) = refl
is_allowed_complete (merge failed) = refl
is_allowed_complete (merge review) = refl
is_allowed_complete (merge changes) = refl
is_allowed_complete (block {s} h) = is_allowed-block s h
is_allowed_complete attach = refl
is_allowed_complete _ = refl

-- The code allows a transition exactly when the design document's table lists it.
pub is_allowed_iff :
    (f t : FeatureState) (o : TransitionOwner) → (is_allowed f t o ≡ true) ↔ Allowed f t o
is_allowed_iff f t o = (is_allowed_sound f t o, is_allowed_complete)

-- The outbound edges that the code enumerates for a state.
enumerated : FeatureState → FeatureState → TransitionOwner → Bool
enumerated f t o =
    any
      (λ (e : FeatureState × TransitionOwner).
        number e.0 == number t && owner_number e.1 == owner_number o)
      (list_allowed_transitions f)

enumerated_row : FeatureState → FeatureState → TransitionOwner → Bool
enumerated_row f t o = agree (is_allowed f t o) (enumerated f t o)

enumerated_table :
    all (λ f. all (λ t. all (enumerated_row f t) owners) feature_states) feature_states ≡ true
unfolding is_allowed list_allowed_transitions enumerated enumerated_row agree number owner_number
enumerated_table = refl

-- `listAllowedTransitions` enumerates exactly the transitions that the service accepts.
pub list_allowed_iff :
    (f t : FeatureState) (o : TransitionOwner)
    → Member (t, o) (list_allowed_transitions f) ↔ (is_allowed f t o ≡ true)
unfolding enumerated_row enumerated
list_allowed_iff f t o =
    let same = agree_sound _ _ (on_every_transition enumerated_row enumerated_table f t o) in
    (
      λ m. same ∙ any_of_Member _ m (rw (==_refl (number t)) (==_refl (owner_number o))),
      λ h.
          let (e, m, found) = any-Member _ (list_allowed_transitions f) (sym same ∙ h) in
          let (same_to, same_owner) = and_true _ _ found in
          subst₂ (λ t' o'. Member (t', o') (list_allowed_transitions f)) (state_eq _ _ same_to)
            (owner_eq _ _ same_owner) m,
    )
