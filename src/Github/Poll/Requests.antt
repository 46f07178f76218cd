-- ===== src/Github/Poll/Requests.antt =====
-- The transitions that a poll asks for, against the transition table.
use autopilot_console.Prelude.{
  ℕ, ◌<◌, ◌≡◌, refl, sym, ◌∙◌, ap, Option, some, none, Bool, true, false, inl, inr, String, not,
  ◌&&◌, ◌||◌, if◌then◌else◌, leb, arith, all, Bool-cases,
}
use autopilot_console.Feature.State.{
  FeatureState, pr_creating, pr_creation_failed, ci_running, ci_failed, pr_review,
  pr_changes_requested, development_merged, blocked, same_state, feature_states,
}
use autopilot_console.Feature.Transition.{TransitionOwner, poller}
use autopilot_console.Feature.Names.{
  number, owners, owner_number, agree, agree_sound, on_every_transition,
}
use autopilot_console.Feature.Machine.{is_allowed}
use autopilot_console.Github.Poll.{
  PullRequestStatus, resolve_review, resolve_check_state, is_poll_terminal, is_reconciliable,
  request_owner, PollDecision, skipped, stale, requested, poll_status, poll,
}

-- The states of a pull request that is open.
abbrev pub is_open_state : FeatureState → Bool
is_open_state ci_running = true
is_open_state ci_failed = true
is_open_state pr_review = true
is_open_state pr_changes_requested = true
is_open_state _ = false

-- The moves between the states of a pull request for which the transition table has no edge: from
-- review back to a running or a failed check, from a check to a request for changes, from a request
-- for changes to a failed check, and any move to an open pull request's states while it is still
-- being made.
unfoldable pub lacks : FeatureState → FeatureState → Bool
lacks pr_review ci_running = true
lacks pr_review ci_failed = true
lacks ci_running pr_changes_requested = true
lacks ci_failed pr_changes_requested = true
lacks pr_changes_requested ci_failed = true
lacks pr_creating t = is_open_state t
lacks pr_creation_failed t = is_open_state t
lacks _ _ = false

abbrev is_target : FeatureState → Bool
is_target development_merged = true
is_target blocked = true
is_target t = is_open_state t

decided : FeatureState → FeatureState → TransitionOwner → Bool
decided s t o =
    not (is_reconciliable s && (is_target t && not (same_state t s)))
    || agree (is_allowed s t (request_owner t)) (not (lacks s t))

decided_table : all (λ f. all (λ t. all (decided f t) owners) feature_states) feature_states ≡ true
unfolding is_allowed decided agree number owner_number same_state lacks
decided_table = refl

resolve-is_target : (status : PullRequestStatus) → is_target (resolve_check_state status).0 ≡ true
unfolding resolve_check_state resolve_review
resolve-is_target status = ground arith

decided_lem :
    (s t : FeatureState)
    → is_reconciliable s ≡ true
    → is_target t ≡ true
    → same_state t s ≡ false
    → is_allowed s t (request_owner t) ≡ not (lacks s t)
unfolding decided agree
decided_lem s t r g d =
    let table = on_every_transition decided decided_table s t poller in
    ground (arith, agree_sound (is_allowed s t (request_owner t)) (not (lacks s t)))

-- What a poll that asks for a transition has gone by.
poll_status_parts :
    (state t : FeatureState) (owner : TransitionOwner) (activity : Option String)
    (status : PullRequestStatus)
    → poll_status state status ≡ requested t owner activity
    → (same_state t state ≡ false)
      × (t ≡ (resolve_check_state status).0)
      × (owner ≡ request_owner t)
unfolding poll_status
poll_status_parts state t owner activity status h =
    elim (Bool-cases (same_state (resolve_check_state status).0 state)) [
      | inl same ↦ absurd (ground arith)
      | inr moved ↦
          let target : (resolve_check_state status).0 ≡ t = ground arith in
          let named : request_owner (resolve_check_state status).0 ≡ owner = ground arith in
          (
            ap (λ x. same_state x state) (sym target) ∙ moved,
            sym target,
            sym named ∙ ap request_owner target,
          )
    ]

reached :
    (skips : Bool) (last : Option ℕ) (now : ℕ) (d : PollDecision) (t : FeatureState)
    (owner : TransitionOwner) (activity : Option String)
    → (if skips
        then skipped
        else elim last [ none ↦ d | some seen ↦ if leb now seen then stale else d ])
      ≡ requested t owner activity
    → (skips ≡ false)
      × (d ≡ requested t owner activity)
      × ((seen : ℕ) → last ≡ some seen → leb now seen ≡ false)
reached true last now d t owner activity h = absurd (ground arith)
reached false none now d t owner activity h = (refl, h, (λ seen e. cc))
reached false (some s) now d t owner activity h = elim (Bool-cases (leb now s)) [
  | inl late ↦ absurd (ground arith)
  | inr newer ↦ (refl, ground arith, (λ seen e. ground arith))
]

no_skip : (a b c : Bool) → (a || not b || c) ≡ false → (b ≡ true) × (c ≡ false)
no_skip a b c h = ground arith

poll_parts :
    (state t : FeatureState) (owner : TransitionOwner) (activity : Option String)
    (backing_off : Bool) (last : Option ℕ) (now : ℕ) (status : PullRequestStatus)
    → poll state backing_off last now status ≡ requested t owner activity
    → (is_reconciliable state ≡ true)
      × (backing_off ≡ false)
      × (poll_status state status ≡ requested t owner activity)
      × ((seen : ℕ) → last ≡ some seen → leb now seen ≡ false)
unfolding poll
poll_parts state t owner activity backing_off last now status h =
    let (live, asked, newer) =
      reached (is_poll_terminal state || not (is_reconciliable state) || backing_off) last now
        (poll_status state status) t owner activity h in
    let (open_state, awake) =
      no_skip (is_poll_terminal state) (is_reconciliable state) backing_off live in
    (open_state, awake, asked, newer)

-- A transition that a poll asks for is one that the table allows, to the owner that the poll names,
-- exactly when it is not one of the moves listed by `lacks`. It is asked for only of a pull request
-- that is not backed off, for an answer newer than the last one.
pub poll_requests :
    (state t : FeatureState) (owner : TransitionOwner) (activity : Option String)
    (backing_off : Bool) (last : Option ℕ) (now : ℕ) (status : PullRequestStatus)
    → poll state backing_off last now status ≡ requested t owner activity
    → (is_allowed state t owner ≡ not (lacks state t))
      × (backing_off ≡ false)
      × ((seen : ℕ) → last ≡ some seen → seen < now)
poll_requests state t owner activity backing_off last now status h =
    let (polled, awake, asked, newer) =
      poll_parts state t owner activity backing_off last now status h in
    let (moved, target, named) = poll_status_parts state t owner activity status asked in
    let is = resolve-is_target status in
    let decision = decided_lem state t polled (ap is_target target ∙ is) moved in
    (
      ap (is_allowed state t) named ∙ decision,
      awake,
      (λ seen e. let late = newer seen e in ground arith),
    )
