-- ===== src/Github/Handoff/Begun.antt =====
-- Where a handoff ends, from its first stage on.
use mathlib.Core.Path.{subst}
use autopilot_console.Prelude.{
  ℕ, ==_iff, ◌≡◌, refl, sym, Option, some, none, true, false, String, find, find_passes, Bool-cases,
  Option-cases, inl, inr, ◌⊎◌,
}
use autopilot_console.Feature.State.{FeatureState, development_complete, pr_creating}
use autopilot_console.Feature.Transition.{worker}
use autopilot_console.Github.Store.{TransitionRequest, MoveResult, MoveRejection, moved, not_moved}
use autopilot_console.Github.Handoff.Store.{
  PullRequestRow, branch_resolution, push_refused, idle, Hub, HandoffWorld, answered,
  HandoffContext, note, transition,
}
use autopilot_console.Github.Handoff.Worker.{
  finish, look_up, is_of, resolve_identity, push_branch, resolve_branch, begin,
}
use autopilot_console.Github.Handoff.Steps.{
  found-Member, transition_attempts, note_attempts, Same, Reaches, Ends, leaves, fails, finishes,
  Ends-after, Reaches-refl,
}
use autopilot_console.Github.Handoff.Created.{look_up-Ends, with_hub, called}

module _ {G : Type 0} (hub : Hub G) (ctx : HandoffContext) where
  -- The stored pull request, if GitHub answers for it.
  module _ (row : PullRequestRow) (w : HandoffWorld G) where
    abbrev looked : HandoffWorld G
    looked = with_hub hub ctx (hub.get_pull_request_status row.identity.number w.hub).1 w

    known_step :
        find (is_of ctx.feature.id) w.pull_requests ≡ some row
        → (hub.get_pull_request_status row.identity.number w.hub).0 ≡ true
        → resolve_identity hub ctx w ≡ finish hub ctx row.identity looked
    unfolding resolve_identity
    known_step found e = rw (found, e, resolve_identity)

    unknown_step :
        find (is_of ctx.feature.id) w.pull_requests ≡ some row
        → (hub.get_pull_request_status row.identity.number w.hub).0 ≡ false
        → resolve_identity hub ctx w ≡ look_up hub ctx looked
    unfolding resolve_identity
    unknown_step found e = rw (found, e, resolve_identity)

  none_step :
      (w : HandoffWorld G)
      → find (is_of ctx.feature.id) w.pull_requests ≡ none
      → resolve_identity hub ctx w ≡ look_up hub ctx w
  unfolding resolve_identity
  none_step w e = rw (e, resolve_identity)

  resolve_identity-Ends : (w : HandoffWorld G) → Ends hub ctx w (resolve_identity hub ctx w)
  resolve_identity-Ends w = elim (Option-cases (find (is_of ctx.feature.id) w.pull_requests)) [
    | inl e ↦ subst (Ends hub ctx w) (sym (none_step w e)) (look_up-Ends hub ctx w)
    | inr (row, found) ↦
        elim (Bool-cases (hub.get_pull_request_status row.identity.number w.hub).0) [
          | inr gone ↦ subst (Ends hub ctx w) (sym (unknown_step row w found gone)) (
              Ends-after hub ctx w (looked row w) (look_up hub ctx (looked row w))
                (called hub ctx _ w) (look_up-Ends hub ctx (looked row w)))
          | inl known ↦
              finishes row.identity (looked row w)
                (record { results = refl; asks = inl refl; kept = λ id k h. h })
                (
                  row,
                  found-Member (is_of ctx.feature.id) w.pull_requests row found,
                  (==_iff _ _).0
                      (find_passes (is_of ctx.feature.id) w.pull_requests {a = row} found),
                  refl,
                )
                (known_step row w found known)
        ]
  ]

  abbrev pushed : ℕ → HandoffWorld G → HandoffWorld G
  pushed sha w = with_hub hub ctx (hub.push_feature_branch ctx.feature.branch_name sha w.hub).1 w

  push_step :
      (sha head : ℕ) (w : HandoffWorld G)
      → (hub.push_feature_branch ctx.feature.branch_name sha w.hub).0 ≡ some head
      → push_branch hub ctx sha w ≡ resolve_identity hub ctx (pushed sha w)
  unfolding push_branch
  push_step sha head w e = rw (e, push_branch)

  push_branch-Ends : (sha : ℕ) (w : HandoffWorld G) → Ends hub ctx w (push_branch hub ctx sha w)
  unfolding push_branch
  push_branch-Ends sha w =
      elim (Option-cases (hub.push_feature_branch ctx.feature.branch_name sha w.hub).0) [
        | inl e ↦
            fails push_refused (pushed sha w)
              (record { results = refl; asks = inl refl; kept = λ id k h. h }) (rw (e, push_branch))
        | inr (head, e) ↦ subst (Ends hub ctx w) (sym (push_step sha head w e)) (
            Ends-after hub ctx w (pushed sha w) _ (called hub ctx _ w)
              (resolve_identity-Ends (pushed sha w)))
      ]

  abbrev resolved : HandoffWorld G → HandoffWorld G
  resolved w = with_hub hub ctx (hub.ensure_feature_branch ctx.feature.branch_name w.hub).1 w

  branch_step :
      (sha : ℕ) (w : HandoffWorld G)
      → (hub.ensure_feature_branch ctx.feature.branch_name w.hub).0 ≡ some sha
      → resolve_branch hub ctx w ≡ push_branch hub ctx sha (resolved w)
  unfolding resolve_branch
  branch_step sha w e = rw (e, resolve_branch)

  resolve_branch-Ends : (w : HandoffWorld G) → Ends hub ctx w (resolve_branch hub ctx w)
  unfolding resolve_branch
  resolve_branch-Ends w =
      elim (Option-cases (hub.ensure_feature_branch ctx.feature.branch_name w.hub).0) [
        | inl e ↦
            fails branch_resolution (resolved w)
              (record { results = refl; asks = inl refl; kept = λ id k h. h })
              (rw (e, resolve_branch))
        | inr (sha, e) ↦ subst (Ends hub ctx w) (sym (branch_step sha w e)) (
            Ends-after hub ctx w (resolved w) _ (called hub ctx _ w)
              (push_branch-Ends sha (resolved w)))
      ]

  abbrev started : HandoffWorld G → MoveResult × HandoffWorld G
  started w =
      transition hub ctx.feature.id
        (record {
          from = development_complete;
          to = pr_creating;
          owner = worker;
          operation_id = 22;
        })
        w

  transition-Same :
      (id : ℕ) (request : TransitionRequest) (w : HandoffWorld G)
      → Same hub ctx w (transition hub id request w).1
  unfolding transition
  transition-Same feature_id request w = record {
    results = refl;
    requested = refl;
    kept = λ id k h. transition_attempts hub id feature_id request w k h;
  }

  note-Same :
      (o : Option ℕ) (kind : String) (w w' : HandoffWorld G)
      → Same hub ctx w w'
      → Same hub ctx w (note hub ctx o kind w')
  unfolding note
  note-Same o kind w w' s = record {
    results = s.results;
    requested = s.requested;
    kept = λ id k h. note_attempts hub ctx o kind w' id (s.kept id k h);
  }

  begin_step :
      (w : HandoffWorld G)
      → (started w).0 ≡ moved
      → begin hub ctx development_complete w
        ≡ resolve_branch hub ctx (note hub ctx (some ctx.attempt.id) "pr.creating" (started w).1)
  unfolding begin
  begin_step w e = rw (e, begin)

  begin_idle :
      (w : HandoffWorld G) (why : MoveRejection)
      → (started w).0 ≡ not_moved why
      → begin hub ctx development_complete w ≡ (answered idle, (started w).1)
  unfolding begin
  begin_idle w why e = rw (e, begin)

  MoveResult-cases : (r : MoveResult) → (r ≡ moved) ⊎ ((why : MoveRejection) × (r ≡ not_moved why))
  MoveResult-cases moved = inl refl
  MoveResult-cases (not_moved why) = inr (why, refl)

  Same-Reaches : (w w' : HandoffWorld G) → Same hub ctx w w' → Reaches hub ctx w w'
  Same-Reaches w w' s = record { results = s.results; asks = inl s.requested; kept = s.kept }

  pub begin-Ends : (s : FeatureState) (w : HandoffWorld G) → Ends hub ctx w (begin hub ctx s w)
  unfolding begin
  begin-Ends development_complete w =
      let request : TransitionRequest = record {
        from = development_complete;
        to = pr_creating;
        owner = worker;
        operation_id = 22;
      } in
      let same = transition-Same ctx.feature.id request w in
      elim (MoveResult-cases (started w).0) [
        | inl e ↦
            let w' = note hub ctx (some ctx.attempt.id) "pr.creating" (started w).1 in
            subst (Ends hub ctx w) (sym (begin_step w e)) (
              Ends-after hub ctx w w' _
                (note-Same (some ctx.attempt.id) "pr.creating" w (started w).1 same)
                (resolve_branch-Ends w'))
        | inr (why, e) ↦
            leaves (started w).1 (Same-Reaches w (started w).1 same) (begin_idle w why e)
      ]
  begin-Ends pr_creating w = resolve_branch-Ends w
  begin-Ends _ w = leaves w (Reaches-refl hub ctx w) refl
