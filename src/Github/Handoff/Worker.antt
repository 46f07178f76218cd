-- ===== src/Github/Handoff/Worker.antt =====
-- pr-handoff-worker.ts: the stages of a handoff, each ending in the next.
use autopilot_console.Prelude.{
  ℕ, ◌==◌, Option, some, none, Bool, [], ◌∷◌, ◌++◌, if◌then◌else◌, find,
}
use autopilot_console.Feature.State.{FeatureState, development_complete, pr_creating, ci_running}
use autopilot_console.Feature.Transition.{worker, github_adapter}
use autopilot_console.Github.Store.{TransitionRequest, moved, not_moved}
use autopilot_console.Github.Handoff.Store.{
  HandoffAnswer, HandoffContext, HandoffWorld, Hub, PullRequestIdentity, PullRequestRow, absent,
  answered, audit, branch_resolution, completed, creation_failed, fail, idle, load_context, note,
  persist_identity, present, push_refused, record_result, stored_outcome, threw, transition,
  unavailable,
}

abbrev pub is_of : ℕ → PullRequestRow → Bool
is_of feature_id r = r.feature_id == feature_id

module _ {G : Type 0} (hub : Hub G) where
  -- The end: the answer of the transition is not looked at.
  unfoldable pub finish :
      HandoffContext → PullRequestIdentity → HandoffWorld G → HandoffAnswer × HandoffWorld G
  finish ctx identity w =
      let request : TransitionRequest = record {
        from = pr_creating;
        to = ci_running;
        owner = github_adapter;
        operation_id = 21;
      } in
      let noted =
        note hub ctx (some ctx.attempt.id) "pr.created"
          (transition hub ctx.feature.id request w).1 in
      (
        answered (completed identity.number),
        record_result hub ctx.attempt.id (completed identity.number)
            (audit hub ctx "pr.created" noted),
      )

  -- Both calls stand in one `try`.
  unfoldable pub create : HandoffContext → HandoffWorld G → HandoffAnswer × HandoffWorld G
  create ctx w =
      let (made, hub') = hub.create_pull_request ctx.feature.branch_name w.hub in
      let w' = record w { hub = hub'; requested = w.requested ++ ctx.feature.branch_name ∷ [] } in
      elim made [
        | none ↦ fail hub ctx creation_failed w'
        | some identity ↦ elim (persist_identity hub ctx identity w') [
          | none ↦ fail hub ctx creation_failed w'
          | some w'' ↦ finish ctx identity w''
        ]
      ]

  unfoldable pub look_up : HandoffContext → HandoffWorld G → HandoffAnswer × HandoffWorld G
  look_up ctx w =
      let (found, hub') = hub.find_existing ctx.feature.branch_name w.hub in
      let w' = record w { hub = hub' } in
      elim found [
        | unavailable ↦ (threw, w')
        | absent ↦ create ctx w'
        | present identity ↦ elim (persist_identity hub ctx identity w') [
          | none ↦ (threw, w')
          | some w'' ↦ finish ctx identity w''
        ]
      ]

  -- A pull request that is stored counts if GitHub answers for it.
  unfoldable pub resolve_identity : HandoffContext → HandoffWorld G → HandoffAnswer × HandoffWorld G
  resolve_identity ctx w = elim (find (is_of ctx.feature.id) w.pull_requests) [
    | none ↦ look_up ctx w
    | some row ↦
        let (known, hub') = hub.get_pull_request_status row.identity.number w.hub in
        let w' = record w { hub = hub' } in
        if known then finish ctx row.identity w' else look_up ctx w'
  ]

  unfoldable pub push_branch : HandoffContext → ℕ → HandoffWorld G → HandoffAnswer × HandoffWorld G
  push_branch ctx head_sha w =
      let (pushed, hub') = hub.push_feature_branch ctx.feature.branch_name head_sha w.hub in
      let w' = record w { hub = hub' } in
      elim pushed [ none ↦ fail hub ctx push_refused w' | some sha ↦ resolve_identity ctx w' ]

  unfoldable pub resolve_branch : HandoffContext → HandoffWorld G → HandoffAnswer × HandoffWorld G
  resolve_branch ctx w =
      let (head, hub') = hub.ensure_feature_branch ctx.feature.branch_name w.hub in
      let w' = record w { hub = hub' } in
      elim head [ none ↦ fail hub ctx branch_resolution w' | some sha ↦ push_branch ctx sha w' ]

  -- The first transition, where it is needed.
  unfoldable pub begin :
      HandoffContext → FeatureState → HandoffWorld G → HandoffAnswer × HandoffWorld G
  begin ctx development_complete w =
      let request : TransitionRequest = record {
        from = development_complete;
        to = pr_creating;
        owner = worker;
        operation_id = 22;
      } in
      let (result, w') = transition hub ctx.feature.id request w in
      elim result [
        | not_moved why ↦ (answered idle, w')
        | moved ↦ resolve_branch ctx (note hub ctx (some ctx.attempt.id) "pr.creating" w')
      ]
  begin ctx pr_creating w = resolve_branch ctx w
  begin ctx _ w = (answered idle, w)

  unfoldable pub begin_loaded :
      Option HandoffContext → HandoffWorld G → HandoffAnswer × HandoffWorld G
  begin_loaded none w = (answered idle, w)
  begin_loaded (some ctx) w = begin ctx ctx.feature.state w

  unfoldable pub handoff : ℕ → HandoffWorld G → HandoffAnswer × HandoffWorld G
  handoff attempt_id w = elim (stored_outcome attempt_id w.results) [
    | some outcome ↦ (answered outcome, w)
    | none ↦ begin_loaded (load_context attempt_id w.db) w
  ]
