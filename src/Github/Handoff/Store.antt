-- ===== src/Github/Handoff/Store.antt =====
-- pr-handoff-store.ts, and the gateways that the handoff calls.
use autopilot_console.Prelude.{
  ℕ, ◌==◌, Option, some, none, Bool, ◌&&◌, String, List, [], ◌∷◌, ◌++◌, if◌then◌else◌, any,
}
use autopilot_console.Feature.State.{pr_creation_failed}
use autopilot_console.Feature.Transition.{github_adapter}
use autopilot_console.Store.Rows.{
  Db, ProjectRow, FeatureRow, TaskApprovalRow, DevelopmentAttemptRow,
}
use autopilot_console.Store.Repositories.{
  get_feature_by_id, get_project_by_id, get_development_attempt, append_activity_event,
  append_audit_event,
}
use autopilot_console.Github.Store.{TransitionRequest, MoveResult, transition_feature_in_store}

pub record PullRequestIdentity : Type 0 where
  pub number : ℕ
  pub url : ℕ
  pub head_branch : String
  pub base_branch : String
  pub original_head_sha : ℕ

-- A row of pull_requests, as far as the handoff reads and writes it.
pub record PullRequestRow : Type 0 where
  pub repository : ℕ
  pub project_id : ℕ
  pub feature_id : ℕ
  pub identity : PullRequestIdentity

pub data HandoffFailure : Type 0 where
  branch_resolution push_refused creation_failed : HandoffFailure

pub data HandoffOutcome : Type 0 where
  completed : ℕ → HandoffOutcome
  failed : HandoffFailure → HandoffOutcome
  idle : HandoffOutcome

-- What a search for a pull request answers: it throws, or finds one or none.
pub data Lookup : Type 0 where
  unavailable absent : Lookup
  present : PullRequestIdentity → Lookup

-- The gateways; `others` is what other sessions commit between a read and its update.
pub record Hub (G : Type 0) : Type 0 where
  pub ensure_feature_branch : String → G → Option ℕ × G
  pub push_feature_branch : String → ℕ → G → Option ℕ × G
  pub get_pull_request_status : ℕ → G → Bool × G
  pub find_existing : String → G → Lookup × G
  pub create_pull_request : String → G → Option PullRequestIdentity × G
  pub others : G → Db → Db
  pub repository_of : ℕ → ℕ

-- `requested` are the branches a pull request was asked for; `results` the stored outcomes.
pub record HandoffWorld (G : Type 0) : Type 0 where
  pub db : Db
  pub pull_requests : List PullRequestRow
  pub results : List (ℕ × HandoffOutcome)
  pub failures : List (ℕ × HandoffFailure)
  pub requested : List String
  pub hub : G

pub data HandoffAnswer : Type 0 where
  answered : HandoffOutcome → HandoffAnswer
  threw : HandoffAnswer

pub record HandoffContext : Type 0 where
  pub attempt : DevelopmentAttemptRow
  pub project : ProjectRow
  pub feature : FeatureRow

-- `loadHandoffContext`
unfoldable pub load_context : ℕ → Db → Option HandoffContext
load_context attempt_id db = elim (get_development_attempt attempt_id db) [
  | none ↦ none
  | some attempt ↦ elim (get_project_by_id attempt.project_id db) [
    | none ↦ none
    | some project ↦ elim (get_feature_by_id attempt.feature_id db) [
      | none ↦ none
      | some feature ↦
          if any (λ (a : TaskApprovalRow). a.id == attempt.task_approval_id) db.approvals
          then some (record { attempt = attempt; project = project; feature = feature })
          else none
    ]
  ]
]

-- `checkIdempotency`
unfoldable pub stored_outcome : ℕ → List (ℕ × HandoffOutcome) → Option HandoffOutcome
stored_outcome key [] = none
stored_outcome key ((k, outcome) ∷ rest) =
    let later = stored_outcome key rest in if k == key then some outcome else later

module _ {G : Type 0} (hub : Hub G) where
  -- A pull request's activity row, with or without the attempt.
  unfoldable pub note : HandoffContext → Option ℕ → String → HandoffWorld G → HandoffWorld G
  note ctx attempt_id kind w = record w {
    db =
        append_activity_event
          (record {
            project_id = some ctx.project.id;
            feature_id = some ctx.feature.id;
            attempt_id = attempt_id;
            kind = kind;
            source = "worker";
          })
          w.db;
  }

  unfoldable pub audit : HandoffContext → String → HandoffWorld G → HandoffWorld G
  audit ctx action w = record w {
    db =
        append_audit_event
          (record {
            actor_id = 0;
            action = action;
            target_id = ctx.feature.id;
            project_id = some ctx.project.id;
            feature_id = none;
            attempt_id = none;
            result = "success";
          })
          w.db;
  }

  -- `store.transitionFeature`
  unfoldable pub transition : ℕ → TransitionRequest → HandoffWorld G → MoveResult × HandoffWorld G
  transition feature_id request w =
      let (result, db) = transition_feature_in_store (hub.others w.hub) feature_id request w.db in
      (result, record w { db = db })

  -- `persistFailure`: the answer of the transition is not looked at.
  unfoldable pub persist_failure : ℕ → HandoffFailure → HandoffWorld G → HandoffWorld G
  persist_failure feature_id why w = elim (get_feature_by_id feature_id w.db) [
    | none ↦ w
    | some feature ↦
        let moved_to =
          transition feature_id
            (record {
              from = feature.state;
              to = pr_creation_failed;
              owner = github_adapter;
              operation_id = 20;
            })
            w in
        record moved_to.1 { failures = moved_to.1.failures ++ (feature_id, why) ∷ [] }
  ]

  unfoldable pub fail :
      HandoffContext → HandoffFailure → HandoffWorld G → HandoffAnswer × HandoffWorld G
  fail ctx why w = (
    answered (failed why),
    audit ctx "pr.creation_failed"
        (note ctx none "pr.creation_failed" (persist_failure ctx.feature.id why w)),
  )

  -- `persistPRIdentity`; `none` is the violation of the unique number in a repository.
  unfoldable pub persist_identity :
      HandoffContext → PullRequestIdentity → HandoffWorld G → Option (HandoffWorld G)
  persist_identity ctx identity w =
      let repository = hub.repository_of ctx.project.id in
      if any
        (λ (r : PullRequestRow). r.repository == repository && r.identity.number == identity.number)
        w.pull_requests
      then none
      else some (record w {
        pull_requests =
            w.pull_requests
            ++ record {
              repository = repository;
              project_id = ctx.project.id;
              feature_id = ctx.feature.id;
              identity = identity;
            }
              ∷ [];
      })

  -- `recordIdempotency`, which needs the attempt and keeps a stored result.
  unfoldable pub record_result : ℕ → HandoffOutcome → HandoffWorld G → HandoffWorld G
  record_result attempt_id outcome w = elim (get_development_attempt attempt_id w.db) [
    | none ↦ w
    | some attempt ↦ elim (stored_outcome attempt_id w.results) [
      | some old ↦ w
      | none ↦ record w { results = w.results ++ (attempt_id, outcome) ∷ [] }
    ]
  ]
