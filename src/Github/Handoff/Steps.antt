-- ===== src/Github/Handoff/Steps.antt =====
-- The ends of a handoff, and what a step keeps.
use mathlib.Core.Path.{subst}
use autopilot_console.Prelude.{
  ℕ, ◌==◌, ◌≡◌, refl, ◌∙◌, ap, Option, some, Bool, String, List, [], ◌∷◌, ◌++◌, find, count_where,
  Member, here, there, arith, Bool-cases, Option-cases, inl, inr, ◌⊎◌,
}
use autopilot_console.Feature.Transition.{FeatureTransitionResult, applied, idempotent, rejected}
use autopilot_console.Task.Approval.Approve.{unchanged_since}
use autopilot_console.Store.Rows.{Db, DevelopmentAttemptRow}
use autopilot_console.Store.Repositories.{
  get_feature_by_id, get_development_attempt, update_features, append_activity_event,
  append_audit_event,
}
use autopilot_console.Github.Store.{
  TransitionRequest, store_transition, transition_feature_in_store,
}
use autopilot_console.Github.Handoff.Store.{
  PullRequestIdentity, PullRequestRow, HandoffFailure, idle, Lookup, unavailable, absent, present,
  Hub, HandoffWorld, HandoffAnswer, answered, threw, HandoffContext, note, audit, transition, fail,
}
use autopilot_console.Github.Handoff.Worker.{finish}

pub Lookup-cases :
    (l : Lookup)
    → (l ≡ unavailable) ⊎ ((l ≡ absent) ⊎ ((i : PullRequestIdentity) × (l ≡ present i)))
Lookup-cases unavailable = inl refl
Lookup-cases absent = inr (inl refl)
Lookup-cases (present i) = inr (inr (i, refl))

pub Member_last : {A : Type 0} (xs : List A) (x : A) → Member x (xs ++ x ∷ [])
Member_last [] x = here
Member_last (y ∷ ys) x = there (Member_last ys x)

pub found-Member :
    {A : Type 0} (p : A → Bool) (xs : List A) (a : A) → find p xs ≡ some a → Member a xs
found-Member p [] a h = absurd (ground arith)
found-Member p (x ∷ xs) a h = elim (Bool-cases (p x)) [
  | inl passes ↦ subst (λ z. Member z (x ∷ xs)) (ground arith) here
  | inr fails ↦ there (found-Member p xs a (ground arith))
]

abbrev pub HasAttempt : ℕ → Db → Type 0
HasAttempt id db = (a : DevelopmentAttemptRow) × (get_development_attempt id db ≡ some a)

HasAttempt-same :
    (id : ℕ) (db db' : Db) → db'.attempts ≡ db.attempts → HasAttempt id db → HasAttempt id db'
unfolding get_development_attempt
HasAttempt-same id db db' same (a, found) =
    (a, ap (find (λ (r : DevelopmentAttemptRow). r.id == id)) same ∙ found)

-- No other session deletes the attempt.
abbrev pub Keeps : {G : Type 0} → Hub G → ℕ → Type 0
Keeps hub id = (g : _) (db : Db) → HasAttempt id db → HasAttempt id (hub.others g db)

store_attempts :
    (r : FeatureTransitionResult) (db : Db) → (store_transition r db).1.attempts ≡ db.attempts
unfolding store_transition update_features
store_attempts (rejected _ _ _) db = refl
store_attempts (idempotent _) db = refl
store_attempts (applied t) db =
    elim (Bool-cases (count_where (unchanged_since t) db.features == 0)) [
      | inl miss ↦ rw (miss, store_transition)
      | inr hit ↦ rw (hit, store_transition)
    ]

module _ {G : Type 0} (hub : Hub G) where
  pub transition_attempts :
      (id feature_id : ℕ) (request : TransitionRequest) (w : HandoffWorld G)
      → Keeps hub id
      → HasAttempt id w.db
      → HasAttempt id (transition hub feature_id request w).1.db
  unfolding transition transition_feature_in_store
  transition_attempts id feature_id request w keeps has =
      elim (Option-cases (get_feature_by_id feature_id w.db)) [
        | inl e ↦ rw (e, transition_feature_in_store) has
        | inr (feature, e) ↦
            rw (e, transition_feature_in_store)
              (HasAttempt-same id (hub.others w.hub w.db) _
                (store_attempts _ (hub.others w.hub w.db)) (keeps w.hub w.db has))
      ]

module _ {G : Type 0} (hub : Hub G) (ctx : HandoffContext) where
  pub note_attempts :
      (o : Option ℕ) (kind : String) (w : HandoffWorld G) (id : ℕ)
      → HasAttempt id w.db
      → HasAttempt id (note hub ctx o kind w).db
  unfolding note append_activity_event
  note_attempts o kind w id has = HasAttempt-same id w.db _ refl has

  pub audit_attempts :
      (action : String) (w : HandoffWorld G) (id : ℕ)
      → HasAttempt id w.db
      → HasAttempt id (audit hub ctx action w).db
  unfolding audit append_audit_event
  audit_attempts action w id has = HasAttempt-same id w.db _ refl has

  -- A step that asks GitHub for nothing and stores no result; attempts stay where sessions keep them.
  pub record Same (w w' : HandoffWorld G) : Type 0 where
    pub results : w'.results ≡ w.results
    pub requested : w'.requested ≡ w.requested
    pub kept : (id : ℕ) → Keeps hub id → HasAttempt id w.db → HasAttempt id w'.db

  -- A pull request is asked for once at most, and where GitHub was asked for one and had none.
  abbrev pub AsksOnce : HandoffWorld G → HandoffWorld G → Type 0
  AsksOnce w w' =
      (w'.requested ≡ w.requested)
      ⊎ ((w'.requested ≡ w.requested ++ ctx.feature.branch_name ∷ [])
          × (s : G) × ((hub.find_existing ctx.feature.branch_name s).0 ≡ absent))

  pub record Reaches (w w' : HandoffWorld G) : Type 0 where
    pub results : w'.results ≡ w.results
    pub asks : AsksOnce w w'
    pub kept : (id : ℕ) → Keeps hub id → HasAttempt id w.db → HasAttempt id w'.db

  -- The pull request is stored for the feature.
  abbrev pub HasStored : PullRequestIdentity → HandoffWorld G → Type 0
  HasStored identity w =
      (row : PullRequestRow) × Member row w.pull_requests
      × (row.feature_id ≡ ctx.feature.id)
      × (row.identity ≡ identity)

  pub data Ends (w : HandoffWorld G) (r : HandoffAnswer × HandoffWorld G) : Type 0 where
    leaves :
        (w1 : HandoffWorld G)
        → Reaches w w1
        → ◌≡◌ {A = HandoffAnswer × HandoffWorld G} r (answered idle, w1)
        → Ends w r
    throws :
        (w1 : HandoffWorld G)
        → Reaches w w1
        → ◌≡◌ {A = HandoffAnswer × HandoffWorld G} r (threw, w1)
        → Ends w r
    fails :
        (why : HandoffFailure) (w1 : HandoffWorld G)
        → Reaches w w1
        → r ≡ fail hub ctx why w1
        → Ends w r
    finishes :
        (identity : PullRequestIdentity) (w1 : HandoffWorld G)
        → Reaches w w1
        → HasStored identity w1
        → r ≡ finish hub ctx identity w1
        → Ends w r

  pub after-Same : (w w' w1 : HandoffWorld G) → Same w w' → Reaches w' w1 → Reaches w w1
  after-Same w w' w1 s t = record {
    results = t.results ∙ s.results;
    kept = λ id k h. t.kept id k (s.kept id k h);
    asks = elim t.asks [
      | inl none_asked ↦ inl (none_asked ∙ s.requested)
      | inr (asked, s1, gone) ↦ inr (
        asked ∙ ap (λ (xs : List String). xs ++ ctx.feature.branch_name ∷ []) s.requested,
        s1,
        gone,
      )
    ];
  }

  pub Ends-after :
      (w w' : HandoffWorld G) (r : HandoffAnswer × HandoffWorld G)
      → Same w w'
      → Ends w' r
      → Ends w r
  Ends-after w w' r s (leaves w1 t e) = leaves w1 (after-Same w w' w1 s t) e
  Ends-after w w' r s (throws w1 t e) = throws w1 (after-Same w w' w1 s t) e
  Ends-after w w' r s (fails why w1 t e) = fails why w1 (after-Same w w' w1 s t) e
  Ends-after w w' r s (finishes identity w1 t h e) =
      finishes identity w1 (after-Same w w' w1 s t) h e

  pub Reaches-refl : (w : HandoffWorld G) → Reaches w w
  Reaches-refl w = record { results = refl; asks = inl refl; kept = λ id k h. h }
