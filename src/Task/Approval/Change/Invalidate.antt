-- ===== src/Task/Approval/Change/Invalidate.antt =====
-- packages/domain/src/task/task-approval-service.ts, `invalidateApproval`, and the update of an
-- approval that `replaceTask` shares with it.
use mathlib.Core.Path.{subst}
use autopilot_console.Prelude.{
  sym, ◌⊎◌, inl, inr, ◌↔◌, Member, here, there, any_of_Member, Bool-cases, Option-cases, ℕ, ◌==◌,
  ◌≡◌, Option, some, none, Bool, true, false, not, ◌&&◌, if◌then◌else◌, arith, any, update_where,
  List, [], ◌∷◌,
}
use autopilot_console.Feature.State.{
  FeatureState, tasks_review, development_failed, development_interrupted, development_cancelled,
}
use autopilot_console.Store.Rows.{Db, FeatureRow, TaskApprovalRow}
use autopilot_console.Store.Tx.{
  Tx, Reply, replied, threw, throw, with_transaction, other_error, done,
}
use autopilot_console.Store.Repositories.{get_feature_by_id, append_audit_event}
use autopilot_console.Task.Approval.{
  illegal_state, feature_not_found, not_found, ServiceResult, ok, failed, Actor,
  is_invalidate_approval_state, other_project,
}
use autopilot_console.Task.Approval.Attach.{is_none}

pub record InvalidateInput : Type 0 where
  pub feature_id : ℕ
  pub project_id : Option ℕ
  pub approval_id : ℕ
  pub actor : Actor

-- WHERE id = … AND feature_id = … AND invalidated_at IS NULL
unfoldable pub is_open_approval : ℕ → ℕ → TaskApprovalRow → Bool
is_open_approval approval_id feature_id a =
    a.id == approval_id && (a.feature_id == feature_id && is_none a.invalidated_at)

abbrev pub close : ℕ → TaskApprovalRow → TaskApprovalRow
close at a = record a { invalidated_at = some at }

unfoldable pub invalidate_body : ℕ → InvalidateInput → FeatureRow → Tx (ℕ × ℕ)
invalidate_body now input feature db =
    if any (is_open_approval input.approval_id input.feature_id) db.approvals
    then (let closed : Db = record db {
      approvals =
          update_where (is_open_approval input.approval_id input.feature_id) (close now)
            db.approvals;
    } in
        done (input.approval_id, now)
          (append_audit_event
            (record {
              actor_id = input.actor.actor_id;
              action = "feature.approval.invalidate";
              target_id = input.approval_id;
              project_id = some feature.project_id;
              feature_id = some input.feature_id;
              attempt_id = none;
              result = "success";
            })
            closed))
    else throw other_error db

unfoldable pub invalidate_reply : Reply (ℕ × ℕ) × Db → Reply (ServiceResult (ℕ × ℕ)) × Db
invalidate_reply (threw e, db) = (threw e, db)
invalidate_reply (replied approval, db) = (replied (ok approval), db)

-- The clock is read before the transaction: its reading is `now`.
unfoldable pub invalidate_approval :
    (Db → Db) → ℕ → InvalidateInput → Db → Reply (ServiceResult (ℕ × ℕ)) × Db
invalidate_approval others now input db = elim (get_feature_by_id input.feature_id db) [
  | none ↦ (replied (failed feature_not_found), db)
  | some feature ↦
      if other_project input.project_id feature
      then (replied (failed not_found), db)
      else if not (is_invalidate_approval_state feature.state)
      then (replied (failed illegal_state), db)
      else invalidate_reply (with_transaction (invalidate_body now input feature) (others db))
]

-- The approval that is asked for: of that id and feature, and not invalidated yet.
abbrev pub IsAskedFor : InvalidateInput → TaskApprovalRow → Type 0
IsAskedFor input a =
    (a.id ≡ input.approval_id) × (a.feature_id ≡ input.feature_id) × (a.invalidated_at ≡ none)

-- One row after the other: what was asked for has the time, and all else is as it was.
pub data Invalidated (now : ℕ) (input : InvalidateInput)
    : List TaskApprovalRow → List TaskApprovalRow → Type 0 where
  nothing_left : Invalidated now input [] []
  closed :
      {a : TaskApprovalRow} {before after : List TaskApprovalRow}
      → IsAskedFor input a
      → Invalidated now input before after
      → Invalidated now input (a ∷ before) (record a { invalidated_at = some now } ∷ after)
  kept :
      {a : TaskApprovalRow} {before after : List TaskApprovalRow}
      → ¬ IsAskedFor input a
      → Invalidated now input before after
      → Invalidated now input (a ∷ before) (a ∷ after)

-- What the caller may ask: the feature is there, in the given project, and in a state that allows it.
abbrev pub MayInvalidate : InvalidateInput → Db → Type 0
MayInvalidate input db =
    (feature : FeatureRow) × (get_feature_by_id input.feature_id db ≡ some feature)
    × (input.project_id ≡ none ⊎ input.project_id ≡ some feature.project_id)
    × ((feature.state ≡ tasks_review)
        ⊎ ((feature.state ≡ development_failed)
            ⊎ ((feature.state ≡ development_interrupted)
                ⊎ (feature.state ≡ development_cancelled))))

module _ (input : InvalidateInput) where
  abbrev is_asked_for : TaskApprovalRow → Bool
  is_asked_for = is_open_approval input.approval_id input.feature_id

  IsAskedFor-is_open : (a : TaskApprovalRow) → (is_asked_for a ≡ true) ↔ IsAskedFor input a
  unfolding is_open_approval
  IsAskedFor-is_open a = ground arith

  update-Invalidated :
      (now : ℕ) (xs : List TaskApprovalRow)
      → Invalidated now input xs (update_where is_asked_for (close now) xs)
  update-Invalidated now [] = nothing_left
  update-Invalidated now (x ∷ xs) = elim (Bool-cases (is_asked_for x)) [
    | inl e ↦ rw e (closed ((IsAskedFor-is_open x).0 e) (update-Invalidated now xs))
    | inr e ↦
        rw e (kept (λ h. let found = (IsAskedFor-is_open x).1 h in cc) (update-Invalidated now xs))
  ]

  abbrev pub IsOpen : List TaskApprovalRow → Type 0
  IsOpen xs = (a : TaskApprovalRow) × Member a xs × IsAskedFor input a

  any-IsOpen : (xs : List TaskApprovalRow) → any is_asked_for xs ≡ true → IsOpen xs
  any-IsOpen [] h = cc
  any-IsOpen (x ∷ xs) h = elim (Bool-cases (is_asked_for x)) [
    | inl e ↦ (x, here, (IsAskedFor-is_open x).0 e)
    | inr e ↦ let (a, m, asked) = any-IsOpen xs (ground arith) in (a, there m, asked)
  ]

  IsOpen-any : (xs : List TaskApprovalRow) → IsOpen xs → any is_asked_for xs ≡ true
  IsOpen-any xs (a, m, asked) = any_of_Member is_asked_for m ((IsAskedFor-is_open a).1 asked)

  project_iff :
      (feature : FeatureRow)
      → (other_project input.project_id feature ≡ false)
        ↔ (input.project_id ≡ none ⊎ input.project_id ≡ some feature.project_id)
  unfolding other_project
  project_iff feature = ground arith

state_iff :
    (s : FeatureState)
    → (is_invalidate_approval_state s ≡ true) ↔ (
        (s ≡ tasks_review)
        ⊎ ((s ≡ development_failed)
            ⊎ ((s ≡ development_interrupted) ⊎ (s ≡ development_cancelled))))
state_iff s = ground arith

module _ (others : Db → Db) (now : ℕ) (input : InvalidateInput) (db : Db) where
  succeeded :
      (r : ℕ × ℕ) (db' : Db)
      → invalidate_approval others now input db ≡ (replied (ok r), db')
      → (feature : FeatureRow) × (get_feature_by_id input.feature_id db ≡ some feature)
        × (other_project input.project_id feature ≡ false)
        × (is_invalidate_approval_state feature.state ≡ true)
        × (any (is_asked_for input) (others db).approvals ≡ true)
        × (r ≡ (input.approval_id, now))
        × (db'.approvals ≡ update_where (is_asked_for input) (close now) (others db).approvals)
        × (db'.features ≡ (others db).features)
        × (db'.attempts ≡ (others db).attempts)
  unfolding invalidate_approval invalidate_reply with_transaction invalidate_body append_audit_event
  succeeded r db' h = elim (Option-cases (get_feature_by_id input.feature_id db)) [
    | inl e ↦ absurd (ground arith)
    | inr (feature, e) ↦ (
      feature,
      e,
      ground arith,
      ground arith,
      ground arith,
      ground arith,
      ground arith,
      ground arith,
      ground arith,
    )
  ]

  succeeds :
      (feature : FeatureRow)
      → get_feature_by_id input.feature_id db ≡ some feature
      → other_project input.project_id feature ≡ false
      → is_invalidate_approval_state feature.state ≡ true
      → any (is_asked_for input) (others db).approvals ≡ true
      → (invalidate_approval others now input db).0 ≡ replied (ok (input.approval_id, now))
  unfolding invalidate_approval invalidate_reply with_transaction invalidate_body
  succeeds feature found mine state open_one = rw (
    found, mine, state, open_one, invalidate_approval, invalidate_reply, with_transaction,
    invalidate_body,
  )

-- Whatever other sessions commit in between: invalidation succeeds exactly where the caller may ask
-- for it and the approval of that id and feature is open when the transaction runs; it answers that id
-- and the time, closes what is asked for at that time and no other approval, and leaves the features
-- and the attempts as the other sessions left them.
pub invalidate_closes :
    (others : Db → Db) (now : ℕ) (input : InvalidateInput) (db : Db)
    → ((MayInvalidate input db × IsOpen input (others db).approvals)
        → (invalidate_approval others now input db).0 ≡ replied (ok (input.approval_id, now)))
      × ((r : ℕ × ℕ) (db' : Db)
          → invalidate_approval others now input db ≡ (replied (ok r), db')
          → MayInvalidate input db
            × IsOpen input (others db).approvals
            × (r ≡ (input.approval_id, now))
            × Invalidated now input (others db).approvals db'.approvals
            × (db'.features ≡ (others db).features)
            × (db'.attempts ≡ (others db).attempts))
invalidate_closes others now input db = (
  (λ asked.
      let ((feature, found, mine, state), open_one) = asked in
      succeeds others now input db feature found ((project_iff input feature).1 mine)
        ((state_iff feature.state).1 state) (IsOpen-any input (others db).approvals open_one)),
  λ r db' h.
      let (feature, found, mine, state, open_one, answered, approvals, features, attempts) =
        succeeded others now input db r db' h in
      (
        (feature, found, (project_iff input feature).0 mine, (state_iff feature.state).0 state),
        any-IsOpen input (others db).approvals open_one,
        answered,
        subst (Invalidated now input (others db).approvals) (sym approvals)
            (update-Invalidated input now (others db).approvals),
        features,
        attempts,
      ),
)
