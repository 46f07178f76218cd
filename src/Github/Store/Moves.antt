-- ===== src/Github/Store/Moves.antt =====
-- The transitions that the GitHub workers make through the store.
use mathlib.Core.Path.{subst}
use autopilot_console.Prelude.{
  ℕ, ◌+◌, ◌≤◌, ◌==◌, ==_iff, ◌≡◌, ◌≢◌, refl, sym, ◌∙◌, ap, some, none, Bool, true, false, arith,
  Bool-cases, Option-cases, inl, inr, ◌⊎◌, count_where, count_where_same, count_where_le, and_true,
  find, find-update_where, find_passes, Member, here, there, List, [], ◌∷◌,
}
use autopilot_console.Feature.Names.{same_state_iff}
use autopilot_console.Feature.Transition.{
  applied, idempotent, rejected, AppliedFeatureTransition, FeatureTransitionResult,
}
use autopilot_console.Feature.Machine.{apply_feature_transition, apply_edge}
use autopilot_console.Feature.Machine.Table.{Allowed}
use autopilot_console.Feature.Machine.Apply.{applied-Accepts}
use autopilot_console.Store.Rows.{Db, FeatureRow}
use autopilot_console.Store.Repositories.{get_feature_by_id, update_features}
use autopilot_console.Task.Approval.{transition_command}
use autopilot_console.Task.Approval.Approve.{unchanged_since, move_feature}
use autopilot_console.Github.Store.{
  TransitionRequest, MoveRejection, MoveResult, moved, not_moved, store_command, store_transition,
  transition_feature_in_store,
}

abbrev pub has_id : ℕ → FeatureRow → Bool
has_id feature_id r = r.id == feature_id

-- What an applied transition has gone by, and what it leaves.
pub record Moves (feature_id : ℕ) (request : TransitionRequest) (db seen db' : Db) : Type 0 where
  pub feature : FeatureRow
  pub row : FeatureRow
  pub read_row : get_feature_by_id feature_id db ≡ some feature
  pub observed : feature.state ≡ request.from
  pub permitted : Allowed request.from request.to request.owner
  pub found : get_feature_by_id feature_id seen ≡ some row
  pub unchanged : (row.state ≡ feature.state) × (row.row_version ≡ feature.row_version)
  pub after :
      get_feature_by_id feature_id db'
      ≡ some (record row { state = request.to; row_version = row.row_version + 1 })

find-Member :
    (p : FeatureRow → Bool) (xs : List FeatureRow) (a : FeatureRow)
    → find p xs ≡ some a
    → Member a xs
find-Member p [] a h = absurd (ground arith)
find-Member p (x ∷ xs) a h = elim (Bool-cases (p x)) [
  | inl passes ↦ subst (λ z. Member z (x ∷ xs)) (ground arith) here
  | inr fails ↦ there (find-Member p xs a (ground arith))
]

unchanged-has_id :
    (t : AppliedFeatureTransition) (r : FeatureRow)
    → unchanged_since t r ≡ true
    → has_id t.feature_id r ≡ true
unfolding unchanged_since
unchanged-has_id t r h = (and_true _ _ h).0

-- Where at most one row has the id, and some row is unchanged, the row with the id is.
unchanged_row :
    (t : AppliedFeatureTransition) (xs : List FeatureRow) (row : FeatureRow)
    → count_where (has_id t.feature_id) xs ≤ 1
    → (count_where (unchanged_since t) xs == 0) ≡ false
    → find (has_id t.feature_id) xs ≡ some row
    → unchanged_since t row ≡ true
unchanged_row t xs row one some_hit found =
    let fewer = count_where_le (unchanged_since t) (has_id t.feature_id) xs (unchanged-has_id t) in
    count_where_same (unchanged_since t) (has_id t.feature_id)
      (find-Member (has_id t.feature_id) xs row found) (unchanged-has_id t) (ground arith)
      (find_passes (has_id t.feature_id) xs {a = row} found)

-- Some row has the id if some row is unchanged.
none_found :
    (p q : FeatureRow → Bool) (xs : List FeatureRow)
    → ((x : FeatureRow) → p x ≡ true → q x ≡ true)
    → find q xs ≡ none
    → count_where p xs ≡ 0
none_found p q [] h missing = refl
none_found p q (x ∷ xs) h missing =
    let first = h x in let rest = none_found p q xs h in ground arith

module _ (feature_id : ℕ) (request : TransitionRequest) (feature : FeatureRow) (clock : ℕ) where
  abbrev store_applied : AppliedFeatureTransition
  store_applied = apply_edge clock (store_command feature_id request feature)

  updated :
      (seen : Db) (row : FeatureRow)
      → get_feature_by_id feature_id seen ≡ some row
      → unchanged_since store_applied row ≡ true
      → (row.state ≡ request.from)
        × (row.row_version ≡ feature.row_version)
        × (get_feature_by_id feature_id
              (update_features (unchanged_since store_applied) (move_feature store_applied) seen)
            ≡ some (record row { state = request.to; row_version = row.row_version + 1 }))
  unfolding get_feature_by_id update_features unchanged_since move_feature apply_edge store_command
      transition_command
  updated seen row found same =
      let (mine, rest) = and_true _ _ same in
      let (state, version) = and_true _ _ rest in
      let kept =
        find-update_where (has_id feature_id) (unchanged_since store_applied)
          (move_feature store_applied) seen.features {a = row} (λ x. refl) found in
      (
        (same_state_iff row.state request.from).0 state,
        (==_iff _ _).0 version,
        kept
            ∙ rw same (
                ap (λ v. some (record row { state = request.to; row_version = v + 1 }))
                  (sym ((==_iff _ _).0 version))),
      )

  -- The answers, by the answer of the transition service.
  store_cases :
      (res : FeatureTransitionResult) (seen : Db) (reply : MoveResult) (db' : Db)
      → apply_feature_transition clock (store_command feature_id request feature) ≡ res
      → store_transition res seen ≡ (reply, db')
      → ((reply ≢ moved) × (db' ≡ seen))
        ⊎ ((reply ≡ moved)
            × (feature.state ≡ request.from)
            × Allowed request.from request.to request.owner
            × ((count_where (unchanged_since store_applied) seen.features == 0) ≡ false)
            × (db'
                ≡ update_features
                    (unchanged_since store_applied)
                    (move_feature store_applied)
                    seen))
  unfolding store_transition store_command transition_command
  store_cases (rejected _ _ _) seen reply db' ran h = inl ((λ e. ground arith), ground arith)
  store_cases (idempotent _) seen reply db' ran h = inl ((λ e. ground arith), ground arith)
  store_cases (applied t) seen reply db' ran h =
      let (accepts, same) =
        applied-Accepts clock (store_command feature_id request feature) t ran in
      elim (Bool-cases (count_where (unchanged_since t) seen.features == 0)) [
        | inl miss ↦ inl ((λ e. ground arith), ground arith)
        | inr hit ↦ inr (
          ground arith,
          accepts.observed feature.state refl,
          accepts.permitted,
          subst (λ t'. (count_where (unchanged_since t') seen.features == 0) ≡ false) same hit,
          subst (λ t'. db' ≡ update_features (unchanged_since t') (move_feature t') seen) same
              (ground arith),
        )
      ]

  moved-Moves :
      (db seen db' : Db)
      → get_feature_by_id feature_id db ≡ some feature
      → count_where (has_id feature_id) seen.features ≤ 1
      → feature.state ≡ request.from
      → Allowed request.from request.to request.owner
      → (count_where (unchanged_since store_applied) seen.features == 0) ≡ false
      → db' ≡ update_features (unchanged_since store_applied) (move_feature store_applied) seen
      → Moves feature_id request db seen db'
  unfolding get_feature_by_id apply_edge store_command transition_command
  moved-Moves db seen db' read_row one observed permitted hit after =
      elim (Option-cases (find (has_id feature_id) seen.features)) [
        | inl missing ↦
            let none_hit =
              none_found (unchanged_since store_applied) (has_id feature_id) seen.features
                (unchanged-has_id store_applied) missing in
            absurd (ground arith)
        | inr (row, found) ↦
            let same = unchanged_row store_applied seen.features row one hit found in
            let (state, version, result) = updated seen row found same in
            record {
              feature = feature;
              row = row;
              read_row = read_row;
              observed = observed;
              permitted = permitted;
              found = found;
              unchanged = (state ∙ sym observed, version);
              after = ap (get_feature_by_id feature_id) after ∙ result;
            }
      ]

module _ (others : Db → Db) (feature_id : ℕ) (request : TransitionRequest) (db : Db) where
  in_store :
      (reply : MoveResult) (db' : Db) (feature : FeatureRow)
      → get_feature_by_id feature_id db ≡ some feature
      → transition_feature_in_store others feature_id request db ≡ (reply, db')
      → store_transition
          (apply_feature_transition db.clock (store_command feature_id request feature))
          (others db)
        ≡ (reply, db')
  unfolding transition_feature_in_store
  in_store reply db' feature found h = rw (found, transition_feature_in_store) at h

  missing_row :
      (reply : MoveResult) (db' : Db)
      → get_feature_by_id feature_id db ≡ none
      → transition_feature_in_store others feature_id request db ≡ (reply, db')
      → (reply ≢ moved) × (db' ≡ db)
  unfolding transition_feature_in_store
  missing_row reply db' missing h = ((λ e. ground arith), ground arith)

-- Whatever other sessions commit between the read and the update: where a transition is reported as
-- applied, and at most one row has the feature's id, the row that was read was in the requested
-- state, the table allows the move to the requested owner, the other sessions had changed neither
-- the state nor the version, and the feature is now in the requested state, one version on.
pub transition_feature_in_store-Moves :
    (others : Db → Db) (feature_id : ℕ) (request : TransitionRequest) (db db' : Db)
    → count_where (has_id feature_id) (others db).features ≤ 1
    → transition_feature_in_store others feature_id request db ≡ (moved, db')
    → Moves feature_id request db (others db) db'
transition_feature_in_store-Moves others feature_id request db db' one h =
    elim (Option-cases (get_feature_by_id feature_id db)) [
      | inl missing ↦ absurd ((missing_row others feature_id request db moved db' missing h).0 refl)
      | inr (feature, read_row) ↦
          elim (store_cases feature_id request feature db.clock _ (others db) moved db' refl
            (in_store others feature_id request db moved db' feature read_row h)) [
              | inl (unmoved, _) ↦ absurd (unmoved refl)
              | inr (_, observed, permitted, hit, after) ↦
                  moved-Moves feature_id request feature db.clock db (others db) db' read_row one
                    observed permitted hit after
            ]
    ]

-- A transition that is not reported as applied leaves the database as the call found it or as the
-- other sessions left it.
pub transition_unmoved :
    (others : Db → Db) (feature_id : ℕ) (request : TransitionRequest) (db : Db)
    (why : MoveRejection) (db' : Db)
    → transition_feature_in_store others feature_id request db ≡ (not_moved why, db')
    → (db' ≡ db) ⊎ (db' ≡ others db)
transition_unmoved others feature_id request db why db' h =
    elim (Option-cases (get_feature_by_id feature_id db)) [
      | inl missing ↦ inl (missing_row others feature_id request db (not_moved why) db' missing h).1
      | inr (feature, read_row) ↦
          elim (store_cases feature_id request feature db.clock _ (others db) (not_moved why) db'
            refl (in_store others feature_id request db (not_moved why) db' feature read_row h)) [
              | inl (_, same) ↦ inr same
              | inr parts ↦ let e = parts.0 in absurd (ground arith)
            ]
    ]
