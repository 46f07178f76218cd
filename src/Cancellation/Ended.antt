-- ===== src/Cancellation/Ended.antt =====
-- What a cancellation that reports success has written.
use mathlib.Core.Path.{subst}
use autopilot_console.Prelude.{
  ℕ, ◌+◌, ◌==◌, ==_iff, ◌≡◌, ◌≢◌, refl, sym, ◌∙◌, ap, some, none, Bool, true, false, and_true, List,
  arith, find_passes, Bool-cases, Option-cases, inl, inr, Member, here, there, count_where,
  count_where_some, update_where, find, find-update_where,
}
use autopilot_console.Feature.State.{FeatureState}
use autopilot_console.Feature.Names.{same_state_iff}
use autopilot_console.Feature.Transition.{
  TransitionRejectionReason, FeatureTransitionResult, applied, idempotent, rejected,
  AppliedFeatureTransition,
}
use autopilot_console.Feature.Machine.{apply_feature_transition, apply_edge}
use autopilot_console.Feature.Machine.Table.{Allowed}
use autopilot_console.Feature.Machine.Apply.{applied-Accepts}
use autopilot_console.Store.Rows.{Db, FeatureRow, DevelopmentAttemptRow}
use autopilot_console.Store.Repositories.{
  get_development_attempt, update_features, append_activity_event, append_audit_event,
}
use autopilot_console.Task.Approval.{transition_command}
use autopilot_console.Task.Approval.Approve.{unchanged_since, move_feature}
use autopilot_console.Cancellation.World.{AttemptUpdate, updated_attempt, update_attempt_status}
use autopilot_console.Cancellation.Persist.{
  PersistTransitionInput, cancelled_update, record_cancellation, finish_attempt, persist_applied,
  persist_transition,
}

Member-update :
    (t : FeatureRow → Bool) (f : FeatureRow → FeatureRow) {r : FeatureRow} {rows : List FeatureRow}
    → Member r rows
    → t r ≡ true
    → Member (f r) (update_where t f rows)
Member-update t f here h = rw h here
Member-update t f (there m) h = there (Member-update t f m h)

-- The attempt after its update, and the rows beside it.
pub record AttemptEnded (input : PersistTransitionInput) (db db' : Db) : Type 0 where
  pub attempt : DevelopmentAttemptRow
  pub found : get_development_attempt input.attempt.id db ≡ some attempt
  pub after :
      get_development_attempt input.attempt.id db'
      ≡ some (updated_attempt (cancelled_update input) attempt)
  pub features : db'.features ≡ db.features

update_found :
    (id : ℕ) (u : AttemptUpdate) (db : Db) (a : DevelopmentAttemptRow)
    → get_development_attempt id db ≡ some a
    → find
        (λ (r : DevelopmentAttemptRow). r.id == id)
        (update_where (λ (r : DevelopmentAttemptRow). r.id == id) (updated_attempt u) db.attempts)
      ≡ some (updated_attempt u a)
unfolding get_development_attempt updated_attempt
update_found id u db a h =
    let passes = find_passes (λ (r : DevelopmentAttemptRow). r.id == id) db.attempts {a = a} h in
    find-update_where (λ (r : DevelopmentAttemptRow). r.id == id)
      (λ (r : DevelopmentAttemptRow). r.id == id) (updated_attempt u) db.attempts {a = a}
      (λ x. refl) h
    ∙ rw passes

abbrev attempts_after : PersistTransitionInput → Db → Db
attempts_after input db = record db {
  attempts =
      update_where (λ (r : DevelopmentAttemptRow). r.id == input.attempt.id)
        (updated_attempt (cancelled_update input)) db.attempts;
}

finish_none :
    (input : PersistTransitionInput) (db : Db)
    → get_development_attempt input.attempt.id db ≡ none
    → finish_attempt input db ≡ (false, db)
unfolding finish_attempt update_attempt_status
finish_none input db e = rw (e, finish_attempt, update_attempt_status)

finish_some :
    (input : PersistTransitionInput) (db : Db) (a : DevelopmentAttemptRow)
    → get_development_attempt input.attempt.id db ≡ some a
    → finish_attempt input db ≡ (true, record_cancellation input (attempts_after input db))
unfolding finish_attempt update_attempt_status
finish_some input db a e = rw (e, finish_attempt, update_attempt_status)

recorded-AttemptEnded :
    (input : PersistTransitionInput) (db : Db) (a : DevelopmentAttemptRow)
    → get_development_attempt input.attempt.id db ≡ some a
    → AttemptEnded input db (record_cancellation input (attempts_after input db))
unfolding record_cancellation append_audit_event append_activity_event get_development_attempt
recorded-AttemptEnded input db a e = record {
  attempt = a;
  found = e;
  after = update_found input.attempt.id (cancelled_update input) db a e;
  features = refl;
}

finish_attempt-AttemptEnded :
    (input : PersistTransitionInput) (db : Db)
    → (finish_attempt input db).0 ≡ true
    → AttemptEnded input db (finish_attempt input db).1
finish_attempt-AttemptEnded input db h =
    elim (Option-cases (get_development_attempt input.attempt.id db)) [
      | inl e ↦ let step = ap (λ (r : Bool × Db). r.0) (finish_none input db e) in cc
      | inr (a, e) ↦
          subst (λ (r : Bool × Db). AttemptEnded input db r.1) (sym (finish_some input db a e))
            (recorded-AttemptEnded input db a e)
    ]

-- A cancellation that was written: an allowed move of the feature as it was read, by one version, and
-- the attempt with its final status.
pub record Ended (input : PersistTransitionInput) (db db' : Db) : Type 0 where
  pub permitted : Allowed input.feature.state input.target_state input.owner
  pub row : FeatureRow
  pub was : Member row db.features
  pub same_id : row.id ≡ input.feature.id
  pub same_state : row.state ≡ input.feature.state
  pub same_version : row.row_version ≡ input.feature.row_version
  pub moved :
      Member
        (record row { state = input.target_state; row_version = input.feature.row_version + 1 })
        db'.features
  pub attempt : DevelopmentAttemptRow
  pub attempt_found : get_development_attempt input.attempt.id db ≡ some attempt
  pub attempt_after :
      get_development_attempt input.attempt.id db'
      ≡ some (record attempt {
        status = input.attempt_status;
        ended_at = some input.now;
        cancellation_requested_at = some input.now;
        cancellation_reason = some input.cause;
      })

-- The update leaves the other columns.
final_row :
    (input : PersistTransitionInput) (attempt : DevelopmentAttemptRow)
    → updated_attempt (cancelled_update input) attempt ≡ record attempt {
      status = input.attempt_status;
      ended_at = some input.now;
      cancellation_requested_at = some input.now;
      cancellation_reason = some input.cause;
    }
unfolding updated_attempt
final_row input attempt = refl

abbrev transition_of : PersistTransitionInput → AppliedFeatureTransition
transition_of input = apply_edge input.now (
    transition_command input.feature.id input.feature.state input.target_state input.owner
      input.cause input.operation_id input.feature.row_version (some input.feature.state))

module _ (input : PersistTransitionInput) (db : Db) where
  found_row :
      (count_where (unchanged_since (transition_of input)) db.features == 0) ≡ false
      → (r : FeatureRow) × Member r db.features × (unchanged_since (transition_of input) r ≡ true)
  found_row h = count_where_some (unchanged_since (transition_of input)) db.features (ground arith)

  unchanged :
      (r : FeatureRow)
      → unchanged_since (transition_of input) r ≡ true
      → (r.id ≡ input.feature.id)
        × (r.state ≡ input.feature.state)
        × (r.row_version ≡ input.feature.row_version)
  unfolding unchanged_since apply_edge transition_command
  unchanged r h =
      let (id, rest) = and_true _ _ h in
      let (state, version) = and_true _ _ rest in
      ((==_iff _ _).0 id, (same_state_iff _ _).0 state, (==_iff _ _).0 version)

  moved_row :
      (r : FeatureRow)
      → move_feature (transition_of input) r
        ≡ record r { state = input.target_state; row_version = input.feature.row_version + 1 }
  unfolding move_feature apply_edge transition_command
  moved_row r = refl

  abbrev moved_db : Db
  moved_db =
      update_features (unchanged_since (transition_of input)) (move_feature (transition_of input))
        db

  written-Ended :
      Allowed input.feature.state input.target_state input.owner
      → (r : FeatureRow) → Member r db.features
      → unchanged_since (transition_of input) r ≡ true
      → AttemptEnded input moved_db (finish_attempt input moved_db).1
      → Ended input db (finish_attempt input moved_db).1
  unfolding update_features get_development_attempt
  written-Ended permitted r m h a =
      let (id, state, version) = unchanged r h in
      record {
        permitted = permitted;
        row = r;
        was = m;
        same_id = id;
        same_state = state;
        same_version = version;
        moved =
            subst
              (λ (rows : List FeatureRow).
                Member
                  (record r {
                    state = input.target_state;
                    row_version = input.feature.row_version + 1;
                  })
                  rows)
              (sym a.features)
              (subst (λ (z : FeatureRow). Member z moved_db.features) (moved_row r)
                (Member-update (unchanged_since (transition_of input))
                  (move_feature (transition_of input)) m h));
        attempt = a.attempt;
        attempt_found = a.found;
        attempt_after = a.after ∙ ap some (final_row input a.attempt);
      }

  no_rejected :
      (why : TransitionRejectionReason) (s t : FeatureState)
      → (persist_applied input (rejected why s t) db).0 ≢ true
  unfolding persist_applied
  no_rejected why s t h = cc

  no_idempotent :
      (t : AppliedFeatureTransition) → (persist_applied input (idempotent t) db).0 ≢ true
  unfolding persist_applied
  no_idempotent t h = cc

  hit_step :
      (count_where (unchanged_since (transition_of input)) db.features == 0) ≡ false
      → persist_applied input (applied (transition_of input)) db ≡ finish_attempt input moved_db
  unfolding persist_applied
  hit_step h = rw (h, persist_applied)

  miss_step :
      (count_where (unchanged_since (transition_of input)) db.features == 0) ≡ true
      → persist_applied input (applied (transition_of input)) db ≡ (false, db)
  unfolding persist_applied
  miss_step h = rw (h, persist_applied)

  applied-Ended :
      Allowed input.feature.state input.target_state input.owner
      → (persist_applied input (applied (transition_of input)) db).0 ≡ true
      → Ended input db (persist_applied input (applied (transition_of input)) db).1
  applied-Ended permitted h =
      elim (Bool-cases (count_where (unchanged_since (transition_of input)) db.features == 0)) [
        | inl miss ↦ let step = ap (λ (r : Bool × Db). r.0) (miss_step miss) in cc
        | inr hit ↦
            let (r, m, u) = found_row hit in
            let done = ap (λ (q : Bool × Db). q.0) (sym (hit_step hit)) ∙ h in
            subst (λ (q : Bool × Db). Ended input db q.1) (sym (hit_step hit))
              (written-Ended permitted r m u (finish_attempt-AttemptEnded input moved_db done))
      ]

  result-Ended :
      (r : FeatureTransitionResult)
      → apply_feature_transition input.now (
          transition_command input.feature.id input.feature.state input.target_state input.owner
            input.cause input.operation_id input.feature.row_version
            (some input.feature.state))
        ≡ r
      → (persist_applied input r db).0 ≡ true
      → Ended input db (persist_applied input r db).1
  unfolding transition_command
  result-Ended (rejected why s t) e h = absurd (no_rejected why s t h)
  result-Ended (idempotent t) e h = absurd (no_idempotent t h)
  result-Ended (applied t) e h =
      let (accepts, same) =
        applied-Accepts input.now
          (transition_command input.feature.id input.feature.state input.target_state input.owner
            input.cause input.operation_id input.feature.row_version (some input.feature.state))
          t e in
      subst
        (λ (z : AppliedFeatureTransition).
          (persist_applied input (applied z) db).0 ≡ true
          → Ended input db (persist_applied input (applied z) db).1)
        (sym same) (applied-Ended accepts.permitted) h

  pub persist_transition-Ended :
      (persist_transition input db).0 ≡ true → Ended input db (persist_transition input db).1
  unfolding persist_transition
  persist_transition-Ended h = result-Ended _ refl h
