-- ===== src/Cancellation/Cancelled.antt =====
-- What the answer `cancelled` stands for.
use mathlib.Core.Path.{subst}
use autopilot_console.Prelude.{
  ℕ, ◌+◌, some, Member, ◌≡◌, refl, sym, ◌∙◌, ap, Bool, true, false, arith,
}
use autopilot_console.Feature.State.{FeatureState, queued, development_cancelled}
use autopilot_console.Feature.Transition.{TransitionOwner, human}
use autopilot_console.Feature.Machine.Table.{
  Allowed, cancel_running as cancel_running_edge, cancel_queued as cancel_queued_edge,
}
use autopilot_console.Store.Rows.{Db, FeatureRow, DevelopmentAttemptRow, cancelled}
use autopilot_console.Store.Repositories.{get_development_attempt}
use autopilot_console.Cancellation.World.{Os, World, Answer, returned, verify_identity, now}
use autopilot_console.Cancellation.Controller.{
  CancelOutcome, cancelled_outcome, RunHandle, is_queued, already_cancelled, cancellation,
  RunningCheck, answering, conclude, cancel_queued, stop_and_record, cancel_checked, cancel_running,
}
use autopilot_console.Cancellation.Ended.{Ended, persist_transition-Ended}

-- What a cancellation leaves: the feature, found as it had been read, is cancelled one version later,
-- and the attempt is CANCELLED, with the time and the reason, and otherwise unchanged.
pub record LeavesCancelled (attempt : DevelopmentAttemptRow) (feature : FeatureRow)
    (reason time : ℕ) (db db' : Db) : Type 0 where
  pub row : FeatureRow
  pub was : Member row db.features
  pub same_id : row.id ≡ feature.id
  pub same_state : row.state ≡ feature.state
  pub same_version : row.row_version ≡ feature.row_version
  pub moved :
      Member
        (record row { state = development_cancelled; row_version = feature.row_version + 1 })
        db'.features
  pub old : DevelopmentAttemptRow
  pub old_found : get_development_attempt attempt.id db ≡ some old
  pub after :
      get_development_attempt attempt.id db'
      ≡ some (record old {
        status = cancelled;
        ended_at = some time;
        cancellation_requested_at = some time;
        cancellation_reason = some reason;
      })

withdrawn_from : (s : FeatureState) → Allowed s development_cancelled human → s ≡ queued
withdrawn_from _ cancel_queued_edge = refl

module _ {W : Type 0} (os : Os W) where
  answered_done :
      (r : Bool × World W)
      → (answering os cancelled_outcome r).0 ≡ returned cancelled_outcome
      → r.0 ≡ true
  answered_done (false, w) h = cc
  answered_done (true, w) h = refl

  answered_world : (o : CancelOutcome) (r : Bool × World W) → (answering os o r).1 ≡ r.1
  answered_world o (false, w) = refl
  answered_world o (true, w) = refl

  module _ (attempt : DevelopmentAttemptRow) (feature : FeatureRow) (reason operation_id : ℕ) where
    -- The writes of a cancellation, on the database as it then was.
    abbrev pub WrittenBy : TransitionOwner → World W → Type 0
    WrittenBy owner w' =
        (seen : Db) × (time : ℕ) × Ended
          (cancellation attempt feature owner reason operation_id time) seen w'.db

    conclude-WrittenBy :
        (owner : TransitionOwner) (w : World W)
        → (conclude os attempt feature reason operation_id owner w).0 ≡ true
        → WrittenBy owner (conclude os attempt feature reason operation_id owner w).1
    unfolding conclude now
    conclude-WrittenBy owner w h =
        let (time, s) = os.now w.os in
        (
          w.db,
          time,
          persist_transition-Ended (cancellation attempt feature owner reason operation_id time)
              w.db h,
        )

    queued_step :
        (w : World W)
        → already_cancelled attempt.id w.db ≡ false
        → is_queued attempt.status ≡ true
        → cancel_queued os attempt feature reason operation_id w
          ≡ answering os cancelled_outcome (conclude os attempt feature reason operation_id human w)
    unfolding cancel_queued
    queued_step w fresh waiting = rw (fresh, waiting, cancel_queued)

    cancel_queued-WrittenBy :
        (w : World W)
        → (cancel_queued os attempt feature reason operation_id w).0 ≡ returned cancelled_outcome
        → WrittenBy human (cancel_queued os attempt feature reason operation_id w).1
    unfolding cancel_queued
    cancel_queued-WrittenBy w h =
        let fresh : already_cancelled attempt.id w.db ≡ false = ground arith in
        let waiting : is_queued attempt.status ≡ true = ground arith in
        let r = conclude os attempt feature reason operation_id human w in
        let step = queued_step w fresh waiting in
        let done =
          answered_done r (ap (λ (q : Answer CancelOutcome × World W). q.0) (sym step) ∙ h) in
        subst (λ (v : World W). WrittenBy human v)
          (sym (
            ap (λ (q : Answer CancelOutcome × World W). q.1) step
            ∙ answered_world cancelled_outcome r))
          (conclude-WrittenBy human w done)

    module _ (redact : ℕ → ℕ) (replaced grace kill_grace : ℕ) (handle : RunHandle) where
      abbrev checked : RunningCheck → World W → Answer CancelOutcome × World W
      checked =
          cancel_checked os attempt feature reason operation_id redact replaced grace kill_grace
            handle

      abbrev stopping : World W → Bool × World W
      stopping =
          stop_and_record os attempt feature reason operation_id redact replaced grace kill_grace
            handle

      module _ (pid start : ℕ) (w : World W) where
        abbrev looked : World W
        looked = record w { os = (os.verify_identity pid start w.os).1 }
