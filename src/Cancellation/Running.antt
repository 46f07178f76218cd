-- ===== src/Cancellation/Running.antt =====
-- When `cancelRunning` sends signals, and to whom.
use mathlib.Core.Path.{subst}
use mathlib.Core.Logic.{⊎_elim}
use autopilot_console.Prelude.{
  ℕ, ◌==◌, ==_iff, ◌≡◌, refl, ◌∙◌, ap, Option, some, none, Bool, true, false, List, ◌∷◌, ◌++◌,
  arith, Bool-cases, Option-cases, inl, inr, ◌⊎◌,
}
use autopilot_console.Feature.Transition.{
  FeatureTransitionResult, applied, idempotent, rejected, TransitionOwner,
  human_and_process_control,
}
use autopilot_console.Store.Rows.{Db, FeatureRow, DevelopmentAttemptRow, cancel_requested, failed}
use autopilot_console.Store.Repositories.{update_features}
use autopilot_console.Task.Approval.Approve.{unchanged_since, move_feature}
use autopilot_console.Cancellation.World.{
  SignalKind, graceful, Os, World, Answer, verify_identity, now, update_attempt_status,
}
use autopilot_console.Cancellation.Persist.{
  status_only, record_block, block_applied, persist_blocked,
}
use autopilot_console.Cancellation.Controller.{
  CancelOutcome, cancelled_outcome, blocked_outcome, pid_reuse, RunHandle, is_stoppable,
  already_cancelled, RunningCheck, answer, verify, check_process, check_running, and_then,
  stop_process, answering, conclude, request_cancel, refuse_reused, stop_and_record, cancel_checked,
  cancel_running,
}
use autopilot_console.Cancellation.Stopping.{Stopping, then_false, then_true, stop_process-Stopping}

-- What the checks have found before a process is looked at.
pub record Checks (attempt : DevelopmentAttemptRow) (handle : RunHandle) (db : Db) (pid start : ℕ)
    : Type 0 where
  pub not_cancelled : already_cancelled attempt.id db ≡ false
  pub stoppable : is_stoppable attempt.status ≡ true
  pub same_project : handle.project_id ≡ attempt.project_id
  pub same_feature : handle.feature_id ≡ attempt.feature_id
  pub process_pid : attempt.process_pid ≡ some pid
  pub process_start : attempt.process_start_identity ≡ some start

check_process-verify :
    (p s : Option ℕ) (pid start : ℕ)
    → check_process p s ≡ verify pid start
    → (p ≡ some pid) × (s ≡ some start)
unfolding check_process
check_process-verify none s pid start h = cc
check_process-verify (some p) none pid start h = cc
check_process-verify (some p) (some s) pid start h = (cc, cc)

check_running-Checks :
    (attempt : DevelopmentAttemptRow) (handle : RunHandle) (db : Db) (pid start : ℕ)
    → check_running attempt handle db ≡ verify pid start
    → Checks attempt handle db pid start
unfolding check_running
check_running-Checks attempt handle db pid start h =
    let fresh : already_cancelled attempt.id db ≡ false = ground arith in
    let stoppable : is_stoppable attempt.status ≡ true = ground arith in
    let project : (handle.project_id == attempt.project_id) ≡ true = ground arith in
    let feature : (handle.feature_id == attempt.feature_id) ≡ true = ground arith in
    let (pid_of, start_of) =
      check_process-verify attempt.process_pid attempt.process_start_identity pid start
        (ground arith) in
    record {
      not_cancelled = fresh;
      stoppable = stoppable;
      same_project = (==_iff handle.project_id attempt.project_id).0 project;
      same_feature = (==_iff handle.feature_id attempt.feature_id).0 feature;
      process_pid = pid_of;
      process_start = start_of;
    }

module _ {W : Type 0} (os : Os W) where
  and_then_sent :
      (r : Bool × World W) (k : World W → Bool × World W)
      → ((w : World W) → (k w).1.sent ≡ w.sent)
      → (and_then os r k).1.sent ≡ r.1.sent
  unfolding and_then
  and_then_sent (false, w) k h = refl
  and_then_sent (true, w) k h = h w

  answering_world : (o : CancelOutcome) (r : Bool × World W) → (answering os o r).1 ≡ r.1
  answering_world o (false, w) = refl
  answering_world o (true, w) = refl

  module _ (attempt : DevelopmentAttemptRow) (feature : FeatureRow) (reason operation_id : ℕ) where
    conclude_sent :
        (owner : TransitionOwner) (w : World W)
        → (conclude os attempt feature reason operation_id owner w).1.sent ≡ w.sent
    unfolding conclude now
    conclude_sent owner w = refl

    request_cancel_sent :
        (w : World W) → (request_cancel os attempt feature reason operation_id w).1.sent ≡ w.sent
    unfolding request_cancel now
    request_cancel_sent w =
        let (time, w') = now os w in
        elim (Option-cases (
          update_attempt_status attempt.id
            (record (status_only cancel_requested) {
              cancellation_requested_at = some time;
              cancellation_reason = some reason;
            })
            w'.db)) [ inl e ↦ rw (e, request_cancel) | inr (db, e) ↦ rw (e, request_cancel) ]

    -- It reads the clock, and nothing else of the operating system.
    request_cancel_os :
        (w : World W)
        → (request_cancel os attempt feature reason operation_id w).1.os ≡ (os.now w.os).1
    unfolding request_cancel now
    request_cancel_os w =
        let (time, w') = now os w in
        elim (Option-cases (
          update_attempt_status attempt.id
            (record (status_only cancel_requested) {
              cancellation_requested_at = some time;
              cancellation_reason = some reason;
            })
            w'.db)) [ inl e ↦ rw (e, request_cancel) | inr (db, e) ↦ rw (e, request_cancel) ]

  block_applied_sent :
      (redact : ℕ → ℕ) (attempt : DevelopmentAttemptRow) (reason : ℕ) (r : FeatureTransitionResult)
      (time : ℕ) (w : World W)
      → (block_applied redact attempt reason r time w).1.sent ≡ w.sent
  unfolding block_applied record_block
  block_applied_sent redact attempt reason (rejected _ _ _) time w = refl
  block_applied_sent redact attempt reason (idempotent _) time w = refl
  block_applied_sent redact attempt reason (applied t) time w =
      elim (Option-cases (
        update_attempt_status attempt.id (record (status_only failed) { ended_at = some time })
          (update_features (unchanged_since t) (move_feature t) w.db))) [
            | inl e ↦ rw (e, block_applied)
            | inr (db, e) ↦ rw (e, block_applied)
          ]

  module _ (attempt : DevelopmentAttemptRow) (feature : FeatureRow) (reason operation_id : ℕ)
      (redact : ℕ → ℕ) (replaced grace kill_grace : ℕ) (handle : RunHandle) where
    refuse_reused_sent :
        (w : World W)
        → (refuse_reused os attempt feature reason operation_id redact replaced grace kill_grace
            handle w).1.sent
          ≡ w.sent
    unfolding refuse_reused now persist_blocked
    refuse_reused_sent w = block_applied_sent redact attempt replaced _ _ _

    abbrev result : World W → Answer CancelOutcome × World W
    result w =
        cancel_running os attempt feature reason operation_id redact replaced grace kill_grace
          handle w

    -- The polite signal and the rounds after it, to the process of the handle, from a state on.
    abbrev pub Sends : W → World W → World W → Type 0
    Sends s w w' =
        (xs : List (ℕ × SignalKind)) × (w'.sent ≡ w.sent ++ (handle.pid, graceful) ∷ xs)
        × Stopping os grace kill_grace handle.pid handle.start_time_ms s xs

    stop_and_record-Sends :
        (w : World W)
        → ((stop_and_record os attempt feature reason operation_id redact replaced grace kill_grace
              handle w).1.sent
            ≡ w.sent)
          ⊎ Sends
              (os.now w.os).1
              w
              (stop_and_record os attempt feature reason operation_id redact replaced grace
                kill_grace handle w).1
    unfolding stop_and_record
    stop_and_record-Sends w =
        let r = request_cancel os attempt feature reason operation_id w in
        let end = conclude os attempt feature reason operation_id human_and_process_control in
        let k = λ (w1 : World W).
          and_then os (stop_process os grace kill_grace handle.pid handle.start_time_ms w1) end in
        elim (Bool-cases r.0) [
          | inr missing ↦ inl (
              ap (λ (q : Bool × World W). q.1.sent) (then_false os r k missing)
              ∙ request_cancel_sent attempt feature reason operation_id w)
          | inl stored ↦
              let (xs, e, stopping) =
                stop_process-Stopping os handle.pid handle.start_time_ms grace kill_grace r.1 in
              inr (
                xs,
                ap (λ (q : Bool × World W). q.1.sent) (then_true os r k stored)
                    ∙ and_then_sent
                        (stop_process os grace kill_grace handle.pid handle.start_time_ms r.1) end
                        (conclude_sent attempt feature reason operation_id
                          human_and_process_control)
                    ∙ e
                    ∙ ap (λ (ys : List (ℕ × SignalKind)). ys ++ (handle.pid, graceful) ∷ xs)
                        (request_cancel_sent attempt feature reason operation_id w),
                subst (λ (s : W). Stopping os grace kill_grace handle.pid handle.start_time_ms s xs)
                    (request_cancel_os attempt feature reason operation_id w) stopping,
              )
        ]

    -- The process was verified, and the signals begin in the state after that and the clock's reading.
    abbrev pub VerifiedSends : World W → World W → Type 0
    VerifiedSends w w' =
        (pid : ℕ) × (start : ℕ) × Checks attempt handle w.db pid start
        × ((os.verify_identity pid start w.os).0 ≡ true)
        × Sends (os.now (os.verify_identity pid start w.os).1).1 w w'

    verified_step :
        (pid start : ℕ) (w : World W)
        → (os.verify_identity pid start w.os).0 ≡ true
        → (cancel_checked os attempt feature reason operation_id redact replaced grace kill_grace
            handle
            (verify pid start)
            w).1
          ≡ (stop_and_record os attempt feature reason operation_id redact replaced grace kill_grace
              handle
              (record w { os = (os.verify_identity pid start w.os).1 })).1
    unfolding cancel_checked verify_identity
    verified_step pid start w e = rw (e, cancel_checked) (answering_world cancelled_outcome _)

    reused_step :
        (pid start : ℕ) (w : World W)
        → (os.verify_identity pid start w.os).0 ≡ false
        → (cancel_checked os attempt feature reason operation_id redact replaced grace kill_grace
            handle
            (verify pid start)
            w).1
          ≡ (refuse_reused os attempt feature reason operation_id redact replaced grace kill_grace
              handle
              (record w { os = (os.verify_identity pid start w.os).1 })).1
    unfolding cancel_checked verify_identity
    reused_step pid start w e =
        rw (e, cancel_checked) (answering_world (blocked_outcome pid_reuse) _)

    checked-Sends :
        (w : World W) (c : RunningCheck)
        → check_running attempt handle w.db ≡ c
        → ((cancel_checked os attempt feature reason operation_id redact replaced grace kill_grace
              handle c w).1.sent
            ≡ w.sent)
          ⊎ VerifiedSends w
              (cancel_checked os attempt feature reason operation_id redact replaced grace
                kill_grace handle c w).1
    unfolding cancel_checked
    checked-Sends w (answer outcome) h = inl refl
    checked-Sends w (verify pid start) h =
        let w1 = record w { os = (os.verify_identity pid start w.os).1 } in
        elim (Bool-cases (os.verify_identity pid start w.os).0) [
          | inr other ↦
              inl (
                ap (λ (v : World W). v.sent) (reused_step pid start w other)
                ∙ refuse_reused_sent w1)
          | inl same ↦
              let step = ap (λ (v : World W). v.sent) (verified_step pid start w same) in
              ⊎_elim
                {C = ((cancel_checked os attempt feature reason operation_id redact replaced grace
                      kill_grace handle (verify pid start) w).1.sent
                    ≡ w.sent)
                  ⊎ VerifiedSends w
                      (cancel_checked os attempt feature reason operation_id redact replaced grace
                        kill_grace handle (verify pid start) w).1}
                (λ none_sent. inl (step ∙ none_sent))
                (λ sends.
                  let (xs, e, stopping) = sends in
                  inr (
                    pid,
                    start,
                    check_running-Checks attempt handle w.db pid start h,
                    same,
                    (xs, step ∙ e, stopping),
                  ))
                (stop_and_record-Sends w1)
        ]

    -- A cancellation of a running attempt sends no signal, or the process that the attempt records was
    -- verified and is stopped.
    pub cancel_running-Sends :
        (w : World W) → ((result w).1.sent ≡ w.sent) ⊎ VerifiedSends w (result w).1
    unfolding cancel_running
    cancel_running-Sends w = checked-Sends w (check_running attempt handle w.db) refl
