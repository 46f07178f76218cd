-- ===== src/Github/Handoff/Completed.antt =====
-- What a completed handoff has done.
use mathlib.Core.Path.{subst}
use autopilot_console.Prelude.{
  ℕ, ◌≡◌, ◌≢◌, refl, sym, ◌∙◌, ap, Option, some, none, List, Member, Option-cases, inl, inr,
}
use autopilot_console.Store.Repositories.{get_development_attempt}
use autopilot_console.Github.Handoff.Store.{
  PullRequestIdentity, PullRequestRow, HandoffFailure, HandoffOutcome, completed, idle, Hub,
  HandoffWorld, HandoffAnswer, answered, threw, HandoffContext, load_context, stored_outcome, note,
  audit, transition, fail, record_result,
}
use autopilot_console.Github.Handoff.Worker.{finish, begin_loaded, handoff}
use autopilot_console.Github.Handoff.Steps.{AsksOnce, Ends, leaves, throws, fails, finishes}
use autopilot_console.Github.Handoff.Begun.{begin-Ends}

-- What `finish` stores beside its answer.
module _ {G : Type 0} (hub : Hub G) (ctx : HandoffContext) where
  record_result_same :
      (id : ℕ) (o : HandoffOutcome) (w : HandoffWorld G)
      → ((record_result hub id o w).pull_requests ≡ w.pull_requests)
        × ((record_result hub id o w).requested ≡ w.requested)
  unfolding record_result
  record_result_same id o w = elim (Option-cases (get_development_attempt id w.db)) [
    | inl e ↦ rw (e, record_result) (refl, refl)
    | inr (attempt, e) ↦ elim (Option-cases (stored_outcome id w.results)) [
      | inl n ↦ rw (e, n, record_result) (refl, refl)
      | inr (old, n) ↦ rw (e, n, record_result) (refl, refl)
    ]
  ]

  finish_same :
      (identity : PullRequestIdentity) (w : HandoffWorld G)
      → ((finish hub ctx identity w).1.pull_requests ≡ w.pull_requests)
        × ((finish hub ctx identity w).1.requested ≡ w.requested)
  unfolding finish note audit transition
  finish_same identity w = record_result_same ctx.attempt.id (completed identity.number) _

  pub fail-ne-completed :
      (why : HandoffFailure) (w : HandoffWorld G) (n : ℕ)
      → (fail hub ctx why w).0 ≢ answered (completed n)
  unfolding fail
  fail-ne-completed why w n h = cc

  pub finish_number :
      (identity : PullRequestIdentity) (w : HandoffWorld G) (n : ℕ)
      → (finish hub ctx identity w).0 ≡ answered (completed n)
      → identity.number ≡ n
  unfolding finish
  finish_number identity w n h = cc

pub other_answer :
    (o : HandoffOutcome) (n : ℕ) → o ≢ completed n → answered o ≢ answered (completed n)
other_answer o n ne h = ne cc

pub outcome_eq :
    (o : HandoffOutcome) (n : ℕ) → answered o ≡ answered (completed n) → o ≡ completed n
outcome_eq o n h = cc

pub threw_answer : (n : ℕ) → threw ≢ answered (completed n)
threw_answer n h = cc

module _ {G : Type 0} (hub : Hub G) (attempt_id : ℕ) (w : HandoffWorld G) where
  -- A handoff that ran: the pull request with the number is stored for the feature of the attempt.
  abbrev pub Completes : ℕ → HandoffWorld G → Type 0
  Completes n w' =
      (ctx : HandoffContext) × (load_context attempt_id w.db ≡ some ctx)
      × (row : PullRequestRow) × Member row w'.pull_requests
      × (row.feature_id ≡ ctx.feature.id)
      × (row.identity.number ≡ n)
      × AsksOnce hub ctx w w'

  pub fresh_step :
      stored_outcome attempt_id w.results ≡ none
      → handoff hub attempt_id w ≡ begin_loaded hub (load_context attempt_id w.db) w
  unfolding handoff
  fresh_step e = rw (e, handoff)

  pub stored_step :
      (o : HandoffOutcome)
      → stored_outcome attempt_id w.results ≡ some o
      → handoff hub attempt_id w ≡ (answered o, w)
  unfolding handoff
  stored_step o e = rw (e, handoff)

  asks_at :
      (ctx : HandoffContext) (w1 w2 : HandoffWorld G)
      → w2.requested ≡ w1.requested
      → AsksOnce hub ctx w w1
      → AsksOnce hub ctx w w2
  asks_at ctx w1 w2 same (inl none_asked) = inl (same ∙ none_asked)
  asks_at ctx w1 w2 same (inr (asked, s, gone)) = inr (same ∙ asked, s, gone)

  Ends-Completes :
      (ctx : HandoffContext) (r : HandoffAnswer × HandoffWorld G) (n : ℕ)
      → load_context attempt_id w.db ≡ some ctx
      → Ends hub ctx w r
      → r.0 ≡ answered (completed n)
      → Completes n r.1
  Ends-Completes ctx r n found (leaves w1 t e) h =
      absurd (
        other_answer idle n (λ k. cc)
          (ap (λ (q : HandoffAnswer × HandoffWorld G). q.0) (sym e) ∙ h))
  Ends-Completes ctx r n found (throws w1 t e) h =
      absurd (threw_answer n (ap (λ (q : HandoffAnswer × HandoffWorld G). q.0) (sym e) ∙ h))
  Ends-Completes ctx r n found (fails why w1 t e) h = absurd (
      fail-ne-completed hub ctx why w1 n
        (ap (λ (q : HandoffAnswer × HandoffWorld G). q.0) (sym e) ∙ h))
  Ends-Completes ctx r n found (finishes identity w1 t stored e) h =
      let (row, m, feature, same) = stored in
      let (rows, requested) = finish_same hub ctx identity w1 in
      let number =
        finish_number hub ctx identity w1 n
          (ap (λ (q : HandoffAnswer × HandoffWorld G). q.0) (sym e) ∙ h) in
      let world = ap (λ (q : HandoffAnswer × HandoffWorld G). q.1) e in
      (
        ctx,
        found,
        row,
        subst (λ (rs : List PullRequestRow). Member row rs)
            (sym (ap (λ (v : HandoffWorld G). v.pull_requests) world ∙ rows)) m,
        feature,
        ap (λ (i : PullRequestIdentity). i.number) same ∙ number,
        asks_at ctx w1 r.1 (ap (λ (v : HandoffWorld G). v.requested) world ∙ requested) t.asks,
      )

  loaded-Completes :
      (o : Option HandoffContext) (n : ℕ)
      → load_context attempt_id w.db ≡ o
      → (begin_loaded hub o w).0 ≡ answered (completed n)
      → Completes n (begin_loaded hub o w).1
  unfolding begin_loaded
  loaded-Completes none n e h = absurd (other_answer idle n (λ k. cc) h)
  loaded-Completes (some ctx) n e h =
      Ends-Completes ctx _ n e (begin-Ends hub ctx ctx.feature.state w) h

  -- A handoff of an attempt with no stored outcome that answers with a pull request has the attempt, its
  -- project, feature and approval, and has stored a pull request of that number for the feature; it has
  -- asked GitHub to create one at most once, and only after a search that found none.
  pub handoff-Completes :
      (n : ℕ)
      → stored_outcome attempt_id w.results ≡ none
      → (handoff hub attempt_id w).0 ≡ answered (completed n)
      → Completes n (handoff hub attempt_id w).1
  handoff-Completes n fresh h =
      subst (λ (q : HandoffAnswer × HandoffWorld G). Completes n q.1) (sym (fresh_step fresh))
        (loaded-Completes (load_context attempt_id w.db) n refl
          (ap (λ (q : HandoffAnswer × HandoffWorld G). q.0) (sym (fresh_step fresh)) ∙ h))
