-- ===== src/Github/Handoff/Repeat.antt =====
-- A completed handoff is not done again.
use mathlib.Core.Path.{subst}
use autopilot_console.Prelude.{
  ℕ, ◌==◌, ==_iff, ==_refl, ◌≡◌, refl, sym, ◌∙◌, ap, Option, some, none, List, [], ◌∷◌, ◌++◌,
  find_passes, arith, Bool-cases, Option-cases, inl, inr,
}
use autopilot_console.Feature.State.{pr_creating, ci_running}
use autopilot_console.Feature.Transition.{github_adapter}
use autopilot_console.Store.Rows.{Db, DevelopmentAttemptRow}
use autopilot_console.Store.Repositories.{get_development_attempt}
use autopilot_console.Github.Store.{TransitionRequest}
use autopilot_console.Github.Handoff.Store.{
  PullRequestIdentity, HandoffOutcome, completed, idle, Hub, HandoffWorld, HandoffAnswer, answered,
  HandoffContext, load_context, stored_outcome, note, audit, transition, record_result,
}
use autopilot_console.Github.Handoff.Worker.{finish, begin_loaded, handoff}
use autopilot_console.Github.Handoff.Steps.{
  Keeps, HasAttempt, transition_attempts, note_attempts, audit_attempts, Ends, leaves, throws,
  fails, finishes,
}
use autopilot_console.Github.Handoff.Begun.{begin-Ends}
use autopilot_console.Github.Handoff.Completed.{
  other_answer, threw_answer, outcome_eq, fail-ne-completed, finish_number, stored_step, fresh_step,
}

stored_last :
    (key : ℕ) (o : HandoffOutcome) (xs : List (ℕ × HandoffOutcome))
    → stored_outcome key xs ≡ none
    → stored_outcome key (xs ++ (key, o) ∷ []) ≡ some o
unfolding stored_outcome
stored_last key o [] h = rw (==_refl key)
stored_last key o ((k, x) ∷ xs) h = elim (Bool-cases (k == key)) [
  | inl same ↦ absurd (ground arith)
  | inr other ↦ let rest = stored_last key o xs (ground arith) in rw (other, rest)
]

load_context-attempt :
    (id : ℕ) (db : Db) (ctx : HandoffContext)
    → load_context id db ≡ some ctx
    → get_development_attempt id db ≡ some ctx.attempt
unfolding load_context
load_context-attempt id db ctx h = ground arith

found_id :
    (id : ℕ) (db : Db) (a : DevelopmentAttemptRow)
    → get_development_attempt id db ≡ some a
    → a.id ≡ id
unfolding get_development_attempt
found_id id db a h =
    (==_iff a.id id).0
      (find_passes (λ (r : DevelopmentAttemptRow). r.id == id) db.attempts {a = a} h)

module _ {G : Type 0} (hub : Hub G) (ctx : HandoffContext) where
  record_result_stored :
      (id : ℕ) (o : HandoffOutcome) (w : HandoffWorld G)
      → HasAttempt id w.db
      → stored_outcome id w.results ≡ none
      → stored_outcome id (record_result hub id o w).results ≡ some o
  unfolding record_result
  record_result_stored id o w (a, found) fresh =
      rw (found, fresh, record_result) (stored_last id o w.results fresh)

  finish_stored :
      (identity : PullRequestIdentity) (w : HandoffWorld G)
      → Keeps hub ctx.attempt.id
      → HasAttempt ctx.attempt.id w.db
      → stored_outcome ctx.attempt.id w.results ≡ none
      → stored_outcome ctx.attempt.id (finish hub ctx identity w).1.results
        ≡ some (completed identity.number)
  unfolding finish note audit transition
  finish_stored identity w keeps has fresh =
      let request : TransitionRequest = record {
        from = pr_creating;
        to = ci_running;
        owner = github_adapter;
        operation_id = 21;
      } in
      let w1 = (transition hub ctx.feature.id request w).1 in
      let w2 = note hub ctx (some ctx.attempt.id) "pr.created" w1 in
      record_result_stored ctx.attempt.id (completed identity.number)
        (audit hub ctx "pr.created" w2)
        (audit_attempts hub ctx "pr.created" w2 ctx.attempt.id (
          note_attempts hub ctx (some ctx.attempt.id) "pr.created" w1 ctx.attempt.id
            (transition_attempts hub ctx.attempt.id ctx.feature.id request w keeps has)))
        fresh

module _ {G : Type 0} (hub : Hub G) (attempt_id : ℕ) (w : HandoffWorld G)
    (keeps : Keeps hub attempt_id) where
  abbrev Stores : ℕ → HandoffWorld G → Type 0
  Stores n w' = stored_outcome attempt_id w'.results ≡ some (completed n)

  Ends-Stores :
      (ctx : HandoffContext) (r : HandoffAnswer × HandoffWorld G) (n : ℕ)
      → ctx.attempt.id ≡ attempt_id
      → HasAttempt attempt_id w.db
      → stored_outcome attempt_id w.results ≡ none
      → Ends hub ctx w r
      → r.0 ≡ answered (completed n)
      → Stores n r.1
  Ends-Stores ctx r n mine has fresh (leaves w1 t e) h =
      absurd (
        other_answer idle n (λ k. cc)
          (ap (λ (q : HandoffAnswer × HandoffWorld G). q.0) (sym e) ∙ h))
  Ends-Stores ctx r n mine has fresh (throws w1 t e) h =
      absurd (threw_answer n (ap (λ (q : HandoffAnswer × HandoffWorld G). q.0) (sym e) ∙ h))
  Ends-Stores ctx r n mine has fresh (fails why w1 t e) h = absurd (
      fail-ne-completed hub ctx why w1 n
        (ap (λ (q : HandoffAnswer × HandoffWorld G). q.0) (sym e) ∙ h))
  Ends-Stores ctx r n mine has fresh (finishes identity w1 t stored e) h =
      let number =
        finish_number hub ctx identity w1 n
          (ap (λ (q : HandoffAnswer × HandoffWorld G). q.0) (sym e) ∙ h) in
      let Q = λ (id : ℕ).
        Keeps hub id
        → HasAttempt id w1.db
        → stored_outcome id w1.results ≡ none
        → stored_outcome id (finish hub ctx identity w1).1.results
          ≡ some (completed identity.number) in
      let at_end =
        subst Q mine (finish_stored hub ctx identity w1) keeps (t.kept attempt_id keeps has)
          (ap (stored_outcome attempt_id) t.results ∙ fresh) in
      ap (λ (q : HandoffAnswer × HandoffWorld G). stored_outcome attempt_id q.1.results) e
      ∙ at_end
      ∙ ap (λ (k : ℕ). some (completed k)) number

  loaded-Stores :
      (o : Option HandoffContext) (n : ℕ)
      → load_context attempt_id w.db ≡ o
      → stored_outcome attempt_id w.results ≡ none
      → (begin_loaded hub o w).0 ≡ answered (completed n)
      → Stores n (begin_loaded hub o w).1
  unfolding begin_loaded
  loaded-Stores none n e fresh h = absurd (other_answer idle n (λ k. cc) h)
  loaded-Stores (some ctx) n e fresh h =
      let found = load_context-attempt attempt_id w.db ctx e in
      Ends-Stores ctx _ n (found_id attempt_id w.db ctx.attempt found) (ctx.attempt, found) fresh
        (begin-Ends hub ctx ctx.feature.state w) h

  handoff-Stores :
      (n : ℕ)
      → (handoff hub attempt_id w).0 ≡ answered (completed n)
      → Stores n (handoff hub attempt_id w).1
  handoff-Stores n h = elim (Option-cases (stored_outcome attempt_id w.results)) [
    | inr (o, e) ↦
        let step = stored_step hub attempt_id w o e in
        subst (λ (q : HandoffAnswer × HandoffWorld G). Stores n q.1) (sym step)
          (e
            ∙ ap some
                (outcome_eq o n (ap (λ (q : HandoffAnswer × HandoffWorld G). q.0) (sym step) ∙ h)))
    | inl fresh ↦
        let step = fresh_step hub attempt_id w fresh in
        subst (λ (q : HandoffAnswer × HandoffWorld G). Stores n q.1) (sym step)
          (loaded-Stores (load_context attempt_id w.db) n refl fresh
            (ap (λ (q : HandoffAnswer × HandoffWorld G). q.0) (sym step) ∙ h))
  ]

-- Where no other session deletes the attempt, a handoff that has answered with a pull request answers
-- the same when it is repeated, and does nothing more: no call to Git or GitHub, and no write.
pub handoff_again :
    {G : Type 0} (hub : Hub G) (attempt_id : ℕ) (w : HandoffWorld G)
    → Keeps hub attempt_id
    → (n : ℕ) → (handoff hub attempt_id w).0 ≡ answered (completed n)
    → handoff hub attempt_id (handoff hub attempt_id w).1
      ≡ (answered (completed n), (handoff hub attempt_id w).1)
handoff_again hub attempt_id w keeps n h =
    stored_step hub attempt_id (handoff hub attempt_id w).1 (completed n)
      (handoff-Stores hub attempt_id w keeps n h)
