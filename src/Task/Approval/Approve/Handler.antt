-- ===== src/Task/Approval/Approve/Handler.antt =====
-- Approve & Queue as its caller sees it, whatever other sessions commit between its checks and its
-- transaction.
use mathlib.Core.Path.{subst}
use autopilot_console.Prelude.{
  ◌≡◌, refl, sym, Option, some, none, true, false, arith, inl, inr, ◌⊎◌, String, Option-cases,
}
use autopilot_console.Store.Rows.{Db, FeatureRow, ProjectRow}
use autopilot_console.Store.Tx.{
  Reply, replied, threw, done, raised, with_transaction, Fault, Outcome, unique_violation,
  other_error,
}
use autopilot_console.Store.Repositories.{get_feature_by_id, get_project_by_id}
use autopilot_console.Task.Approval.{
  ServiceResult, ok, ParsedTask, other_project, given_path, is_tasks_review,
}
use autopilot_console.Feature.State.{FeatureState, tasks_review}
use autopilot_console.Task.Approval.Approve.{
  ApproveInput, Approved, ApproveOutcome, error, approved, approve_body,
}
use autopilot_console.Task.Approval.Approve.Entry.{
  approve_and_queue, approve_checked, ApproveCheck, check_approve, check_feature, answer, proceed,
  approve_reply, recover_approve,
}
use autopilot_console.Task.Approval.Approve.Safety.{Created, locked_cases, Commits-Created}

module _ (read_task : String → String → Option ParsedTask) (input : ApproveInput) (db : Db) where
  -- The checks let a file through only if its checksum is the displayed one.
  check_feature-displayed :
      (current : Option FeatureRow) (parsed : ParsedTask)
      → check_feature read_task input current db ≡ proceed parsed
      → input.displayed_checksum ≡ parsed.checksum
  unfolding check_feature
  check_feature-displayed none parsed h = cc
  check_feature-displayed (some row) parsed h = ground arith

  check_feature-ne-ok :
      (current : Option FeatureRow) (a : Approved)
      → check_feature read_task input current db ≡ answer (ok a)
      → ⊥
  unfolding check_feature
  check_feature-ne-ok none a h = cc
  check_feature-ne-ok (some row) a h = ground arith

  check_approve-displayed :
      (parsed : ParsedTask)
      → check_approve read_task input db ≡ proceed parsed
      → input.displayed_checksum ≡ parsed.checksum
  unfolding check_approve
  check_approve-displayed parsed h =
      ground (arith, check_feature-displayed (get_feature_by_id input.feature_id db) parsed)

  check_approve-replay :
      (a : Approved) → check_approve read_task input db ≡ answer (ok a) → a.idempotent ≡ true
  unfolding check_approve
  check_approve-replay a h =
      ground (arith, check_feature-ne-ok (get_feature_by_id input.feature_id db) a)

module _ (read_task : String → String → Option ParsedTask) (input : ApproveInput)
    (parsed : ParsedTask) (displayed : input.displayed_checksum ≡ parsed.checksum) (seen : Db) where
  -- The caller's reply and database, by what the transaction did.
  pub data Answered (reply : Reply (ServiceResult Approved)) (db' : Db) : Type 0 where
    unchanged :
        db' ≡ seen
        → ((a : Approved) → reply ≡ replied (ok a) → a.idempotent ≡ true)
        → Answered reply db'
    created :
        (a : Approved)
        → reply ≡ replied (ok a)
        → a.idempotent ≡ false
        → Created input seen a db'
        → Answered reply db'

  recover_approve-replay :
      (e : Fault) (a : Approved)
      → recover_approve input e seen ≡ replied (ok a)
      → a.idempotent ≡ true
  unfolding recover_approve
  recover_approve-replay other_error a h = cc
  recover_approve-replay unique_violation a h = ground arith

  answered :
      (o : Outcome ApproveOutcome) (reply : Reply (ServiceResult Approved)) (db' : Db)
      → approve_body input parsed seen ≡ o
      → approve_reply input (elim o [ done a d ↦ (replied a, d) | raised e ↦ (threw e, seen) ])
        ≡ (reply, db')
      → Answered reply db'
  unfolding approve_body approve_reply
  answered (raised e) reply db' ran h =
      unchanged (ground arith) (λ a r. recover_approve-replay e a (ground arith))
  answered (done (error why) d) reply db' ran h =
      elim (locked_cases input parsed _ _ seen (error why) d refl ran) [
        | inl (_, e, same) ↦ unchanged (ground arith) (λ a r. ground arith)
        | inr (inl (a, e, replay, same)) ↦ absurd (ground arith)
        | inr (inr (row, found, c)) ↦ let e = c.recorded_in.answered in absurd (ground arith)
      ]
  answered (done (approved a) d) reply db' ran h =
      elim (locked_cases input parsed _ _ seen (approved a) d refl ran) [
        | inl (_, e, same) ↦ absurd (ground arith)
        | inr (inl (a', e, replay, same)) ↦ unchanged (ground arith) (λ a'' r. ground arith)
        | inr (inr commits) ↦
            let made = Commits-Created input parsed seen a d displayed commits in
            created a (ground arith) made.new
              (subst (λ x. Created input seen a x) (ground arith) made)
      ]

module _ (read_task : String → String → Option ParsedTask) (others : Db → Db) (input : ApproveInput)
    (db : Db) (reply : Reply (ServiceResult Approved)) (db' : Db) where
  abbrev Replays : Type 0
  Replays = (a : Approved) → reply ≡ replied (ok a) → a.idempotent ≡ true

  -- Either the checks answer, or the transaction ran.
  approve_cases :
      (c : ApproveCheck)
      → check_approve read_task input db ≡ c
      → approve_checked others input db c ≡ (reply, db')
      → (Replays × (db' ≡ db))
        ⊎ ((parsed : ParsedTask) × (displayed : input.displayed_checksum ≡ parsed.checksum)
            × (check_approve read_task input db ≡ proceed parsed)
            × Answered read_task input parsed displayed (others db) reply db')
  unfolding with_transaction approve_checked
  approve_cases (answer result) checked h =
      inl (λ a r. check_approve-replay read_task input db a (ground arith), ground arith)
  approve_cases (proceed parsed) checked h =
      let displayed = check_approve-displayed read_task input db parsed checked in
      inr (
        parsed,
        displayed,
        checked,
        answered read_task input parsed displayed (others db)
            (approve_body input parsed (others db)) reply db' refl h,
      )

ok_injective : {a b : Approved} → replied (ok a) ≡ replied (ok b) → a ≡ b
ok_injective e = cc

-- The file that the checks read: at the path that the feature had then, with the displayed checksum.
pub record Checked (read_task : String → String → Option ParsedTask) (input : ApproveInput)
    (db : Db) : Type 0 where
  pub row : FeatureRow
  pub project : ProjectRow
  pub path : String
  pub file : ParsedTask
  pub found : get_feature_by_id input.feature_id db ≡ some row
  pub in_project : other_project input.project_id row ≡ false
  pub in_review : row.state ≡ tasks_review
  pub has_task : given_path row.task_path ≡ some path
  pub project_found : get_project_by_id row.project_id db ≡ some project
  pub file_read : read_task project.canonical_path path ≡ some file
  pub displayed : input.displayed_checksum ≡ file.checksum

review_eq : (s : FeatureState) → is_tasks_review s ≡ true → s ≡ tasks_review
review_eq s h = ground arith

module _ (read_task : String → String → Option ParsedTask) (input : ApproveInput) (db : Db)
    (parsed : ParsedTask) where
  check_feature-Checked :
      (current : Option FeatureRow)
      → get_feature_by_id input.feature_id db ≡ current
      → check_feature read_task input current db ≡ proceed parsed
      → Checked read_task input db
  unfolding check_feature
  check_feature-Checked none found h = cc
  check_feature-Checked (some row) found h =
      let mine : other_project input.project_id row ≡ false = ground arith in
      let review : is_tasks_review row.state ≡ true = ground arith in
      elim (Option-cases (given_path row.task_path)) [
        | inl e ↦ absurd (ground arith)
        | inr (path, has_task) ↦ elim (Option-cases (get_project_by_id row.project_id db)) [
          | inl e ↦ absurd (ground arith)
          | inr (project, at) ↦ elim (Option-cases (read_task project.canonical_path path)) [
            | inl e ↦ absurd (ground arith)
            | inr (file, got) ↦ record {
              row = row;
              project = project;
              path = path;
              file = file;
              found = found;
              in_project = mine;
              in_review = review_eq row.state review;
              has_task = has_task;
              project_found = at;
              file_read = got;
              displayed = ground arith;
            }
          ]
        ]
      ]

  check_approve-Checked :
      check_approve read_task input db ≡ proceed parsed → Checked read_task input db
  unfolding check_approve
  check_approve-Checked h =
      check_feature-Checked (get_feature_by_id input.feature_id db) refl (ground arith)

-- Whatever other sessions commit in between: a reply that reports a new attempt means that the
-- feature was in review in the caller's project when the checks ran and when the transaction ran; that
-- the file at the path that it had at the checks had the displayed checksum; that the transaction
-- queued it one version on and added one approval, of the displayed checksum and of the path that the
-- feature then had, and one queued attempt for that approval; and that the answer is stored under the
-- operation key.
pub approve-Created :
    (read_task : String → String → Option ParsedTask) (others : Db → Db) (input : ApproveInput)
    (db : Db) (a : Approved) (db' : Db)
    → approve_and_queue read_task others input db ≡ (replied (ok a), db')
    → a.idempotent ≡ false
    → Checked read_task input db × Created input (others db) a db'
unfolding approve_and_queue
approve-Created read_task others input db a db' h new =
    elim (approve_cases read_task others input db _ db' _ refl h) [
      | inl (replays, _) ↦ cc (replays a refl)
      | inr (parsed, displayed, checked, unchanged _ replays) ↦ cc (replays a refl)
      | inr (parsed, displayed, checked, created a' same _ made) ↦ (
        check_approve-Checked read_task input db parsed checked,
        subst (λ x. Created input (others db) x db') (sym (ok_injective same)) made,
      )
    ]

-- A reply of Approve & Queue that reports no new attempt, be it an error or an answer from a stored
-- result, leaves the database as this call found it or as the other sessions left it.
pub approve_unchanged :
    (read_task : String → String → Option ParsedTask) (others : Db → Db) (input : ApproveInput)
    (db : Db) (reply : Reply (ServiceResult Approved)) (db' : Db)
    → approve_and_queue read_task others input db ≡ (reply, db')
    → ((a : Approved) → reply ≡ replied (ok a) → a.idempotent ≡ true)
    → (db' ≡ db) ⊎ (db' ≡ others db)
unfolding approve_and_queue
approve_unchanged read_task others input db reply db' h replay =
    elim (approve_cases read_task others input db reply db' _ refl h) [
      | inl (_, same) ↦ inl same
      | inr (parsed, displayed, checked, unchanged same _) ↦ inr same
      | inr (parsed, displayed, checked, created a r new _) ↦ cc (replay a r)
    ]
