-- ===== src/Queue/Guard.antt =====
-- What the choice of a candidate guards: one active attempt for each project.
use mathlib.Core.Path.{subst}
use autopilot_console.Prelude.{
  ℕ, ◌+◌, ◌==◌, ==_iff, ◌≡◌, ◌≢◌, refl, sym, ◌∙◌, ap, ◌≤◌, Option, some, none, Bool, true, false,
  arith, inl, inr, Bool-cases, any, List, [], ◌∷◌, find, Member, here, there, count_where,
  count_where_pos, any_of_Member,
}
use autopilot_console.Store.Rows.{Db, DevelopmentAttemptRow, JobAttemptStatus, is_active}
use autopilot_console.Store.Tx.{Reply, replied, threw, Fault}
use autopilot_console.Queue.{
  is_queued, is_active_in, is_candidate, is_target, start, start_attempt, claim_next_attempt,
}
use autopilot_console.Queue.Laws.{UniqueIds, OneActivePerProject, claim_cases, claim_keeps}
use autopilot_console.Queue.Fifo.{claim_fifo, oldest_least, oldest-Member}

-- An attempt that may be started: it waits, nobody holds it, and no attempt of its project is active.
pub record Startable (locked : DevelopmentAttemptRow → Bool) (db : Db) (a : DevelopmentAttemptRow)
    : Type 0 where
  pub stored : Member a db.attempts
  pub waits : a.status ≡ JobAttemptStatus.queued
  pub unlocked : locked a ≡ false
  pub idle :
      (other : DevelopmentAttemptRow)
      → Member other db.attempts
      → other.project_id ≡ a.project_id
      → is_active other.status ≡ false

queued_eq : (s : JobAttemptStatus) → is_queued s ≡ true → s ≡ JobAttemptStatus.queued
queued_eq s h = ground arith

not_any :
    (p : DevelopmentAttemptRow → Bool) {x : DevelopmentAttemptRow} {xs : List DevelopmentAttemptRow}
    → any p xs ≡ false
    → Member x xs
    → p x ≡ false
not_any p {x = x} h m = elim (Bool-cases (p x)) [
  | inr e ↦ e
  | inl e ↦ let found = any_of_Member p m e in cc
]

candidate_parts :
    (locked : DevelopmentAttemptRow → Bool) (db : Db) (a : DevelopmentAttemptRow)
    → is_candidate locked db a ≡ true
    → (is_queued a.status ≡ true)
      × (any (is_active_in a.project_id) db.attempts ≡ false)
      × (locked a ≡ false)
unfolding is_candidate
candidate_parts locked db a h = (ground arith, ground arith, ground arith)

candidate-Startable :
    (locked : DevelopmentAttemptRow → Bool) (db : Db) (a : DevelopmentAttemptRow)
    → Member a db.attempts
    → is_candidate locked db a ≡ true
    → Startable locked db a
candidate-Startable locked db a m h =
    let (waits, idle, unlocked) = candidate_parts locked db a h in
    record {
      stored = m;
      waits = queued_eq a.status waits;
      unlocked = unlocked;
      idle = λ other n same.
          let passive = not_any (is_active_in a.project_id) idle n in
          let project = (==_iff other.project_id a.project_id).1 same in ground arith;
    }

-- With unique ids the update finds the candidate itself.
find_target :
    (t : DevelopmentAttemptRow) (xs : List DevelopmentAttemptRow)
    → Member t xs
    → is_queued t.status ≡ true
    → count_where (λ (a : DevelopmentAttemptRow). a.id == t.id) xs ≤ 1
    → find (is_target t.id) xs ≡ some t
unfolding is_target
find_target t [] m waits one = elim m [ ]
find_target t (x ∷ xs) here waits one = let self = (==_iff t.id t.id).1 refl in ground arith
find_target t (x ∷ xs) (there m) waits one =
    let self = (==_iff t.id t.id).1 refl in
    let more = count_where_pos (λ (a : DevelopmentAttemptRow). a.id == t.id) m self in
    let rest = find_target t xs m waits in ground arith

-- An undisturbed update of a candidate is not refused by the index.
start_candidate :
    (registration now lease_expires : ℕ) (target : DevelopmentAttemptRow) (db : Db)
    → find (is_target target.id) db.attempts ≡ some target
    → any (is_active_in target.project_id) db.attempts ≡ false
    → (start_attempt registration now lease_expires target db).0
      ≡ replied (some (start registration now lease_expires target))
unfolding start_attempt
start_candidate registration now lease_expires target db found free =
    rw (found, free, start_attempt)

refused_not : (e : Fault) (r : Option DevelopmentAttemptRow) → threw e ≢ replied r
refused_not e r h = cc

module _ (max_concurrent lease_duration : ℕ) (others : Db → Db)
    (locked : DevelopmentAttemptRow → Bool) (now worker_id : ℕ) (db : Db)
    (reply : Reply (Option DevelopmentAttemptRow)) (db' : Db)
    (ran : claim_next_attempt max_concurrent lease_duration others locked now worker_id db
      ≡ (reply, db')) where
  claimed-Startable :
      (row : DevelopmentAttemptRow)
      → reply ≡ replied (some row)
      → (target : DevelopmentAttemptRow) × (row.id ≡ target.id) × Startable locked db target
  claimed-Startable row e =
      let (target, id, passes, m, _, _, _) =
        claim_fifo max_concurrent lease_duration others locked now worker_id db row db'
          (ran ∙ ap (λ r. (r, db')) e) in
      (target, id, candidate-Startable locked db target m passes)

  undisturbed : UniqueIds (others db).attempts → others db ≡ db → (e : Fault) → reply ≢ threw e
  undisturbed keys same e bad =
      elim (claim_cases max_concurrent lease_duration others locked now worker_id db reply db'
        ran) [
          | inl (_, idle) ↦ refused_not e none (sym bad ∙ idle)
          | inr (target, registration, chosen, _, started) ↦
              let (passes, _) = oldest_least (is_candidate locked db) db.attempts target chosen in
              let m = oldest-Member (is_candidate locked db) db.attempts target chosen in
              let (waits, free, _) = candidate_parts locked db target passes in
              let one = subst (λ (d : Db). UniqueIds d.attempts) same keys target.id in
              let found = find_target target db.attempts m waits one in
              let answer =
                start_candidate registration now (now + lease_duration) target db found free in
              let run =
                subst
                  (λ (d : Db).
                    start_attempt registration now (now + lease_duration) target d ≡ (reply, db'))
                  same started in
              refused_not e (some (start registration now (now + lease_duration) target)) (
                sym bad
                ∙ sym (ap (λ (r : Reply (Option DevelopmentAttemptRow) × Db). r.0) run)
                ∙ answer)
        ]

-- Whatever other sessions commit while a worker claims: if each project had one active attempt at
-- most, before and as they left it, that still holds after the claim. What is claimed was, as the
-- worker saw the table, a waiting attempt that nobody held, of a project with nothing active; and if
-- the other sessions changed nothing, the claim is never refused by the unique index.
pub claim-OneActivePerProject :
    (max_concurrent lease_duration : ℕ) (others : Db → Db) (locked : DevelopmentAttemptRow → Bool)
    (now worker_id : ℕ) (db : Db) (reply : Reply (Option DevelopmentAttemptRow)) (db' : Db)
    → claim_next_attempt max_concurrent lease_duration others locked now worker_id db ≡ (reply, db')
    → UniqueIds (others db).attempts
    → OneActivePerProject db.attempts
    → OneActivePerProject (others db).attempts
    → OneActivePerProject db'.attempts
      × ((row : DevelopmentAttemptRow)
          → reply ≡ replied (some row)
          → (target : DevelopmentAttemptRow) × (row.id ≡ target.id) × Startable locked db target)
      × (others db ≡ db → (e : Fault) → reply ≢ threw e)
claim-OneActivePerProject m l others locked now worker_id db reply db' ran keys held left = (
  claim_keeps m l others locked now worker_id db reply db' ran keys held left,
  claimed-Startable m l others locked now worker_id db reply db' ran,
  undisturbed m l others locked now worker_id db reply db' ran keys,
)
