-- ===== src/Queue/Laws.antt =====
-- The limits that a claim keeps.
use mathlib.Core.Path.{subst}
use autopilot_console.Prelude.{
  ℕ, ◌+◌, ◌==◌, ==_iff, ◌≡◌, refl, sym, ◌∙◌, ap, ◌≤◌, ◌<◌, Option, some, none, Bool, false, ◌&&◌,
  arith, inl, inr, ◌⊎◌, Bool-cases, Option-cases, any, update_where, List, [], ◌∷◌, find,
  count_where, filter_where, leb,
}
use autopilot_console.Store.Rows.{Db, DevelopmentAttemptRow, is_active}
use autopilot_console.Store.Tx.{Reply, replied}
use autopilot_console.Queue.{
  is_registered, is_active_in, is_candidate, oldest, is_target, start, start_attempt, active_count,
  claim_next_attempt,
}

-- The primary key of the attempts.
abbrev pub UniqueIds : List DevelopmentAttemptRow → Type 0
UniqueIds rows = (id : ℕ) → count_where (λ (a : DevelopmentAttemptRow). a.id == id) rows ≤ 1

-- The rule that each project has one active attempt at most.
abbrev pub OneActivePerProject : List DevelopmentAttemptRow → Type 0
OneActivePerProject rows = (project_id : ℕ) → count_where (is_active_in project_id) rows ≤ 1

target_count-le :
    (id : ℕ) (xs : List DevelopmentAttemptRow)
    → count_where (is_target id) xs ≤ count_where (λ (a : DevelopmentAttemptRow). a.id == id) xs
unfolding is_target
target_count-le id [] = omega arith
target_count-le id (x ∷ xs) = ground (arith, target_count-le id xs)

count_of_find :
    (id : ℕ) (xs : List DevelopmentAttemptRow) {a : DevelopmentAttemptRow}
    → find (is_target id) xs ≡ some a
    → 1 ≤ count_where (is_target id) xs
count_of_find id [] h = absurd (ground arith)
count_of_find id (x ∷ xs) {a} h = ground (arith, count_of_find id xs {a = a})

module _ (registration now lease_expires id : ℕ) where
  -- Each updated row was queued and is active: the count grows by their number.
  active_after :
      (xs : List DevelopmentAttemptRow)
      → count_where
          (λ (a : DevelopmentAttemptRow). is_active a.status)
          (update_where (is_target id) (start registration now lease_expires) xs)
        ≡ count_where (λ (a : DevelopmentAttemptRow). is_active a.status) xs
          + count_where (is_target id) xs
  unfolding is_target
  active_after [] = refl
  active_after (x ∷ xs) = ground (arith, active_after xs)

  project_after :
      (p : ℕ) (xs : List DevelopmentAttemptRow)
      → count_where
          (is_active_in p)
          (update_where (is_target id) (start registration now lease_expires) xs)
        ≡ count_where (is_active_in p) xs
          + count_where (λ (a : DevelopmentAttemptRow). is_target id a && a.project_id == p) xs
  unfolding is_target
  project_after p [] = refl
  project_after p (x ∷ xs) = ground (arith, project_after p xs)

none_active :
    (p : ℕ) (xs : List DevelopmentAttemptRow)
    → any (is_active_in p) xs ≡ false
    → count_where (is_active_in p) xs ≡ 0
none_active p [] h = refl
none_active p (x ∷ xs) h = ground (arith, none_active p xs)

-- Targets of a project are targets; with one target, another project has none.
project_targets-le :
    (id p : ℕ) (xs : List DevelopmentAttemptRow)
    → count_where (λ (a : DevelopmentAttemptRow). is_target id a && a.project_id == p) xs
      ≤ count_where (is_target id) xs
project_targets-le id p [] = omega arith
project_targets-le id p (x ∷ xs) = ground (arith, project_targets-le id p xs)

no_target :
    (id p : ℕ) (xs : List DevelopmentAttemptRow)
    → count_where (is_target id) xs ≡ 0
    → count_where (λ (a : DevelopmentAttemptRow). is_target id a && a.project_id == p) xs ≡ 0
no_target id p xs h = omega (arith, project_targets-le id p xs)

other_project_targets :
    (id p : ℕ) (xs : List DevelopmentAttemptRow) {a : DevelopmentAttemptRow}
    → find (is_target id) xs ≡ some a
    → (a.project_id == p) ≡ false
    → count_where (is_target id) xs ≤ 1
    → count_where (λ (b : DevelopmentAttemptRow). is_target id b && b.project_id == p) xs ≡ 0
other_project_targets id p [] h e one = refl
other_project_targets id p (x ∷ xs) {a} h e one =
    ground (arith, other_project_targets id p xs {a = a}, no_target id p xs)

module _ (registration now lease_expires : ℕ) (target : DevelopmentAttemptRow) (db : Db)
    (reply : Reply (Option DevelopmentAttemptRow)) (db' : Db)
    (ran : start_attempt registration now lease_expires target db ≡ (reply, db')) where
  -- An update that hits nothing, or that the index refuses, writes nothing.
  pub started_cases :
      ((db' ≡ db) × ((row : DevelopmentAttemptRow) → reply ≡ replied (some row) → ⊥))
      ⊎ ((row : DevelopmentAttemptRow) × (find (is_target target.id) db.attempts ≡ some row)
          × (any (is_active_in row.project_id) db.attempts ≡ false)
          × (reply ≡ replied (some (start registration now lease_expires row)))
          × (db'.attempts
              ≡ update_where
                  (is_target target.id)
                  (start registration now lease_expires)
                  db.attempts))
  unfolding start_attempt
  started_cases = elim (Option-cases (find (is_target target.id) db.attempts)) [
    | inl gone ↦ inl (ground arith, λ row e. ground arith)
    | inr (row, found) ↦ elim (Bool-cases (any (is_active_in row.project_id) db.attempts)) [
      | inl busy ↦ inl (ground arith, λ row' e. ground arith)
      | inr free ↦ inr (row, found, free, ground arith, ground arith)
    ]
  ]

  module _ (keys : UniqueIds db.attempts) where
    one_target : count_where (is_target target.id) db.attempts ≤ 1
    one_target = omega (arith, keys target.id, target_count-le target.id db.attempts)

    started-OneActive : OneActivePerProject db.attempts → OneActivePerProject db'.attempts
    started-OneActive held p = elim started_cases [
      | inl (same, _) ↦
          subst (λ (d : Db). count_where (is_active_in p) d.attempts ≤ 1) (sym same) (held p)
      | inr (row, found, free, _, after) ↦
          subst (λ rows. count_where (is_active_in p) rows ≤ 1) (sym after)
            (rw (project_after registration now lease_expires target.id p db.attempts)
              (elim (Bool-cases (row.project_id == p)) [
                | inl mine ↦
                    let idle = none_active row.project_id db.attempts free in
                    let same = (==_iff row.project_id p).0 mine in
                    let idle_p : count_where (is_active_in p) db.attempts ≡ 0 =
                      subst (λ q. count_where (is_active_in q) db.attempts ≡ 0) same idle in
                    omega (arith, idle_p, one_target, project_targets-le target.id p db.attempts)
                | inr other ↦ omega (
                  arith,
                  held p,
                  other_project_targets target.id p db.attempts {a = row} found other one_target,
                )
              ]))
    ]

    started_counts :
        (row : DevelopmentAttemptRow)
        → reply ≡ replied (some row)
        → active_count db' ≡ active_count db + 1
    started_counts row e = elim started_cases [
      | inl (_, refused) ↦ absurd (refused row e)
      | inr (row', found, _, _, after) ↦
          ap (count_where (λ (a : DevelopmentAttemptRow). is_active a.status)) after
          ∙ active_after registration now lease_expires target.id db.attempts
          ∙ omega (arith, one_target, count_of_find target.id db.attempts {a = row'} found)
    ]

    started_unless : ((row : DevelopmentAttemptRow) → reply ≡ replied (some row) → ⊥) → db' ≡ db
    started_unless refused = elim started_cases [
      | inl (same, _) ↦ same
      | inr (row, _, _, e, _) ↦ absurd (refused _ e)
    ]

module _ (max_concurrent lease_duration : ℕ) (others : Db → Db)
    (locked : DevelopmentAttemptRow → Bool) (now worker_id : ℕ) (db : Db)
    (reply : Reply (Option DevelopmentAttemptRow)) (db' : Db)
    (ran : claim_next_attempt max_concurrent lease_duration others locked now worker_id db
      ≡ (reply, db')) where
  -- Either there is nothing to claim, or the oldest candidate is started below the limit.
  pub claim_cases :
      ((db' ≡ db) × (reply ≡ replied none))
      ⊎ ((target : DevelopmentAttemptRow) × (registration : ℕ) × (oldest
              (filter_where (is_candidate locked db) db.attempts)
            ≡ some target)
          × (active_count db < max_concurrent)
          × (start_attempt registration now (now + lease_duration) target (others db)
              ≡ (reply, db')))
  unfolding claim_next_attempt
  claim_cases = elim (Option-cases (find (is_registered worker_id) db.workers)) [
    | inl unknown ↦ inl (ground arith, ground arith)
    | inr (worker, known) ↦ elim (Bool-cases (leb max_concurrent (active_count db))) [
      | inl full ↦ inl (ground arith, ground arith)
      | inr room ↦
          elim (Option-cases (oldest (filter_where (is_candidate locked db) db.attempts))) [
            | inl idle ↦ inl (ground arith, ground arith)
            | inr (target, chosen) ↦ inr (target, worker.id, chosen, ground arith, ground arith)
          ]
    ]
  ]

-- Whatever other sessions commit while a worker claims: if each project had one active attempt at
-- most, before and as they left it, that still holds after the claim.
pub claim_keeps :
    (max_concurrent lease_duration : ℕ) (others : Db → Db) (locked : DevelopmentAttemptRow → Bool)
    (now worker_id : ℕ) (db : Db) (reply : Reply (Option DevelopmentAttemptRow)) (db' : Db)
    → claim_next_attempt max_concurrent lease_duration others locked now worker_id db ≡ (reply, db')
    → UniqueIds (others db).attempts
    → OneActivePerProject db.attempts
    → OneActivePerProject (others db).attempts
    → OneActivePerProject db'.attempts
claim_keeps m l others locked now worker_id db reply db' ran keys held left =
    elim (claim_cases m l others locked now worker_id db reply db' ran) [
      | inl (same, _) ↦ subst (λ (d : Db). OneActivePerProject d.attempts) (sym same) held
      | inr (target, registration, _, _, started) ↦
          started-OneActive registration now (now + l) target (others db) reply db' started keys
            left
    ]

-- Without interference the number of active attempts never passes the limit.
pub claim_limit :
    (max_concurrent lease_duration : ℕ) (locked : DevelopmentAttemptRow → Bool) (now worker_id : ℕ)
    (db : Db) (reply : Reply (Option DevelopmentAttemptRow)) (db' : Db)
    → claim_next_attempt max_concurrent lease_duration (λ d. d) locked now worker_id db
      ≡ (reply, db')
    → UniqueIds db.attempts
    → active_count db ≤ max_concurrent
    → active_count db' ≤ max_concurrent
claim_limit m l locked now worker_id db reply db' ran keys below =
    elim (claim_cases m l (λ d. d) locked now worker_id db reply db' ran) [
      | inl (same, _) ↦ subst (λ d. active_count d ≤ m) (sym same) below
      | inr (target, registration, _, room, started) ↦
          elim (started_cases registration now (now + l) target db reply db' started) [
            | inl (same, _) ↦ subst (λ d. active_count d ≤ m) (sym same) below
            | inr (row, _, _, e, _) ↦ omega (
              arith,
              started_counts registration now (now + l) target db reply db' started keys _ e,
            )
          ]
    ]

-- With interference the limit is checked against the old count: a claim adds one to however many
-- attempts the other sessions have made active in between, even if that is the limit already.
pub claim_counts :
    (max_concurrent lease_duration : ℕ) (others : Db → Db) (locked : DevelopmentAttemptRow → Bool)
    (now worker_id : ℕ) (db : Db) (row : DevelopmentAttemptRow) (db' : Db)
    → claim_next_attempt max_concurrent lease_duration others locked now worker_id db
      ≡ (replied (some row), db')
    → UniqueIds (others db).attempts
    → (active_count db < max_concurrent) × (active_count db' ≡ active_count (others db) + 1)
claim_counts m l others locked now worker_id db row db' ran keys =
    elim (claim_cases m l others locked now worker_id db (replied (some row)) db' ran) [
      | inl (_, e) ↦ absurd (ground arith)
      | inr (target, registration, _, room, started) ↦ (
        room,
        started_counts registration now (now + l) target (others db) (replied (some row)) db'
            started keys row refl,
      )
    ]
