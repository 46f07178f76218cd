-- ===== src/Queue/Fifo.antt =====
-- The order of claims.
use mathlib.Core.Path.{subst}
use autopilot_console.Prelude.{
  any, and_true, ℕ, ◌+◌, ==_iff, ◌≡◌, refl, ◌∙◌, ap, Option, some, none, Bool, true, false, ◌&&◌,
  arith, inl, inr, Bool-cases, Option-cases, List, [], ◌∷◌, find_passes, filter_where, ◌<◌, ◌⊎◌,
  Member, here, there, any_of_Member,
}
use autopilot_console.Store.Rows.{Db, DevelopmentAttemptRow, running}
use autopilot_console.Store.Tx.{Reply, replied}
use autopilot_console.Queue.{is_candidate, before, oldest, claim_next_attempt, is_target, start}
use autopilot_console.Queue.Laws.{claim_cases, started_cases}

before_trans_not :
    (x y z : DevelopmentAttemptRow) → before x y ≡ false → before y z ≡ false → before x z ≡ false
unfolding before
before_trans_not x y z h k = ground arith

before_asym : (x y : DevelopmentAttemptRow) → before x y ≡ true → before y x ≡ false
unfolding before
before_asym x y h = ground arith

before_irrefl : (x : DevelopmentAttemptRow) → before x x ≡ false
unfolding before
before_irrefl x = ground arith

-- Some item that passes comes before `y`.
abbrev pub any_before :
    (DevelopmentAttemptRow → Bool) → DevelopmentAttemptRow → List DevelopmentAttemptRow → Bool
any_before p y = any (λ x. p x && before x y)

module _ (p : DevelopmentAttemptRow → Bool) where
  -- What has nothing before it bounds whatever it does not come before.
  any_before_weaken :
      (y z : DevelopmentAttemptRow) (xs : List DevelopmentAttemptRow)
      → before y z ≡ false
      → any_before p y xs ≡ false
      → any_before p z xs ≡ false
  any_before_weaken y z [] h k = refl
  any_before_weaken y z (x ∷ xs) h k =
      ground (arith, any_before_weaken y z xs h, before_trans_not x y z)

  oldest-none :
      (y : DevelopmentAttemptRow) (xs : List DevelopmentAttemptRow)
      → oldest (filter_where p xs) ≡ none
      → any_before p y xs ≡ false
  unfolding oldest
  oldest-none y [] h = refl
  oldest-none y (x ∷ xs) h = ground (arith, oldest-none y xs)

  -- The choice among the items that pass: it passes, and none that passes comes before it.
  pub oldest_least :
      (xs : List DevelopmentAttemptRow) (y : DevelopmentAttemptRow)
      → oldest (filter_where p xs) ≡ some y
      → (p y ≡ true) × (any_before p y xs ≡ false)
  unfolding oldest
  oldest_least [] y h = absurd (ground arith)
  oldest_least (x ∷ xs) y h = elim (Bool-cases (p x)) [
    | inr passed ↦ ground (arith, oldest_least xs y)
    | inl kept ↦ elim (Option-cases (oldest (filter_where p xs))) [
      | inl rest ↦ ground (arith, oldest-none y xs rest, before_irrefl x)
      | inr (z, rest) ↦ elim (Bool-cases (before z x)) [
        | inl sooner ↦ ground (arith, oldest_least xs z rest, before_asym z x sooner)
        | inr later ↦ ground (
          arith,
          oldest_least xs z rest,
          before_irrefl x,
          any_before_weaken z x xs later (oldest_least xs z rest).1,
        )
      ]
    ]
  ]

-- Enqueued earlier, or at the same time with a smaller id.
abbrev pub SoonerThan : DevelopmentAttemptRow → DevelopmentAttemptRow → Type 0
SoonerThan x y = (x.enqueued_at < y.enqueued_at) ⊎ ((x.enqueued_at ≡ y.enqueued_at) × (x.id < y.id))

SoonerThan-before : (x y : DevelopmentAttemptRow) → SoonerThan x y → before x y ≡ true
unfolding before
SoonerThan-before x y h = ground arith

none_sooner :
    (p : DevelopmentAttemptRow → Bool) (y : DevelopmentAttemptRow) (xs : List DevelopmentAttemptRow)
    → any_before p y xs ≡ false
    → (x : DevelopmentAttemptRow) → Member x xs
    → p x ≡ true
    → SoonerThan x y
    → ⊥
none_sooner p y xs least x m passes sooner =
    let first = SoonerThan-before x y sooner in
    let found = any_of_Member (λ z. p z && before z y) m (rw (passes, first)) in ground arith

-- What is chosen is in the list.
pub oldest-Member :
    (p : DevelopmentAttemptRow → Bool) (xs : List DevelopmentAttemptRow) (y : DevelopmentAttemptRow)
    → oldest (filter_where p xs) ≡ some y
    → Member y xs
unfolding oldest
oldest-Member p [] y h = absurd (ground arith)
oldest-Member p (x ∷ xs) y h = elim (Bool-cases (p x)) [
  | inr passed ↦ there (oldest-Member p xs y (ground arith))
  | inl kept ↦ elim (Option-cases (oldest (filter_where p xs))) [
    | inl rest ↦ subst (λ z. Member z (x ∷ xs)) (ground arith) here
    | inr (z, rest) ↦ elim (Bool-cases (before z x)) [
      | inl sooner ↦
          subst (λ w. Member w (x ∷ xs)) (ground arith) (there (oldest-Member p xs z rest))
      | inr later ↦ subst (λ w. Member w (x ∷ xs)) (ground arith) here
    ]
  ]
]

started_row :
    (a b : DevelopmentAttemptRow)
    → ◌≡◌ {A = Reply (Option DevelopmentAttemptRow)} (replied (some a)) (replied (some b))
    → a ≡ b
started_row a b e = cc

-- A claim takes an attempt of the table, as the claiming worker saw it, that is queued, not locked,
-- and of a project with nothing active, and no other such attempt was enqueued before it, or at the
-- same time with a smaller id. The claimed row has the id of that attempt, is running, and is leased
-- from now.
pub claim_fifo :
    (max_concurrent lease_duration : ℕ) (others : Db → Db) (locked : DevelopmentAttemptRow → Bool)
    (now worker_id : ℕ) (db : Db) (row : DevelopmentAttemptRow) (db' : Db)
    → claim_next_attempt max_concurrent lease_duration others locked now worker_id db
      ≡ (replied (some row), db')
    → (target : DevelopmentAttemptRow) × (row.id ≡ target.id)
      × (is_candidate locked db target ≡ true)
      × Member target db.attempts
      × ((other : DevelopmentAttemptRow)
          → Member other db.attempts
          → is_candidate locked db other ≡ true
          → SoonerThan other target
          → ⊥)
      × (row.status ≡ running)
      × (row.lease_expires_at ≡ some (now + lease_duration))
unfolding is_target
claim_fifo m l others locked now worker_id db row db' ran =
    elim (claim_cases m l others locked now worker_id db (replied (some row)) db' ran) [
      | inl (_, e) ↦ absurd (ground arith)
      | inr (target, registration, chosen, _, started) ↦
          elim (started_cases registration now (now + l) target (others db) (replied (some row)) db'
            started) [
              | inl (_, refused) ↦ absurd (refused row refl)
              | inr (row', found, _, e, _) ↦
                  let (passes, least) =
                    oldest_least (is_candidate locked db) db.attempts target chosen in
                  let hit =
                    find_passes (is_target target.id) (others db).attempts {a = row'} found in
                  let same = started_row row (start registration now (now + l) row') e in
                  (
                    target,
                    ap (λ (r : DevelopmentAttemptRow). r.id) same
                        ∙ (==_iff _ _).0 (and_true _ _ hit).0,
                    passes,
                    oldest-Member (is_candidate locked db) db.attempts target chosen,
                    none_sooner (is_candidate locked db) target db.attempts least,
                    ap (λ (r : DevelopmentAttemptRow). r.status) same,
                    ap (λ (r : DevelopmentAttemptRow). r.lease_expires_at) same,
                  )
            ]
    ]
