-- ===== src/Store/Tx.antt =====
-- packages/domain/src/shared/transaction.ts: code that runs in a transaction, and its rollback.
use autopilot_console.Prelude.{◌≡◌, refl, Bool, true, false}
use autopilot_console.Store.Rows.{Db}

-- What code in a transaction may raise: a uniqueness error of PostgreSQL (code 23505), or another.
pub data Fault : Type 0 where
  unique_violation other_error : Fault

pub data Outcome (A : Type 0) : Type 0 where
  done : A → Db → Outcome A
  raised : Fault → Outcome A

abbrev pub Tx : Type 0 → Type 0
Tx A = Db → Outcome A

abbrev pub pure : {A : Type 0} → A → Tx A
pure a db = done a db

abbrev pub throw : {A : Type 0} → Fault → Tx A
throw e db = raised e

-- A query inside the transaction.
abbrev pub read : {A : Type 0} → (Db → A) → Tx A
read q db = done (q db) db

-- An update with no result.
abbrev pub write : (Db → Db) → Tx (Unit {0})
write f db = done tt (f db)

infixl 5 ◌>>=◌ ◌>>◌
abbrev pub ◌>>=◌ : {A B : Type 0} → Tx A → (A → Tx B) → Tx B
◌>>=◌ m k db = elim (m db) [ done a db' ↦ k a db' | raised e ↦ raised e ]

abbrev pub ◌>>◌ : {B : Type 0} → Tx (Unit {0}) → Tx B → Tx B
m >> k = m >>= λ _. k

-- What a caller of the transaction sees.
pub data Reply (A : Type 0) : Type 0 where
  replied : A → Reply A
  threw : Fault → Reply A

-- `withTransaction`: a raised error rolls every write back.
unfoldable pub with_transaction : {A : Type 0} → Tx A → Db → Reply A × Db
with_transaction body db = elim (body db) [
  | done a db' ↦ (replied a, db')
  | raised e ↦ (threw e, db)
]

abbrev pub is_unique_violation : Fault → Bool
is_unique_violation unique_violation = true
is_unique_violation other_error = false

-- A step that ran through: the parts of a successful sequence.
pub bind-done :
    {A B : Type 0} (m : Tx A) (k : A → Tx B) (db : Db) {b : B} {db'' : Db}
    → (m >>= k) db ≡ done b db''
    → (a : A) × (db' : Db) × (m db ≡ done a db') × (k a db' ≡ done b db'')
bind-done {A} {B} m k db {b} {db''} h = on (m db) refl h
  where
    on :
        (o : Outcome A)
        → m db ≡ o
        → (elim o [ done a db' ↦ k a db' | raised e ↦ raised e ]) ≡ done b db''
        → (a : A) × (db' : Db) × (m db ≡ done a db') × (k a db' ≡ done b db'')
    on (done a db') e h' = (a, db', e, h')
    on (raised f) e h' = cc
