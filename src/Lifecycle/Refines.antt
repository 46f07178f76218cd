-- ===== src/Lifecycle/Refines.antt =====
-- The writes of the program implement the life of a feature.
use autopilot_console.Prelude.{ℕ, ◌≡◌, some, List, [], ◌∷◌}
use autopilot_console.Store.Rows.{Db, FeatureRow}
use autopilot_console.Store.Repositories.{get_feature_by_id}
use autopilot_console.Lifecycle.Legal.{
  Walks, stays, Walks-trans, SameFeature, SameFeature-refl, SameFeature-trans, Legal-Later,
}
use autopilot_console.Lifecycle.Writes.{Write, execute, execute-Legal}

-- One write after the other, whichever session each is of.
unfoldable pub execute_all : List Write → Db → Db
execute_all [] db = db
execute_all (x ∷ xs) db = execute_all xs (execute x db)

-- The feature is there still, and has walked on along the table.
abbrev pub HasWalked : ℕ → FeatureRow → Db → Type 0
HasWalked id r db' =
    (r' : FeatureRow) × (get_feature_by_id id db' ≡ some r')
    × Walks r.state r.row_version r'.state r'.row_version
    × SameFeature r r'

execute-HasWalked :
    (x : Write) (id : ℕ) (r : FeatureRow) (db : Db)
    → get_feature_by_id id db ≡ some r
    → HasWalked id r (execute x db)
unfolding get_feature_by_id
execute-HasWalked x id r db h =
    Legal-Later db.features (execute x db).features id r (execute-Legal x db) h

-- Whatever moves of the GitHub workers, cancellations, blocks, retries and approvals are committed, in
-- any order and on reads as old as they may be: a feature is never lost, keeps its project, release,
-- branch and task file, and its state and version are where a walk along the table of allowed
-- transitions leads, each transition raising the version by one.
pub execute_all-HasWalked :
    (xs : List Write) (db : Db) (id : ℕ) (r : FeatureRow)
    → get_feature_by_id id db ≡ some r
    → HasWalked id r (execute_all xs db)
unfolding execute_all
execute_all-HasWalked [] db id r h = (r, h, stays, SameFeature-refl r)
execute_all-HasWalked (x ∷ xs) db id r h =
    let (q, found, walk, same) = execute-HasWalked x id r db h in
    let (r', found', walk', same') = execute_all-HasWalked xs (execute x db) id q found in
    (r', found', Walks-trans walk walk', SameFeature-trans r q r' same same')
