-- ===== src/Lifecycle/Legal.antt =====
-- The abstract life of a feature, and the updates of the table of features that keep to it.
use mathlib.Core.Path.{subst}
use autopilot_console.Prelude.{
  ℕ, ◌+◌, ◌==◌, ==_iff, ◌≡◌, refl, sym, ◌∙◌, ap, some, Bool, true, and_true, List, Bool-cases, inl,
  inr, find, update_where, find-update_where,
}
use autopilot_console.Feature.State.{FeatureState}
use autopilot_console.Feature.Names.{same_state_iff}
use autopilot_console.Feature.Transition.{TransitionOwner, AppliedFeatureTransition}
use autopilot_console.Feature.Machine.Table.{Allowed}
use autopilot_console.Store.Rows.{FeatureRow}
use autopilot_console.Task.Approval.Approve.{unchanged_since, move_feature}

-- From a state and version along the table, one version to a transition.
pub data Walks (s : FeatureState) (v : ℕ) : FeatureState → ℕ → Type 0 where
  stays : Walks s v s v
  goes :
      {t u : FeatureState} {w : ℕ} {owner : TransitionOwner}
      → Walks s v t w
      → Allowed t u owner
      → Walks s v u (w + 1)

pub Walks-trans :
    {s t : FeatureState} {v w : ℕ} {u : FeatureState} {x : ℕ}
    → Walks s v t w
    → Walks t w u x
    → Walks s v u x
Walks-trans a stays = a
Walks-trans a (goes b edge) = goes (Walks-trans a b) edge

-- The features are as they were, or those that an allowed transition starts from are moved by it.
pub data Legal (before after : List FeatureRow) : Type 0 where
  untouched : after ≡ before → Legal before after
  moves :
      (t : AppliedFeatureTransition)
      → Allowed t.prior_state t.next_state t.owner
      → t.next_version ≡ t.prior_version + 1
      → after ≡ update_where (unchanged_since t) (move_feature t) before
      → Legal before after

abbrev pub with_id : ℕ → FeatureRow → Bool
with_id id r = r.id == id

-- What else names the feature stays.
pub record SameFeature (r r' : FeatureRow) : Type 0 where
  pub id : r'.id ≡ r.id
  pub project_id : r'.project_id ≡ r.project_id
  pub release_id : r'.release_id ≡ r.release_id
  pub slug : r'.slug ≡ r.slug
  pub branch_name : r'.branch_name ≡ r.branch_name
  pub task_path : r'.task_path ≡ r.task_path

pub SameFeature-refl : (r : FeatureRow) → SameFeature r r
SameFeature-refl r = record {
  id = refl;
  project_id = refl;
  release_id = refl;
  slug = refl;
  branch_name = refl;
  task_path = refl;
}

pub SameFeature-trans : (r s t : FeatureRow) → SameFeature r s → SameFeature s t → SameFeature r t
SameFeature-trans r s t a b = record {
  id = b.id ∙ a.id;
  project_id = b.project_id ∙ a.project_id;
  release_id = b.release_id ∙ a.release_id;
  slug = b.slug ∙ a.slug;
  branch_name = b.branch_name ∙ a.branch_name;
  task_path = b.task_path ∙ a.task_path;
}

-- A row whose feature has walked on.
abbrev pub Later : ℕ → FeatureRow → List FeatureRow → Type 0
Later id r after =
    (r' : FeatureRow) × (find (with_id id) after ≡ some r')
    × Walks r.state r.row_version r'.state r'.row_version
    × SameFeature r r'

moved_Walks :
    (t : AppliedFeatureTransition) (r : FeatureRow)
    → Allowed t.prior_state t.next_state t.owner
    → t.next_version ≡ t.prior_version + 1
    → unchanged_since t r ≡ true
    → Walks r.state r.row_version (move_feature t r).state (move_feature t r).row_version
unfolding unchanged_since move_feature
moved_Walks t r permitted next h =
    let (id, rest) = and_true _ _ h in
    let (state, version) = and_true _ _ rest in
    let from = (same_state_iff _ _).0 state in
    let at = (==_iff _ _).0 version in
    subst (λ v. Walks r.state r.row_version t.next_state v) (sym (next ∙ ap (λ n. n + 1) (sym at)))
      (goes stays (subst (λ s. Allowed s t.next_state t.owner) (sym from) permitted))

move_SameFeature :
    (t : AppliedFeatureTransition) (r : FeatureRow) → SameFeature r (move_feature t r)
unfolding move_feature
move_SameFeature t r = record {
  id = refl;
  project_id = refl;
  release_id = refl;
  slug = refl;
  branch_name = refl;
  task_path = refl;
}

keeps_id :
    (t : AppliedFeatureTransition) (id : ℕ) (r : FeatureRow)
    → with_id id (move_feature t r) ≡ with_id id r
unfolding move_feature
keeps_id t id r = refl

pub Legal-Later :
    (before after : List FeatureRow) (id : ℕ) (r : FeatureRow)
    → Legal before after
    → find (with_id id) before ≡ some r
    → Later id r after
Legal-Later before after id r (untouched same) h =
    (r, ap (find (with_id id)) same ∙ h, stays, SameFeature-refl r)
Legal-Later before after id r (moves t permitted next e) h =
    let found =
      ap (find (with_id id)) e
      ∙ find-update_where (with_id id) (unchanged_since t) (move_feature t) before {a = r}
          (keeps_id t id) h in
    elim (Bool-cases (unchanged_since t r)) [
      | inl hit ↦ (
        move_feature t r,
        found ∙ rw hit,
        moved_Walks t r permitted next hit,
        move_SameFeature t r,
      )
      | inr miss ↦ (r, found ∙ rw miss, stays, SameFeature-refl r)
    ]
