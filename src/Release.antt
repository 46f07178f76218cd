-- ===== src/Release.antt =====
-- packages/domain/src/release/development-progress.ts: the development progress of a release.
-- The arithmetic of JavaScript's numbers, in which quotient and percentage are computed, is an argument.
pub mod Counts
pub mod Progress
mod Tests
use autopilot_console.Prelude.{
  ℕ, ◌+◌, ◌*◌, ◌==◌, ◌≡◌, ◌≤◌, ◌<◌, Bool, true, false, not, ◌&&◌, ◌||◌, if◌then◌else◌, List, [],
  ◌∷◌,
}
use autopilot_console.Feature.State.{FeatureState, planned, development_merged}

pub data ReleaseDevelopmentStatus : Type 0 where
  planned_release in_development merged_release : ReleaseDevelopmentStatus

pub record FeatureForProgress : Type 0 where
  pub id : ℕ
  pub state : FeatureState
  pub archived : Bool

-- JavaScript's numbers: `/`, `*`, `<=` and `Math.floor` on IEEE 754 doubles. The laws hold by correct
-- rounding, for counts below the 2^32 items that an array can have: quotients and products grow with
-- their first operand, n / n is 1, and small products and floors are exact.
pub record Floats : Type 1 where
  pub Number : Type 0
  pub of_count : ℕ → Number
  pub divide : Number → Number → Number
  pub times : Number → Number → Number
  pub floor : Number → ℕ
  pub AtMost : Number → Number → Type 0
  pub divide_mono :
      (m n total : ℕ)
      → m ≤ n
      → 0 < total
      → AtMost (divide (of_count m) (of_count total)) (divide (of_count n) (of_count total))
  pub divide_self : (n : ℕ) → 0 < n → divide (of_count n) (of_count n) ≡ of_count 1
  pub times_mono :
      (a b : Number) (n : ℕ) → AtMost a b → AtMost (times a (of_count n)) (times b (of_count n))
  pub times_exact : (m n : ℕ) → m * n ≤ 100 → times (of_count m) (of_count n) ≡ of_count (m * n)
  pub floor_mono : (a b : Number) → AtMost a b → floor a ≤ floor b
  pub floor_exact : (n : ℕ) → n ≤ 100 → floor (of_count n) ≡ n

abbrev pub is_merged : FeatureState → Bool
is_merged development_merged = true
is_merged _ = false

abbrev pub is_planned : FeatureState → Bool
is_planned planned = true
is_planned _ = false

-- The three variables of the loop.
pub record Tally : Type 0 where
  pub total : ℕ
  pub merged : ℕ
  pub any_non_planned : Bool

-- One round: an archived feature is passed over.
unfoldable pub tally_feature : Tally → FeatureForProgress → Tally
tally_feature t f =
    if f.archived
    then t
    else if is_merged f.state
    then record t { total = t.total + 1; merged = t.merged + 1 }
    else if not (is_planned f.state)
    then record t { total = t.total + 1; any_non_planned = true }
    else record t { total = t.total + 1 }

unfoldable pub tally_from : Tally → List FeatureForProgress → Tally
tally_from t [] = t
tally_from t (f ∷ fs) = tally_from (tally_feature t f) fs

unfoldable pub tally : List FeatureForProgress → Tally
tally fs = tally_from (record { total = 0; merged = 0; any_non_planned = false }) fs

unfoldable pub status_of : Tally → ReleaseDevelopmentStatus
status_of t =
    if t.total == 0 || t.merged == 0 && not t.any_non_planned
    then planned_release
    else if t.merged == t.total
    then merged_release
    else in_development

module _ (floats : Floats) where
  open floats use {Number, of_count, divide, times, floor}

  -- `label` is a constant.
  pub record DevelopmentProgress : Type 0 where
    pub total : ℕ
    pub merged : ℕ
    pub ratio : Number
    pub percent : ℕ
    pub status : ReleaseDevelopmentStatus

  unfoldable pub compute_development_progress : List FeatureForProgress → DevelopmentProgress
  compute_development_progress features =
      let t = tally features in
      let ratio =
        if t.total == 0 then of_count 0 else divide (of_count t.merged) (of_count t.total) in
      record {
        total = t.total;
        merged = t.merged;
        ratio = ratio;
        percent = floor (times ratio (of_count 100));
        status = status_of t;
      }
