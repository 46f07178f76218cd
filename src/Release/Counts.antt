-- ===== src/Release/Counts.antt =====
-- What the loop over the features of a release counts.
use autopilot_console.Prelude.{
  suc, ◌+◌, ◌≡◌, ◌≤◌, Bool, false, not, ◌&&◌, ◌||◌, if◌then◌else◌, List, [], ◌∷◌, arith,
  count_where, any, and_true,
}
use autopilot_console.Prelude.{count_where_le}
use autopilot_console.Release.{
  FeatureForProgress, is_merged, is_planned, Tally, tally_feature, tally_from, tally,
}

abbrev pub counts : FeatureForProgress → Bool
counts f = not f.archived

abbrev pub counts_merged : FeatureForProgress → Bool
counts_merged f = not f.archived && is_merged f.state

abbrev pub counts_started : FeatureForProgress → Bool
counts_started f = not f.archived && (not (is_merged f.state) && not (is_planned f.state))

-- A round adds what it counts.
tally_feature-counts :
    (t : Tally) (f : FeatureForProgress)
    → ((tally_feature t f).total ≡ (if counts f then suc t.total else t.total))
      × ((tally_feature t f).merged ≡ (if counts_merged f then suc t.merged else t.merged))
      × ((tally_feature t f).any_non_planned ≡ (t.any_non_planned || counts_started f))
unfolding tally_feature
tally_feature-counts t f = ground arith

-- The loop counts, from any start.
tally_from-counts :
    (t : Tally) (fs : List FeatureForProgress)
    → ((tally_from t fs).total ≡ t.total + count_where counts fs)
      × ((tally_from t fs).merged ≡ t.merged + count_where counts_merged fs)
      × ((tally_from t fs).any_non_planned ≡ (t.any_non_planned || any counts_started fs))
unfolding tally_from
tally_from-counts t [] = ground arith
tally_from-counts t (f ∷ fs) =
    let (total, merged, started) = tally_from-counts (tally_feature t f) fs in
    let (one_total, one_merged, one_started) = tally_feature-counts t f in
    (ground arith, ground arith, ground arith)

pub tally-counts :
    (fs : List FeatureForProgress)
    → ((tally fs).total ≡ count_where counts fs)
      × ((tally fs).merged ≡ count_where counts_merged fs)
      × ((tally fs).any_non_planned ≡ any counts_started fs)
unfolding tally
tally-counts fs =
    let (total, merged, started) =
      tally_from-counts (record { total = 0; merged = 0; any_non_planned = false }) fs in
    (ground arith, ground arith, ground arith)

pub merged_le_total :
    (fs : List FeatureForProgress) → count_where counts_merged fs ≤ count_where counts fs
merged_le_total fs = count_where_le counts_merged counts fs (λ f h. (and_true _ _ h).0)
