-- ===== src/Release/Progress.antt =====
-- What the progress of a release says about its features.
use autopilot_console.Prelude.{
  ℕ, ◌*◌, ◌==◌, ◌≡◌, refl, ap, ◌∙◌, ◌≤◌, ◌<◌, ◌↔◌, true, false, if◌then◌else◌, List, arith,
  Bool-cases, inl, inr, ◌⊎◌, count_where, any, and_true, any_of_Member, Member,
}
use autopilot_console.Feature.State.{FeatureState, planned, development_merged}
use autopilot_console.Prelude.{
  count_where_zero, count_where_none, any_none, count_where_same, count_where_all, count_where_some,
  count_where_pos,
}
use autopilot_console.Release.{
  planned_release, merged_release, FeatureForProgress, Floats, is_merged, is_planned, Tally, tally,
  status_of, compute_development_progress,
}
use autopilot_console.Release.Counts.{
  counts, counts_merged, counts_started, tally-counts, merged_le_total,
}

abbrev pub IsMergedRelease : List FeatureForProgress → Type 0
IsMergedRelease fs =
    ((f : FeatureForProgress) × Member f fs × (f.archived ≡ false))
    × ((f : FeatureForProgress) → Member f fs → f.archived ≡ false → f.state ≡ development_merged)

abbrev pub IsPlannedRelease : List FeatureForProgress → Type 0
IsPlannedRelease fs =
    (f : FeatureForProgress) → Member f fs → f.archived ≡ false → f.state ≡ planned

is_merged_eq : (s : FeatureState) → is_merged s ≡ true → s ≡ development_merged
is_merged_eq s h = ground arith

is_planned_eq : (s : FeatureState) → is_planned s ≡ true → s ≡ planned
is_planned_eq s h = ground arith

-- The status computed from the loop's three variables.
status_of_merged :
    (t : Tally)
    → t.merged ≤ t.total
    → (status_of t ≡ merged_release) ↔ ((0 < t.total) × (t.merged ≡ t.total))
unfolding status_of
status_of_merged t le = ground arith

status_of_planned :
    (t : Tally)
    → t.merged ≤ t.total
    → (status_of t ≡ planned_release)
      ↔ ((t.merged ≡ 0) × ((t.total ≡ 0) ⊎ (t.any_non_planned ≡ false)))
unfolding status_of
status_of_planned t le = ground arith

counts_merged_of :
    (f : FeatureForProgress)
    → counts f ≡ true
    → (f.archived ≡ false → f.state ≡ development_merged)
    → counts_merged f ≡ true
counts_merged_of f live merged = ground arith

planned_or_counted :
    (f : FeatureForProgress)
    → f.archived ≡ false
    → (f.state ≡ planned) ⊎ (counts_merged f ≡ true) ⊎ (counts_started f ≡ true)
planned_or_counted f live = ground arith

planned_uncounted :
    (f : FeatureForProgress)
    → (f.archived ≡ false → f.state ≡ planned)
    → (counts_merged f ≡ false) × (counts_started f ≡ false)
planned_uncounted f h = ground arith

not_started :
    (fs : List FeatureForProgress) {f : FeatureForProgress}
    → Member f fs
    → f.archived ≡ false
    → (count_where counts fs ≡ 0) ⊎ (any counts_started fs ≡ false)
    → counts_started f ≡ false
not_started fs m live (inl none_counted) =
    let uncounted = count_where_zero counts m none_counted in ground arith
not_started fs {f = f} m live (inr none_started) = elim (Bool-cases (counts_started f)) [
  | inl started ↦ let found = any_of_Member counts_started m started in ground arith
  | inr unstarted ↦ unstarted
]

status_merged_iff :
    (fs : List FeatureForProgress) → (status_of (tally fs) ≡ merged_release) ↔ IsMergedRelease fs
status_merged_iff fs =
    let (total, merged, started) = tally-counts fs in
    let le = merged_le_total fs in
    let (to, from) = status_of_merged (tally fs) (ground arith) in
    (
      (λ h.
          let (positive, same) = to h in
          let (f, m, counted) = count_where_some counts fs (ground arith) in
          (
            (f, m, ground arith),
            λ g member live.
                is_merged_eq g.state
                  (and_true _ _ (
                    count_where_same counts_merged counts member (λ x y. (and_true _ _ y).0)
                      (ground arith) (ground arith))).1,
          )),
      (λ h.
          let ((f, m, live), every) = h in
          let positive = count_where_pos counts m (ground arith) in
          let same =
            count_where_all counts_merged counts fs (λ x y. (and_true _ _ y).0)
              (λ x member live_x. counts_merged_of x live_x (every x member)) in
          from (ground arith, ground arith)),
    )

status_planned_iff :
    (fs : List FeatureForProgress) → (status_of (tally fs) ≡ planned_release) ↔ IsPlannedRelease fs
status_planned_iff fs =
    let (total, merged, started) = tally-counts fs in
    let le = merged_le_total fs in
    let (to, from) = status_of_planned (tally fs) (ground arith) in
    (
      (λ h f m live.
          let (none_merged, idle) = to h in
          let unmerged = count_where_zero counts_merged m (ground arith) in
          let unstarted = not_started fs m live (ground arith) in
          elim (planned_or_counted f live) [
            | inl is_planned_state ↦ is_planned_state
            | inr (inl counted) ↦ ground arith
            | inr (inr counted) ↦ ground arith
          ]),
      (λ h.
          let none_merged =
            count_where_none counts_merged fs (λ f m. (planned_uncounted f (h f m)).0) in
          let none_started = any_none counts_started fs (λ f m. (planned_uncounted f (h f m)).1) in
          from (ground arith, ground arith)),
    )

module _ (floats : Floats) where
  open floats use {
    Number, of_count, divide, times, floor, divide_mono, divide_self, times_mono, times_exact,
    floor_mono, floor_exact,
  }

  -- `Math.floor(ratio * 100)`, and the ratio.
  abbrev percent_of : Number → ℕ
  percent_of ratio = floor (times ratio (of_count 100))

  abbrev ratio_of : ℕ → ℕ → Number
  ratio_of merged total =
      if total == 0 then of_count 0 else divide (of_count merged) (of_count total)

  percent_exact : (n : ℕ) → n * 100 ≤ 100 → percent_of (of_count n) ≡ n * 100
  percent_exact n small = ap floor (times_exact n 100 small) ∙ floor_exact (n * 100) small

  percent_full :
      (merged total : ℕ) → 0 < total → merged ≡ total → percent_of (ratio_of merged total) ≡ 100
  percent_full merged total positive same =
      let counted : (total == 0) ≡ false = ground arith in
      rw (counted, same)
        (ap percent_of (divide_self total positive) ∙ percent_exact 1 (ground arith))

  -- A ratio of fewer merged features has no higher percentage.
  percent_mono :
      (m n total : ℕ)
      → m ≤ n
      → 0 < total
      → percent_of (ratio_of m total) ≤ percent_of (ratio_of n total)
  percent_mono m n total le positive =
      let counted : (total == 0) ≡ false = ground arith in
      rw counted (floor_mono _ _ (times_mono _ _ 100 (divide_mono m n total le positive)))

  percent_le : (merged total : ℕ) → merged ≤ total → percent_of (ratio_of merged total) ≤ 100
  percent_le merged total le = elim (Bool-cases (total == 0)) [
    | inl empty ↦ let exact = percent_exact 0 (ground arith) in rw empty (omega (arith, exact))
    | inr counted ↦
        let positive : 0 < total = ground arith in
        let below = percent_mono merged total total le positive in
        let full = percent_full total total positive refl in omega (arith, below, full)
  ]

  percents :
      (t u : Tally)
      → t.total ≡ u.total
      → t.merged ≤ u.merged
      → percent_of (ratio_of t.merged t.total) ≤ percent_of (ratio_of u.merged u.total)
  percents t u same le = rw same (elim (Bool-cases (u.total == 0)) [
    | inl empty ↦ rw empty (omega arith)
    | inr counted ↦ percent_mono t.merged u.merged u.total le (ground arith)
  ])

  -- The status of a release is MERGED exactly when it has a feature that is not archived and each of
  -- those has been merged, and PLANNED exactly when each feature that is not archived is planned,
  -- which holds where there is none.
  pub progress_status :
      (fs : List FeatureForProgress)
      → (((compute_development_progress floats fs).status ≡ merged_release) ↔ IsMergedRelease fs)
        × (((compute_development_progress floats fs).status ≡ planned_release)
            ↔ IsPlannedRelease fs)
  unfolding compute_development_progress
  progress_status fs = (status_merged_iff fs, status_planned_iff fs)

  -- The counts and the percentage: `total` is the number of features that are not archived, `merged`
  -- the number of those that are merged. In arithmetic that rounds correctly, the percentage is at most
  -- 100, is 100 if the release is merged, and a release of the same size with
  -- no more merged features has no higher percentage.
  pub progress_counts :
      (fs gs : List FeatureForProgress)
      → ((compute_development_progress floats fs).total ≡ count_where counts fs)
        × ((compute_development_progress floats fs).merged ≡ count_where counts_merged fs)
        × ((compute_development_progress floats fs).percent ≤ 100)
        × (IsMergedRelease fs → (compute_development_progress floats fs).percent ≡ 100)
        × (count_where counts gs ≡ count_where counts fs
            → count_where counts_merged gs ≤ count_where counts_merged fs
            → (compute_development_progress floats gs).percent
              ≤ (compute_development_progress floats fs).percent)
  unfolding compute_development_progress
  progress_counts fs gs =
      let (total, merged, started) = tally-counts fs in
      let (total', merged', started') = tally-counts gs in
      let le = merged_le_total fs in
      (
        total,
        merged,
        percent_le (tally fs).merged (tally fs).total (ground arith),
        (λ h.
            let (positive, same) =
              (status_of_merged (tally fs) (ground arith)).0 ((status_merged_iff fs).1 h) in
            percent_full (tally fs).merged (tally fs).total positive same),
        λ same fewer. percents (tally gs) (tally fs) (ground arith) (ground arith),
      )
