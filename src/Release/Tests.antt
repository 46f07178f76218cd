-- ===== src/Release/Tests.antt =====
-- The theorems on progress at a release of three features, with quotients of three decimals.
use native.Mathlib.Nat.{
  div-mul-le_self, le-div_iff_mul-le, mul_comm, mul-div_left, mul-le-mul_right,
}
use autopilot_console.Prelude.{
  ℕ, zero, suc, ap, ◌∙◌, ◌*◌, ◌/◌, ◌≤◌, ◌<◌, ◌≡◌, ◌↔◌, refl, false, true, List, [], ◌∷◌,
  count_where, arith,
}
use autopilot_console.Feature.State.{planned, developing, development_merged}
use autopilot_console.Release.{
  FeatureForProgress, Floats, planned_release, merged_release, compute_development_progress, tally,
  tally_from, tally_feature,
}
use autopilot_console.Release.Counts.{counts, counts_merged}
use autopilot_console.Release.Progress.{
  IsMergedRelease, IsPlannedRelease, progress_status, progress_counts,
}

-- Numbers with three decimals, in thousandths.
abbrev over : ℕ → ℕ → ℕ
over a zero = 0
over a (suc b) = a * 1000 / suc b

over_mono : (a b c : ℕ) → a ≤ b → over a c ≤ over b c
over_mono a b zero le = ground arith
over_mono a b (suc c) le =
    let below = div-mul-le_self (a * 1000) (suc c) in
    (le-div_iff_mul-le {k = suc c} {x = a * 1000 / suc c} {y = b * 1000} (ground arith)).1
      (ground arith)

over_self : (n : ℕ) → 0 < n → over n n ≡ 1000
over_self zero positive = absurd (ground arith)
over_self (suc n) positive =
    ap (λ x. x / suc n) (mul_comm (suc n) 1000) ∙ mul-div_left 1000 positive

scaled_mono : (a b : ℕ) → a ≤ b → a / 1000 ≤ b / 1000
scaled_mono a b le =
    let below = div-mul-le_self a 1000 in
    (le-div_iff_mul-le {k = 1000} {x = a / 1000} {y = b} (ground arith)).1 (ground arith)

product_exact : (m n : ℕ) → m * 1000 * (n * 1000) / 1000 ≡ m * n * 1000
product_exact m n =
    let same : m * 1000 * (n * 1000) ≡ m * n * 1000 * 1000 = ground arith in
    rw same (mul-div_left (m * n * 1000) (ground arith))

divided_mono :
    (m n total : ℕ) → m ≤ n → over (m * 1000) (total * 1000) ≤ over (n * 1000) (total * 1000)
divided_mono m n total le = over_mono (m * 1000) (n * 1000) (total * 1000) (ground arith)

divided_self : (n : ℕ) → 0 < n → over (n * 1000) (n * 1000) ≡ 1000
divided_self n positive = over_self (n * 1000) (ground arith)

whole : (n : ℕ) → n * 1000 / 1000 ≡ n
whole n = mul-div_left n (ground arith)

abbrev decimals : Floats
decimals = record {
  Number = ℕ;
  of_count = λ n. n * 1000;
  divide = over;
  times = λ a b. a * b / 1000;
  floor = λ a. a / 1000;
  AtMost = λ a b. a ≤ b;
  divide_mono = λ m n total le positive. divided_mono m n total le;
  divide_self = divided_self;
  times_mono =
      λ a b n le. scaled_mono (a * (n * 1000)) (b * (n * 1000)) (mul-le-mul_right (n * 1000) le);
  times_exact = λ m n small. product_exact m n;
  floor_mono = scaled_mono;
  floor_exact = λ n small. whole n;
}

abbrev release : List FeatureForProgress
release =
    record { id = 1; state = development_merged; archived = false }
    ∷ record { id = 2; state = developing; archived = false }
    ∷ record { id = 3; state = planned; archived = true }
    ∷ []

progress_status_example :
    (((compute_development_progress decimals release).status ≡ merged_release)
      ↔ IsMergedRelease release)
    × (((compute_development_progress decimals release).status ≡ planned_release)
        ↔ IsPlannedRelease release)
progress_status_example = progress_status decimals release

abbrev fewer_merged : List FeatureForProgress
fewer_merged =
    record { id = 1; state = planned; archived = false }
    ∷ record { id = 2; state = developing; archived = false }
    ∷ []

progress_counts_example :
    ((compute_development_progress decimals release).total ≡ count_where counts release)
    × ((compute_development_progress decimals release).merged ≡ count_where counts_merged release)
    × ((compute_development_progress decimals release).percent ≤ 100)
    × (IsMergedRelease release → (compute_development_progress decimals release).percent ≡ 100)
    × (count_where counts fewer_merged ≡ count_where counts release
        → count_where counts_merged fewer_merged ≤ count_where counts_merged release
        → (compute_development_progress decimals fewer_merged).percent
          ≤ (compute_development_progress decimals release).percent)
progress_counts_example = progress_counts decimals release fewer_merged

half : (compute_development_progress decimals release).percent ≡ 50
unfolding compute_development_progress tally tally_from tally_feature
half = refl
