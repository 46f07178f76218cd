-- ===== src/Retry/Laws.antt =====
-- What a retry has checked before it writes, and what it writes.
use text.Mathlib.Text.{◌==◌ as str_eq}
use autopilot_console.Prelude.{
  ℕ, ◌≡◌, sym, ◌∙◌, ap, Option, some, Bool, true, false, arith, Option-cases, inl, inr, find,
}
use autopilot_console.Store.Rows.{Db, FeatureRow, TaskApprovalRow, DevelopmentAttemptRow}
use autopilot_console.Store.Repositories.{get_feature_by_id, get_development_attempt}
use autopilot_console.Retry.{
  RetryRequest, proceed, check_latest, check_retry, is_retryable_state, is_retryable_status,
  is_active_approval, latest_of, may_be_active,
}

-- The rows that a retry goes by, and what was found of them.
pub record Checked (is_alive : Option (ℕ → ℕ → Bool)) (request : RetryRequest) (db : Db)
    (row : FeatureRow) (latest : DevelopmentAttemptRow) : Type 0 where
  pub found : get_feature_by_id request.feature_id db ≡ some row
  pub in_project : row.project_id ≡ request.project_id
  pub stopped : is_retryable_state row.state ≡ true
  pub approved : (a : TaskApprovalRow) × (find (is_active_approval request) db.approvals ≡ some a)
  pub last :
      (l : DevelopmentAttemptRow) × (latest_of request.feature_id db.attempts ≡ some l)
      × (get_development_attempt l.id db ≡ some latest)
  pub ended : is_retryable_status latest.status ≡ true
  pub same_branch :
      (str_eq latest.branch_name row.branch_name ≡ true)
      × (str_eq request.branch_name row.branch_name ≡ true)
  pub no_process : may_be_active is_alive latest ≡ false

module _ (is_alive : Option (ℕ → ℕ → Bool)) (request : RetryRequest) where
  check_latest_lem :
      (row row' : FeatureRow) (latest latest' : DevelopmentAttemptRow)
      → check_latest is_alive request row latest ≡ proceed row' latest'
      → (row ≡ row')
        × (latest ≡ latest')
        × (is_retryable_status latest.status ≡ true)
        × (str_eq latest.branch_name row.branch_name ≡ true)
        × (str_eq request.branch_name row.branch_name ≡ true)
        × (may_be_active is_alive latest ≡ false)
  unfolding check_latest
  check_latest_lem row row' latest latest' h = ground arith

  pub check_retry-Checked :
      (db : Db) (row : FeatureRow) (latest : DevelopmentAttemptRow)
      → check_retry is_alive request db ≡ proceed row latest
      → Checked is_alive request db row latest
  unfolding check_retry
  check_retry-Checked db row latest h =
      elim (Option-cases (get_feature_by_id request.feature_id db)) [
        | inl missing ↦ absurd (ground arith)
        | inr (r, found) ↦ elim (Option-cases (find (is_active_approval request) db.approvals)) [
          | inl missing ↦ absurd (ground arith)
          | inr (a, approved) ↦ elim (Option-cases (latest_of request.feature_id db.attempts)) [
            | inl missing ↦ absurd (ground arith)
            | inr (l, last) ↦ elim (Option-cases (get_development_attempt l.id db)) [
              | inl missing ↦ absurd (ground arith)
              | inr (l', last') ↦
                  let passed : check_latest is_alive request r l' ≡ proceed row latest =
                    ground arith in
                  let (same_row, same_latest, ended, branch, branch', gone) =
                    check_latest_lem r row l' latest passed in
                  record {
                    found = found ∙ ap some same_row;
                    in_project = ground arith;
                    stopped = ground arith;
                    approved = (a, approved);
                    last = (l, last, last' ∙ ap some same_latest);
                    ended =
                        ap (λ (x : DevelopmentAttemptRow). is_retryable_status x.status)
                          (sym same_latest)
                        ∙ ended;
                    same_branch = (
                      ap (λ (x : DevelopmentAttemptRow). str_eq x.branch_name row.branch_name)
                            (sym same_latest)
                          ∙ ap (λ (x : FeatureRow). str_eq l'.branch_name x.branch_name)
                              (sym same_row)
                          ∙ branch,
                      ap (λ (x : FeatureRow). str_eq request.branch_name x.branch_name)
                            (sym same_row)
                          ∙ branch',
                    );
                    no_process = ap (may_be_active is_alive) (sym same_latest) ∙ gone;
                  }
            ]
          ]
        ]
      ]
