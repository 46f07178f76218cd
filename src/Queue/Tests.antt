-- ===== src/Queue/Tests.antt =====
-- The theorems on claims at a small queue.
use autopilot_console.Prelude.{
  Member, ◌+◌, ◌≤◌, ◌<◌, ◌≡◌, ◌≢◌, refl, Option, some, Bool, false, true, arith,
}
use autopilot_console.Store.Rows.{Db, DevelopmentAttemptRow, JobAttemptStatus, running}
use autopilot_console.Store.Tx.{Reply, replied, threw, Fault}
use autopilot_console.Fixtures.{console, attempt_row}
use autopilot_console.Queue.{
  claim_next_attempt, start_attempt, start, is_candidate, before, oldest, is_target, active_count,
}
use autopilot_console.Queue.Laws.{UniqueIds, OneActivePerProject, claim_limit, claim_counts}
use autopilot_console.Queue.Guard.{Startable, claim-OneActivePerProject}
use autopilot_console.Queue.Fifo.{claim_fifo, SoonerThan}

abbrev nothing_locked : DevelopmentAttemptRow → Bool
nothing_locked a = false

abbrev claim : Reply (Option DevelopmentAttemptRow) × Db
claim = claim_next_attempt 4 30000 (λ d. d) nothing_locked 2000 6 console

abbrev claimed : DevelopmentAttemptRow
claimed = start 60 2000 32000 (attempt_row 41 14 JobAttemptStatus.queued 110)

claim-claimed : claim.0 ≡ replied (some claimed)
unfolding claim_next_attempt start_attempt is_candidate before oldest is_target
claim-claimed = refl

claim_run : claim ≡ (replied (some claimed), claim.1)
unfolding claim_next_attempt start_attempt is_candidate before oldest is_target
claim_run = refl

console-UniqueIds : UniqueIds console.attempts
console-UniqueIds id = ground arith

console-OneActive : OneActivePerProject console.attempts
console-OneActive project_id = ground arith

claim-OneActivePerProject_example :
    OneActivePerProject claim.1.attempts
    × ((row : DevelopmentAttemptRow)
        → claim.0 ≡ replied (some row)
        → (target : DevelopmentAttemptRow) × (row.id ≡ target.id)
          × Startable nothing_locked console target)
    × (console ≡ console → (e : Fault) → claim.0 ≢ threw e)
claim-OneActivePerProject_example =
    claim-OneActivePerProject 4 30000 (λ d. d) nothing_locked 2000 6 console claim.0 claim.1 refl
      console-UniqueIds console-OneActive console-OneActive

claim_limit_example : active_count claim.1 ≤ 4
claim_limit_example =
    claim_limit 4 30000 nothing_locked 2000 6 console claim.0 claim.1 refl console-UniqueIds
      (ground arith)

claim_counts_example :
    (active_count console < 4) × (active_count claim.1 ≡ active_count console + 1)
claim_counts_example =
    claim_counts 4 30000 (λ d. d) nothing_locked 2000 6 console claimed claim.1 claim_run
      console-UniqueIds

claim_fifo_example :
    (target : DevelopmentAttemptRow) × (claimed.id ≡ target.id)
    × (is_candidate nothing_locked console target ≡ true)
    × Member target console.attempts
    × ((other : DevelopmentAttemptRow)
        → Member other console.attempts
        → is_candidate nothing_locked console other ≡ true
        → SoonerThan other target
        → ⊥)
    × (claimed.status ≡ running)
    × (claimed.lease_expires_at ≡ some (2000 + 30000))
claim_fifo_example =
    claim_fifo 4 30000 (λ d. d) nothing_locked 2000 6 console claimed claim.1 claim_run
