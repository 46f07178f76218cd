-- ===== src/Github/Backoff.antt =====
-- apps/worker/src/github/github-backoff.ts, and the backoff state that pr-reconciliation-store.ts
-- keeps of each feature, in memory, for as long as the worker runs.
-- Times are milliseconds. The texts of errors are left out. The powers of two are exact in IEEE 754
-- doubles or infinite, and the smaller of the power and the limit is taken.
use autopilot_console.Prelude.{
  ℕ, ◌+◌, ◌-◌, ◌*◌, ◌^◌, ◌≤◌, ◌<◌, ◌==◌, ◌≡◌, refl, Option, some, none, Bool, true, false,
  if◌then◌else◌, List, [], ◌∷◌, leb, ltb, arith, Option-cases, inl, inr,
}

pub record GitHubBackoffState : Type 0 where
  pub consecutive_errors : ℕ
  pub last_error_at : Option ℕ
  pub backoff_until : Option ℕ

pub record GitHubBackoffOptions : Type 0 where
  pub max_consecutive_errors : ℕ
  pub base_backoff_ms : ℕ
  pub max_backoff_ms : ℕ

abbrev pub default_options : GitHubBackoffOptions
default_options = record {
  max_consecutive_errors = 5;
  base_backoff_ms = 30000;
  max_backoff_ms = 600000;
}

-- `Math.min`
abbrev min : ℕ → ℕ → ℕ
min a b = if leb a b then a else b

pub record Backoff : Type 0 where
  pub should_backoff : Bool
  pub backoff_ms : ℕ

-- The three returns, `now` being read once.
unfoldable pub compute_backoff : GitHubBackoffOptions → ℕ → GitHubBackoffState → Backoff
compute_backoff options now state =
    let later : Backoff = record {
      should_backoff = leb options.max_consecutive_errors state.consecutive_errors;
      backoff_ms =
          min (options.base_backoff_ms * 2 ^ (state.consecutive_errors - 1)) options.max_backoff_ms;
    } in
    if state.consecutive_errors == 0
    then record { should_backoff = false; backoff_ms = 0 }
    else elim state.backoff_until [
      | none ↦ later
      | some until ↦
          if ltb now until
          then record { should_backoff = true; backoff_ms = until - now }
          else later
    ]

unfoldable pub should_report_stale_sync : GitHubBackoffState → ℕ → Bool
should_report_stale_sync state max_consecutive_errors =
    leb max_consecutive_errors state.consecutive_errors

-- `stateFor` of a feature that has no state yet.
abbrev pub initial : GitHubBackoffState
initial = record { consecutive_errors = 0; last_error_at = none; backoff_until = none }

unfoldable pub record_backoff : GitHubBackoffOptions → ℕ → GitHubBackoffState → GitHubBackoffState
record_backoff options now state =
    let counted : GitHubBackoffState = record state {
      consecutive_errors = state.consecutive_errors + 1;
      last_error_at = some now;
    } in
    let computed = compute_backoff options now counted in
    if ltb 0 computed.backoff_ms
    then record counted { backoff_until = some (now + computed.backoff_ms) }
    else counted

unfoldable pub should_backoff : GitHubBackoffOptions → ℕ → GitHubBackoffState → Bool
should_backoff options now state = (compute_backoff options now state).should_backoff

-- The store's operations on one feature's state. A poll that succeeds has none.
pub data BackoffStep : Type 0 where
  asked : ℕ → BackoffStep
  failed : ℕ → BackoffStep

unfoldable pub backoff_step :
    GitHubBackoffOptions → GitHubBackoffState → BackoffStep → GitHubBackoffState
backoff_step options state (asked now) = state
backoff_step options state (failed now) = record_backoff options now state

unfoldable pub backoff_run :
    GitHubBackoffOptions → GitHubBackoffState → List BackoffStep → GitHubBackoffState
backoff_run options state [] = state
backoff_run options state (s ∷ steps) = backoff_run options (backoff_step options state s) steps

record_backoff-count :
    (options : GitHubBackoffOptions) (now : ℕ) (state : GitHubBackoffState)
    → (record_backoff options now state).consecutive_errors ≡ state.consecutive_errors + 1
unfolding record_backoff
record_backoff-count options now state = ground arith

step_le :
    (options : GitHubBackoffOptions) (state : GitHubBackoffState) (s : BackoffStep)
    → state.consecutive_errors ≤ (backoff_step options state s).consecutive_errors
unfolding backoff_step
step_le options state (asked now) = ground arith
step_le options state (failed now) = ground (arith, record_backoff-count options now state)

run_le :
    (options : GitHubBackoffOptions) (state : GitHubBackoffState) (steps : List BackoffStep)
    → state.consecutive_errors ≤ (backoff_run options state steps).consecutive_errors
unfolding backoff_run
run_le options state [] = ground arith
run_le options state (s ∷ steps) =
    let first = step_le options state s in
    let rest = run_le options (backoff_step options state s) steps in ground arith

at_limit :
    (options : GitHubBackoffOptions) (now : ℕ) (state : GitHubBackoffState)
    → 0 < options.max_consecutive_errors
    → options.max_consecutive_errors ≤ state.consecutive_errors
    → should_backoff options now state ≡ true
unfolding should_backoff compute_backoff
at_limit options now state positive reached = ground arith

-- Once a feature's errors have reached the limit, which is at least one, the store answers
-- "back off" for ever: whatever the store is asked and told from then on, and however late.
pub backoff_latches :
    (options : GitHubBackoffOptions) (state : GitHubBackoffState) (steps : List BackoffStep)
    (now : ℕ)
    → 0 < options.max_consecutive_errors
    → options.max_consecutive_errors ≤ state.consecutive_errors
    → should_backoff options now (backoff_run options state steps) ≡ true
backoff_latches options state steps now positive reached =
    let le = run_le options state steps in
    at_limit options now (backoff_run options state steps) positive (ground arith)

-- No pause has been set, or the last one is over.
abbrev pub NoPauseAt : ℕ → GitHubBackoffState → Type 0
NoPauseAt now state = (until : ℕ) → state.backoff_until ≡ some until → until ≤ now

-- The pause that an error asks for where none is under way.
counted_wait :
    (options : GitHubBackoffOptions) (now : ℕ) (counted : GitHubBackoffState) (n : ℕ)
    → counted.consecutive_errors ≡ n + 1
    → NoPauseAt now counted
    → (compute_backoff options now counted).backoff_ms
      ≡ min (options.base_backoff_ms * 2 ^ n) options.max_backoff_ms
unfolding compute_backoff
counted_wait options now counted n count idle =
    let before : counted.consecutive_errors - 1 ≡ n = ground arith in
    elim (Option-cases counted.backoff_until) [
      | inl unset ↦ rw (unset, before) (ground arith)
      | inr (until, set) ↦
          let over = idle until set in
          let passed : ltb now until ≡ false = ground arith in
          rw (set, passed, before) (ground arith)
    ]

until_set :
    (options : GitHubBackoffOptions) (now wait : ℕ) (state : GitHubBackoffState)
    → (compute_backoff options now (record state {
      consecutive_errors = state.consecutive_errors + 1;
      last_error_at = some now;
    })).backoff_ms
      ≡ wait
    → 0 < wait
    → (record_backoff options now state).backoff_until ≡ some (now + wait)
unfolding record_backoff
until_set options now wait state e positive = rw e (ground arith)

paused :
    (options : GitHubBackoffOptions) (now until : ℕ) (state : GitHubBackoffState)
    → 0 < state.consecutive_errors
    → state.backoff_until ≡ some until
    → now < until
    → should_backoff options now state ≡ true
unfolding should_backoff compute_backoff
paused options now until state some_errors set before = ground arith

-- An error recorded while no pause is under way, be it the first or after earlier pauses, puts the next polls off by the base times two to
-- the number of the earlier errors, or by the limit if that is less: the store answers "back off" at
-- every time from then on that is before the end of that pause.
pub record_backoff_pause :
    (options : GitHubBackoffOptions) (now later : ℕ) (state : GitHubBackoffState)
    → NoPauseAt now state
    → now ≤ later
    → later < now + options.base_backoff_ms * 2 ^ state.consecutive_errors
    → later < now + options.max_backoff_ms
    → should_backoff options later (record_backoff options now state) ≡ true
record_backoff_pause options now later state idle after before before_limit =
    let w = min (options.base_backoff_ms * 2 ^ state.consecutive_errors) options.max_backoff_ms in
    let ends : later < now + w = ground arith in
    let set =
      until_set options now w state (counted_wait options now _ state.consecutive_errors refl idle)
        (ground arith) in
    let count = record_backoff-count options now state in
    paused options later (now + w) (record_backoff options now state) (ground arith) set ends
