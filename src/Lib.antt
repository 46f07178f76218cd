-- ===== src/Lib.antt =====
-- A model of Autopilot Console, and what holds of it.
--
-- The console keeps projects, releases and features in PostgreSQL. A feature moves through a fixed
-- lifecycle: a task file is attached and reviewed, an administrator approves it and queues an
-- attempt, a worker claims the attempt and runs an agent on it, and the result becomes a pull
-- request that a poller follows until it is merged. The services meet in the rows of the database
-- and in one transition service, which knows the lifecycle's table.
--
-- Which file models which part (paths from the root of the repository):
--   Prelude   lists measured by native numbers, Boolean tests, counting lemmas
--   Feature   packages/domain/src/feature. State: feature-state.ts. Transition: the types of
--     feature-transition.ts. Machine: feature-state-machine.ts (EXPLICIT_EDGES, isAllowed,
--     listAllowedTransitions, applyFeatureTransition as explicit_edges, is_allowed, and so on).
--     Machine/Table has the table of the design document as a relation, Machine/Apply the outcomes
--     of the service, Machine/Journeys walks of several transitions
--   Store     packages/database/src/repositories and packages/domain/src/shared/transaction.ts.
--     Rows: the tables, as a record of lists. Tx: code in a transaction, and its rollback.
--     Repositories: the queries in use, with the unique indexes and triggers of the migrations that
--     guard inserts. Inserts: what a successful insert says
--   Task      packages/domain/src/task/task-approval-service.ts. Approval: what the operations
--     share. Approval/Approve: approveAndQueue. Approval/Attach: attachTask. Approval/Change:
--     removeTask, invalidateApproval and replaceTask
--   Queue     packages/database/src/queue/development-queue.ts, claimNextAttempt
--   Retry     apps/worker/src/process/retry-service.ts, retry
--   Release   packages/domain/src/release/development-progress.ts, computeDevelopmentProgress
--   Attention packages/domain/src/attention/attention-policy.ts
--   Github    Backoff: apps/worker/src/github/github-backoff.ts with the backoff state of
--     pr-reconciliation-store.ts. Poll: resolveCheckState and the decision of pollAll in
--     pr-reconciliation-worker.ts. Store: transitionFeatureInStore in pr-handoff-store.ts. Handoff:
--     handoff in pr-handoff-worker.ts (Handoff/Worker), over pr-handoff-store.ts (Handoff/Store)
--   Autopilot packages/autopilot/src/task/task-semantic-validator.ts. Json: the values of a parsed file.
--     Graph: validateDependencyGraph, with the search in three colours (its children: that it ends, what
--     each answer says, and the edges it follows). Requirement: parseRequirement and parseTdd.
--     Document: deriveRunMode and validateTaskDocument
--   Shared    packages/shared/src/idempotency/operation-key.ts, OperationKey
--   Failure   packages/domain/src/failure/failure-policy.ts, mapFailure
--   Cancellation apps/worker/src/process/cancellation-controller.ts (World: the process tree, the
--     clock and the database; Persist: persistTransition and persistBlocked; Controller: cancelQueued
--     and cancelRunning) and apps/worker/src/runtime/job-command-worker.ts (Commands)
--   Lifecycle the writes of approval, retry, cancellation and the GitHub workers in any order, against
--     walks along the table of transitions
--   Fixtures and the modules called Tests: a small database, and the theorems applied to it
--
-- How the code is read. A service is a function from the database to an answer and a database. Its
-- reads before a transaction and its transaction are two steps: what other sessions commit between
-- them is an argument, `others`, a function on databases. A transaction itself runs alone, as the
-- row locks that the services take make it for the rows that they decide by; where a service takes
-- no lock (attachTask, removeTask) this leaves out interference between the statements of its
-- transaction. In the queue, whose statements each see what is committed then, `others` stands
-- before the update and `locked` for the rows that SKIP LOCKED passes over. Reading and parsing a
-- task file, whether a process is alive, the answer of GitHub and the arithmetic of JavaScript
-- numbers are arguments too. Identifiers, operation keys, checksums, causes, times and JSON payloads
-- are numbers, since they are only compared or carried along; a fresh number stands for
-- gen_random_uuid(), and the clock of the database for now(). The cancellation controller runs on a
-- plain connection, and so does the handoff: writes stay when a later step throws. Loops are recursion over lists; the
-- depth-first search over requirements alone takes fuel, as much as there are ids, which is enough
-- since each nested call paints a white id. An operation key is a list of codes.
--
-- Not modelled: texts for people, such as messages and summaries; the columns and metadata that no
-- modelled code reads; the triggers on activity and audit rows; the HTTP and web parts, Git and
-- GitHub command lines and child processes, which are I/O; the worker's other services (development,
-- observation, orphans), the loop around its commands, and the redaction of texts, which rests on
-- regular expressions.
mod Prelude
mod Fixtures
pub mod Feature
pub mod Store
pub mod Task
pub mod Queue
pub mod Retry
pub mod Release
pub mod Attention
pub mod Github
pub mod Autopilot
pub mod Shared
pub mod Failure
pub mod Cancellation
pub mod Lifecycle
