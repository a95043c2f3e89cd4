-- ===== src/Lib.antt =====
-- Verification of the core of Provence 360's automation platform.
--
-- The program is a Next.js application; its own logic is under src/lib. The development is about the
-- Automation Engine (src/lib/automation), the rules and cron expressions of the Workflow Engine
-- (src/lib/workflows), the rate limiter of the HTTP entry points (src/lib/security), and the scores of
-- prospects (src/lib/scoring.ts). An automation is a graph of nodes, which is validated when stored. `advanceAutomationRun` loads a run's node states, ends its waits, and calls
-- `tickGraph`, which polls the running nodes, dispatches the ready ones (run-state.ts says which) and
-- repeats until nothing moves. What a node does depends on its kind: a loop or a map ticks its body for
-- its items, a sub-automation opens another run, and an action becomes a durable job. A worker claims
-- jobs, admits them by concurrency and rate, and runs each under a lock and a circuit breaker; the retry engine
-- decides what follows a failure, by rules where the policy asks for one.
--
-- Files, and the code that they model:
--   Prelude       lists, JavaScript maps as association lists, tests and integers: shared by the rest
--   Json          values of type `unknown`; `none` of `Option Json` is `undefined`
--   Security/RateLimit      src/lib/security/rate-limiter.ts, src/lib/rate-limit.ts (public API)
--   Workflow/Rule           src/lib/workflows/graph-types.ts (`Expr`, `Rule`)
--   Workflow/VariableContext, Workflow/Path
--                           src/lib/workflows/expressions/variable-context.ts (`getPath`)
--   Workflow/Evaluator      src/lib/workflows/expressions/evaluator.ts (`evaluateRule`)
--   Workflow/Template       src/lib/workflows/expressions/evaluator.ts (`resolveActionInput`)
--   Workflow/Cron           src/lib/workflows/triggers/cron.ts
--   Automation/Graph        src/lib/automation/graph-types.ts
--   Automation/Validation   src/lib/automation/graph-validation.ts
--   Automation/RunState     src/lib/automation/executor/run-state.ts (`isNodeReady`, `computeReadyNodes`)
--   Automation/Tick         src/lib/automation/executor/tick-graph.ts (`tickGraph`)
--   Automation/Run          src/lib/automation/executor/job-executor.ts (`advanceAutomationRun`)
--   Automation/Nodes        src/lib/automation/executor/job-executor.ts (`dispatchTopNode`, `pollTopNode`
--                           and what they call), src/lib/automation/registry/automation-service.ts
--                           (`createAutomationRun`)
--   Automation/Job          src/lib/automation/executor/job-executor.ts (`executeOneJob`, `withTimeout`),
--                           src/lib/automation/dlq/dlq.ts
--   Automation/Cancel       src/lib/automation/executor/job-executor.ts (`cancelAutomationRun`)
--   Automation/Queue        src/lib/automation/queue/providers/memory-queue.ts
--   Automation/Retry        src/lib/automation/retry/retry-engine.ts (`decideRetry`)
--   Automation/Circuit      src/lib/automation/retry/circuit-breaker.ts
--   Automation/Lock         src/lib/automation/lock: the contract, and its two providers
--   Automation/TokenBucket  src/lib/automation/concurrency/rate-limiter.ts
--   Automation/Concurrency  src/lib/automation/concurrency/concurrency-manager.ts (`admitByConcurrency`)
--   Automation/Scheduler    src/lib/automation/scheduler (`parseCronExpression`, `getNextScheduledRun`)
--   Crm/Scoring             src/lib/scoring.ts
--   Tests                   runs on concrete inputs, and each theorem applied to one
--
-- A component's state is passed along explicitly: a Map or a table with a unique key is an association
-- list, a row is a record, `Date.now()` and `new Date()` are an argument `now` in milliseconds. What
-- throws returns `none`, a result type of its own, or `thrown` of the step type `Run`, which also
-- carries the world that callbacks change. A function that the code calls and the repository does not
-- define (the database's write of a run, its counts, `Math.random`, dates and the time zones of
-- `Intl.DateTimeFormat`, regular expressions, registered operators) is a parameter.
--
-- Bounds: the loop of `tickGraph` has the source's own bound of 200 generations, which is the fuel
-- of `tick_from`. The attempts of a job are counted with fuel, and the theorem says that any fuel
-- from the cap on gives the same count. A loop over the values of a cron field has one round more
-- than its upper bound as fuel, which is enough for every step but 0; running out is the outcome
-- `endless`, which the source reaches for the step 0 only. The search for the next run has the
-- source's bound of 366 days. The search for cycles has one more than the number of edges as fuel,
-- and the theorem says that it ends before. Numbers are exact: the source's doubles are so below
-- 2^53, and the fractions of a token are whole parts of one here.
--
-- Not modelled: the Postgres queue and the worker's loop over jobs, logs, the variables that a
-- handler sets and the notification of a parent run; the older workflow engine; agents, which
-- escalations call and which are parameters here, the rest of the CRM, accounting, mail, calendars
-- and the other services, which mostly store rows or call external services; the web application.
-- Concurrent processes are sequences of atomic calls, as the database and the single JavaScript thread
-- make them. The two writes between the lock of a job and its handler take a time that is a parameter;
-- a handler that timed out is not cancelled, and what it does afterwards is not modelled.
pub mod Prelude
pub mod Json
pub mod Security
pub mod Workflow
pub mod Automation
pub mod Tests
pub mod Crm
