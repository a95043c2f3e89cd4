-- ===== src/Automation/Job.antt =====
-- The execution of one job: `executeOneJob` of src/lib/automation/executor/job-executor.ts, with
-- `withTimeout`, and the dead letters of src/lib/automation/dlq/dlq.ts. The row of the job is a record.
-- Logs, and the variables that a handler sets for its run, are left out.
pub mod Laws
use Prim.Native.String.{◌++◌}
use provence.Prelude.{
  ℕ, suc, ◌+◌, ◌-◌, String, Bool, true, false, not, ◌&&◌, Option, none, some, ltb, if◌then◌else◌,
  str_eq,
}
use provence.Prelude.Int.{ℤ}
use provence.Json.{Json}
use provence.Workflow.Evaluator.{Host}
use provence.Automation.Graph.{RetryPolicy}
use provence.Automation.Circuit.{
  Breakers, default_circuit_breaker_config, is_circuit_open, record_circuit_success,
  record_circuit_failure,
}
use provence.Automation.Lock.{Locks, LockManager}
use provence.Automation.Concurrency.{key_of}
use provence.Automation.Retry.{
  RetryDecision, RetryResult, decided, decide_retry, default_retry_policy, or_default,
}

pub data JobStatus : Type 0 where
  queued claimed running waiting succeeded failed cancelled timed_out dead_lettered : JobStatus

pub record AutomationJob : Type 0 where
  pub id : String
  pub organization_id : String
  pub workspace_id : String
  pub automation_id : Option String
  pub automation_run_id : Option String
  pub node_id : Option String
  pub job_type : String
  pub status : JobStatus
  pub priority : ℤ
  pub input : Json
  pub attempt : ℕ
  pub max_attempts : ℕ
  pub retry_policy : Option RetryPolicy
  pub lock_key : Option String
  pub concurrency_key : Option String
  pub concurrency_limit : Option ℕ
  pub rate_limit_key : Option String
  pub timeout_ms : Option ℕ
  pub scheduled_at : ℕ
  pub claimed_at : Option ℕ
  pub claimed_by : Option String
  pub started_at : Option ℕ
  pub finished_at : Option ℕ
  pub duration_ms : Option ℕ
  pub output : Option Json
  pub error : Option String
  pub created_by_id : Option String

-- What a handler's promise comes to.
pub data HandlerResult : Type 0 where
  returned : Json → HandlerResult
  rejected : String → HandlerResult

abbrev pub default_action_timeout_ms : ℕ
default_action_timeout_ms = 30_000

-- What the wait for a handler comes to, after `waited` milliseconds. Where `settled` is false the time
-- was over first: the wait is, and the handler, which nothing cancels, runs on.
pub record Awaited : Type 0 where
  pub result : HandlerResult
  pub waited : ℕ
  pub settled : Bool

abbrev pub cut_off : ℕ → Awaited
cut_off timeout_ms = record {
  result = rejected "AUTOMATION_JOB_TIMEOUT";
  waited = timeout_ms;
  settled = false;
}

-- The wait for a promise that settles after some time, or never. Where both are due in the same
-- millisecond, the promise is first.
unfoldable pub with_timeout : Option (ℕ × HandlerResult) → ℕ → Awaited
with_timeout none timeout_ms = cut_off timeout_ms
with_timeout (some (duration, result)) timeout_ms =
    if ltb timeout_ms duration
    then cut_off timeout_ms
    else record { result = result; waited = duration; settled = true }

-- What the execution reads and writes beside the job.
pub record Services : Type 0 where
  pub breakers : Breakers
  pub locks : Locks

-- `Execution` is the row that is left, the services, and how the call ends: `threw` is an exception out
-- of the `catch` block. `runs_on` says that a handler that timed out is still running.
pub data Outcome : Type 0 where
  succeeded retried dead_lettered threw : Outcome

pub record Execution : Type 0 where
  pub job : AutomationJob
  pub services : Services
  pub outcome : Outcome
  pub runs_on : Bool

abbrev pub circuit_key : AutomationJob → String
circuit_key job = "jobType:" ++ job.job_type

abbrev pub timeout_of : AutomationJob → ℕ
timeout_of job = or_default default_action_timeout_ms job.timeout_ms

abbrev pub lease_of : AutomationJob → ℕ
lease_of job = timeout_of job + 10_000

-- Back to the queue.
unfoldable pub requeue : ℕ → AutomationJob → AutomationJob
requeue scheduled_at job = record job {
  status = JobStatus.queued;
  scheduled_at = scheduled_at;
  claimed_at = none;
  claimed_by = none;
}

unfoldable pub send_to_dead_letter : ℕ → String → AutomationJob → AutomationJob
send_to_dead_letter now reason job = record job {
  status = JobStatus.dead_lettered;
  finished_at = some now;
  error = some reason;
}

-- The attempt: the row while it runs.
unfoldable pub begin_attempt : ℕ → AutomationJob → AutomationJob
begin_attempt now job = record job {
  status = JobStatus.running;
  started_at = some (or_default now job.started_at);
  attempt = suc job.attempt;
}

unfoldable pub finish : ℕ → Json → AutomationJob → AutomationJob
finish now output job = record job {
  status = JobStatus.succeeded;
  finished_at = some now;
  output = some output;
  duration_ms = some (now - or_default now job.started_at);
}

-- The row after a decision of the retry engine, made at `now`.
unfoldable pub after_failure : ℕ → String → RetryResult → AutomationJob → AutomationJob × Outcome
unfolding requeue send_to_dead_letter
after_failure now message (decided d) job =
    if d.should_retry
    then (record (requeue (now + d.delay_ms) job) { error = some message }, retried)
    else (send_to_dead_letter now message job, dead_lettered)
after_failure now message _ job = (job, threw)

module _ (m : LockManager) (host : Host) (random : ℕ → ℕ) where
  abbrev pub acquire : Option String → String → ℕ → ℕ → Locks → Bool × Locks
  acquire none worker lease_ms now locks = (true, locks)
  acquire (some key) worker lease_ms now locks = m.try_acquire key worker lease_ms now locks

  abbrev pub free : Option String → String → Locks → Locks
  free none worker locks = locks
  free (some key) worker locks = m.release key worker locks

  -- What follows the handler, which ended at `now`.
  unfoldable pub conclude_attempt :
      AutomationJob → String → ℕ → HandlerResult → Services → Execution
  unfolding finish after_failure
  conclude_attempt job worker now (returned output) s = record {
    job = finish now output job;
    services = record {
      breakers = record_circuit_success (circuit_key job) s.breakers;
      locks = free (key_of job.lock_key) worker s.locks;
    };
    outcome = succeeded;
    runs_on = false;
  }
  conclude_attempt job worker now (rejected message) s =
      let policy = or_default default_retry_policy job.retry_policy in
      let first = or_default now job.started_at in
      let result = decide_retry host random policy job.attempt message first now in
      let (job', outcome) = after_failure now message result job in
      record {
        job = job';
        services = record {
          breakers =
              record_circuit_failure (circuit_key job) default_circuit_breaker_config none now
                s.breakers;
          locks = free (key_of job.lock_key) worker s.locks;
        };
        outcome = outcome;
        runs_on = false;
      }

  -- `handler` is what the registered handler of the job's type does, if there is one. It is called
  -- `pause` milliseconds after the lock is taken: the writes of the row and of the log are between. From
  -- then until the end of the wait others may act on the services: `meanwhile` is what they make of them.
  module _ (handler : Option (AutomationJob → Option (ℕ × HandlerResult))) (pause : ℕ)
      (meanwhile : Services → Services) where
    abbrev pub call_handler : AutomationJob → Awaited
    call_handler job = elim handler [
      | none ↦ record {
        result = rejected ("Type de job \"" ++ job.job_type ++ "\" non enregistré.");
        waited = 0;
        settled = true;
      }
      | some execute ↦ with_timeout (execute job) (timeout_of job)
    ]

    unfoldable pub attempt_job : AutomationJob → String → ℕ → Services → Execution
    unfolding begin_attempt conclude_attempt
    attempt_job job worker now s =
        let started = begin_attempt now job in
        let awaited = call_handler started in
        let ended = now + pause + awaited.waited in
        record (conclude_attempt started worker ended awaited.result (meanwhile s)) {
          runs_on = not awaited.settled;
        }

    unfoldable pub execute_one_job : AutomationJob → String → ℕ → Services → Execution
    unfolding attempt_job requeue
    execute_one_job job worker now s =
        let (blocked, breakers) = is_circuit_open (circuit_key job) now s.breakers in
        let (acquired, locks) = acquire (key_of job.lock_key) worker (lease_of job) now s.locks in
        if blocked
        then record {
          job = requeue (now + 5_000) job;
          services = record s { breakers = breakers };
          outcome = retried;
          runs_on = false;
        }
        else if acquired
        then attempt_job job worker now (record { breakers = breakers; locks = locks })
        else record {
          job = requeue (now + 2_000) job;
          services = record { breakers = breakers; locks = locks };
          outcome = retried;
          runs_on = false;
        }

pub data DlqError : Type 0 where
  not_found validation_error : DlqError

pub data Replayed : Type 0 where
  ok : AutomationJob → Replayed
  fails : DlqError → Replayed

unfoldable pub reset : ℕ → AutomationJob → AutomationJob
reset now job = record job {
  status = JobStatus.queued;
  attempt = 0;
  scheduled_at = now;
  error = none;
  claimed_at = none;
  claimed_by = none;
  started_at = none;
  finished_at = none;
}

abbrev pub is_dead_lettered : JobStatus → Bool
is_dead_lettered dead_lettered = true
is_dead_lettered _ = false

-- `job` is the row with the id that was asked for, if there is one.
unfoldable pub replay_dead_letter : String → String → ℕ → Option AutomationJob → Replayed
unfolding reset
replay_dead_letter organization_id workspace_id now none = fails not_found
replay_dead_letter organization_id workspace_id now (some job) =
    if str_eq job.organization_id organization_id && str_eq job.workspace_id workspace_id
    then if is_dead_lettered job.status then ok (reset now job) else fails validation_error
    else fails not_found
