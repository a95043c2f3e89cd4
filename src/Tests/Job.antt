-- ===== src/Tests/Job.antt =====
-- Executions of one job (src/lib/automation/executor/job-executor.ts, src/lib/automation/dlq/dlq.ts).
use provence.Prelude.{
  ℕ, ◌≡◌, ◌≢◌, refl, String, true, false, Option, none, some, [], ◌∷◌, lookup, insert, erase, inr,
  arith, eq_iff,
}
use provence.Prelude.Int.{pos}
use provence.Json.{null}
use provence.Automation.Lock.Lease.{acquire, run}
use provence.Automation.Lock.Memory.{
  memory_lock_manager, memory-IsLockManager, try_acquire, release,
}
use provence.Automation.Circuit.{is_circuit_open}
use provence.Automation.Retry.{decide_retry, default_retry_policy}
use provence.Automation.Job.{
  JobStatus, AutomationJob, HandlerResult, rejected, Services, retried, with_timeout, lease_of,
  begin_attempt, execute_one_job, send_to_dead_letter,
}
use provence.Automation.Job.Laws.{
  Agrees, Reports, execute_one_job-Agrees, execute_one_job-Reports, call_handler_within_lease,
}
use provence.Tests.Rules.{host}

abbrev pub job : AutomationJob
job = record {
  id = "j";
  organization_id = "o";
  workspace_id = "w";
  automation_id = none;
  automation_run_id = none;
  node_id = none;
  job_type = "mail";
  status = JobStatus.claimed;
  priority = pos 0;
  input = null;
  attempt = 0;
  max_attempts = 5;
  retry_policy = none;
  lock_key = some "k";
  concurrency_key = none;
  concurrency_limit = none;
  rate_limit_key = none;
  timeout_ms = some 50;
  scheduled_at = 0;
  claimed_at = some 1;
  claimed_by = some "me";
  started_at = none;
  finished_at = none;
  duration_ms = none;
  output = none;
  error = none;
  created_by_id = none;
}

abbrev boom : AutomationJob → Option (ℕ × HandlerResult)
boom j = some (7, rejected "boom")

abbrev handler : Option (AutomationJob → Option (ℕ × HandlerResult))
handler = some boom

abbrev random : ℕ → ℕ
random raw = 0

abbrev idle : Services → Services
idle s = s

abbrev services : Services
services = record { breakers = []; locks = [] }

is_retried :
    (execute_one_job memory_lock_manager host random handler 3 idle job "me" 100 services).outcome
    ≡ retried
unfolding execute_one_job memory_lock_manager try_acquire release is_circuit_open lookup insert
    erase decide_retry with_timeout default_retry_policy
is_retried = refl

execute_one_job-Agrees_example :
    let e = execute_one_job memory_lock_manager host random handler 3 idle job "me" 100 services in
    Agrees 100 e.outcome e.job
execute_one_job-Agrees_example =
    execute_one_job-Agrees memory_lock_manager host random handler 3 idle job "me" 100 services

execute_one_job-Reports_example :
    let e = execute_one_job memory_lock_manager host random handler 3 idle job "me" 100 services in
    Reports true (rejected "boom") job e.outcome e.job
unfolding default_retry_policy memory_lock_manager try_acquire is_circuit_open lookup with_timeout
    begin_attempt
execute_one_job-Reports_example =
    execute_one_job-Reports memory_lock_manager host random handler 3 idle job "me" 100 services tt

me_not_you : ◌≢◌ {A = String} "me" "you"
me_not_you = ground (arith, eq_iff "me" "you")

call_handler_within_lease_example :
    let locks =
      run memory_lock_manager
        ((acquire "k" "you" 9, 102) ∷ [])
        (memory_lock_manager.try_acquire "k" "me" (lease_of job) 100 []).1 in
    memory_lock_manager.try_acquire "k" "you" 30 110 locks ≡ (false, locks)
unfolding memory_lock_manager try_acquire lookup with_timeout
call_handler_within_lease_example =
    call_handler_within_lease memory_lock_manager host random handler 3 idle memory-IsLockManager
      job "me" "you" "k" 100 110 30 ((acquire "k" "you" 9, 102) ∷ []) [] refl
      ((inr me_not_you, omega arith), tt) me_not_you (omega arith) (omega arith)

abbrev dead : AutomationJob
dead = send_to_dead_letter 9 "boom" job
