-- ===== src/Automation/Job/Laws.antt =====
-- What the execution of a job (`executeOneJob` of src/lib/automation/executor/job-executor.ts) leaves.
use provence.Prelude.{
  ℕ, suc, ◌+◌, ◌≤◌, ◌<◌, ◌⊎◌, not, ◌&&◌, Bool, String, ◌≡◌, refl, ◌≢◌, ◌↔◌, inl, inr, true, false,
  Option, none, some, List, All, lookup, str_eq, eq_iff, arith, Bool-cases, Option-cases,
}
use provence.Workflow.Evaluator.{Host}
use provence.Automation.Graph.{BackoffStrategy, RetryPolicy}
use provence.Automation.Circuit.{is_circuit_open}
use provence.Automation.Lock.Lease.{LockCall, IsForeign, run, lease_excludes}
use provence.Automation.Lock.{Locks, LockManager, IsLockManager, is_held_by}
use provence.Automation.Concurrency.{key_of}
use provence.Automation.Retry.{
  RetryResult, decided, is_over, needs_max_attempts, needs_condition_rule, rule_threw, decide_by,
  decide_retry, default_retry_policy, or_default,
}
use provence.Automation.Job.{
  JobStatus, AutomationJob, HandlerResult, with_timeout, Services, Outcome, succeeded, retried,
  dead_lettered, threw, circuit_key, timeout_of, lease_of, requeue, send_to_dead_letter,
  begin_attempt, finish, after_failure, acquire, conclude_attempt, call_handler, attempt_job,
  execute_one_job, returned, rejected, replay_dead_letter, ok, reset,
}

-- The row that an execution which starts at `now` leaves, by its outcome.
abbrev pub Agrees : ℕ → Outcome → AutomationJob → Type 0
Agrees now succeeded job = (job.status ≡ JobStatus.succeeded) × (job.output ≢ none)
Agrees now retried job =
    (job.status ≡ JobStatus.queued) × (job.claimed_by ≡ none) × (now ≤ job.scheduled_at)
Agrees now dead_lettered job = (job.status ≡ JobStatus.dead_lettered) × (job.error ≢ none)
Agrees now threw job = job.status ≡ JobStatus.running

-- The policies with which the retry engine never throws.
abbrev pub IsRobust : BackoffStrategy → Type 0
IsRobust BackoffStrategy.limited = ⊥
IsRobust BackoffStrategy.conditional = ⊥
IsRobust _ = Unit

-- What becomes of a job by the result of its attempt.
abbrev pub Answers : HandlerResult → Outcome → AutomationJob → Type 0
Answers (returned output) outcome job =
    (outcome ≡ succeeded) × (job.status ≡ JobStatus.succeeded) × (job.output ≡ some output)
Answers (rejected message) outcome job =
    (((outcome ≡ retried) × (job.status ≡ JobStatus.queued))
      ⊎ ((outcome ≡ dead_lettered) × (job.status ≡ JobStatus.dead_lettered)))
    × (job.error ≡ some message)

-- The same with the case in which there is no attempt.
abbrev pub Reports : Bool → HandlerResult → AutomationJob → Outcome → AutomationJob → Type 0
Reports true result job outcome job' =
    Answers result outcome job' × (job'.attempt ≡ suc job.attempt)
Reports false result job outcome job' =
    (outcome ≡ retried) × (job'.status ≡ JobStatus.queued) × (job'.attempt ≡ job.attempt)

abbrev IsDecided : RetryResult → Type 0
IsDecided (decided d) = Unit
IsDecided _ = ⊥

with_timeout_le :
    (promise : Option (ℕ × HandlerResult)) (timeout : ℕ)
    → (with_timeout promise timeout).waited ≤ timeout
unfolding with_timeout
with_timeout_le none timeout = omega arith
with_timeout_le (some (duration, result)) timeout = ground arith

module _ (m : LockManager) (host : Host) (random : ℕ → ℕ) where
  after_failure-Agrees :
      (start now : ℕ) (message : String) (result : RetryResult) (job : AutomationJob)
      → start ≤ now
      → job.status ≡ JobStatus.running
      → let (job', outcome) = after_failure now message result job in Agrees start outcome job'
  unfolding after_failure requeue send_to_dead_letter
  after_failure-Agrees start now message (decided d) job le is = elim (Bool-cases d.should_retry) [
    | inl e ↦ rw e (refl, refl, omega arith)
    | inr e ↦ rw e (refl, λ h. cc)
  ]
  after_failure-Agrees start now message needs_max_attempts job le is = is
  after_failure-Agrees start now message needs_condition_rule job le is = is
  after_failure-Agrees start now message rule_threw job le is = is

  conclude_attempt-Agrees :
      (start now : ℕ) (job : AutomationJob) (worker : String) (result : HandlerResult)
      (s : Services)
      → start ≤ now
      → job.status ≡ JobStatus.running
      → let e = conclude_attempt m host random job worker now result s in
        Agrees start e.outcome e.job
  unfolding conclude_attempt finish
  conclude_attempt-Agrees start now job worker (returned output) s le is = (refl, λ h. cc)
  conclude_attempt-Agrees start now job worker (rejected message) s le is =
      after_failure-Agrees start now message _ job le is

  decide_by-IsDecided :
      (strategy : BackoffStrategy) (policy : RetryPolicy) (attempt : ℕ) (message : String)
      (first now : ℕ)
      → IsRobust strategy
      → IsDecided (decide_by host random strategy policy attempt message first now)
  unfolding decide_by
  decide_by-IsDecided BackoffStrategy.limited policy attempt message first now h = absurd h
  decide_by-IsDecided BackoffStrategy.conditional policy attempt message first now h = absurd h
  decide_by-IsDecided BackoffStrategy.infinite policy attempt message first now h =
      elim (Bool-cases (is_over first now policy.max_duration_ms)) [
        | inl e ↦ rw e tt
        | inr e ↦ rw e tt
      ]
  decide_by-IsDecided _ policy attempt message first now h = tt

  after_failure-Answers :
      (now : ℕ) (message : String) (result : RetryResult) (job : AutomationJob)
      → IsDecided result
      → let (job', outcome) = after_failure now message result job in
        Answers (rejected message) outcome job' × (job'.attempt ≡ job.attempt)
  unfolding after_failure requeue send_to_dead_letter
  after_failure-Answers now message (decided d) job h = elim (Bool-cases d.should_retry) [
    | inl e ↦ rw e ((inl (refl, refl), refl), refl)
    | inr e ↦ rw e ((inr (refl, refl), refl), refl)
  ]
  after_failure-Answers now message needs_max_attempts job h = absurd h
  after_failure-Answers now message needs_condition_rule job h = absurd h
  after_failure-Answers now message rule_threw job h = absurd h

  conclude_attempt-Answers :
      (now : ℕ) (job : AutomationJob) (worker : String) (result : HandlerResult) (s : Services)
      → IsRobust (or_default default_retry_policy job.retry_policy).strategy
      → let e = conclude_attempt m host random job worker now result s in
        Answers result e.outcome e.job × (e.job.attempt ≡ job.attempt)
  unfolding conclude_attempt decide_retry finish
  conclude_attempt-Answers now job worker (returned output) s h = ((refl, refl, refl), refl)
  conclude_attempt-Answers now job worker (rejected message) s h =
      after_failure-Answers now message _ job (
        decide_by-IsDecided (or_default default_retry_policy job.retry_policy).strategy
          (or_default default_retry_policy job.retry_policy) _ _ _ _ h)

  free_frees :
      {live : ℕ → ℕ → Bool} (law : IsLockManager live m) (key worker : String) (locks : Locks)
      → is_held_by worker (lookup key (m.release key worker locks)) ≡ false
  free_frees law key worker locks = elim (Option-cases (lookup key locks)) [
    | inl e ↦ let same = law.release_refused key worker locks (rw e refl) in rw (same, e) refl
    | inr (lock, e) ↦ elim (Bool-cases (str_eq lock.holder_id worker)) [
      | inl mine ↦
          let gone =
            law.release_frees key worker locks lock e
              (ground (arith, mine, eq_iff lock.holder_id worker)) in
          rw gone refl
      | inr theirs ↦
          let same = law.release_refused key worker locks (rw e theirs) in rw (same, e) theirs
    ]
  ]

  conclude_attempt_frees :
      {live : ℕ → ℕ → Bool} (law : IsLockManager live m) (now : ℕ) (job : AutomationJob)
      (worker key : String) (result : HandlerResult) (s : Services)
      → key_of job.lock_key ≡ some key
      → is_held_by worker
          (lookup key (conclude_attempt m host random job worker now result s).services.locks)
        ≡ false
  unfolding conclude_attempt
  conclude_attempt_frees law now job worker key (returned output) s e =
      rw e (free_frees law key worker s.locks)
  conclude_attempt_frees law now job worker key (rejected message) s e =
      rw e (free_frees law key worker s.locks)

  module _ (handler : Option (AutomationJob → Option (ℕ × HandlerResult))) (pause : ℕ)
      (meanwhile : Services → Services) where
    -- For any handler, lock manager and services, the outcome that an execution reports agrees with
    -- the row that it leaves: a succeeded job has its output, a retried one is queued for no earlier
    -- than the start and claimed by nobody, a dead letter has its error, and a job whose execution
    -- throws is left running.
    pub execute_one_job-Agrees :
        (job : AutomationJob) (worker : String) (now : ℕ) (s : Services)
        → let e = execute_one_job m host random handler pause meanwhile job worker now s in
          Agrees now e.outcome e.job
    unfolding execute_one_job attempt_job requeue begin_attempt
    execute_one_job-Agrees job worker now s =
        elim (Bool-cases (is_circuit_open (circuit_key job) now s.breakers).0) [
          | inl e ↦ rw e (refl, refl, omega arith)
          | inr e ↦
              rw e
                (elim (Bool-cases
                  (acquire m host random (key_of job.lock_key) worker (lease_of job) now
                    s.locks).0) [
                      | inl f ↦ rw f (
                          conclude_attempt-Agrees now _ (begin_attempt now job) worker _ _
                            (omega arith) refl)
                      | inr f ↦ rw f (refl, refl, omega arith)
                    ])
        ]

    -- An execution whose policy, its own or the default one, is neither "limited" nor "conditional"
    -- answers by its handler. If the breaker lets it pass and the lock is granted, the attempt is
    -- counted, and a handler that returns makes the job succeed with its output; one that fails or
    -- times out, or a missing one, makes it queued again and reported as retried, or a dead letter and
    -- reported as such, with the error's message on the row. Otherwise the job is queued again,
    -- reported as retried, and its attempts are the same.
    pub execute_one_job-Reports :
        (job : AutomationJob) (worker : String) (now : ℕ) (s : Services)
        → IsRobust (or_default default_retry_policy job.retry_policy).strategy
        → let e = execute_one_job m host random handler pause meanwhile job worker now s in
          let open_breaker = (is_circuit_open (circuit_key job) now s.breakers).0 in
          let granted =
            (acquire m host random (key_of job.lock_key) worker (lease_of job) now s.locks).0 in
          let awaited =
            call_handler m host random handler pause meanwhile (begin_attempt now job) in
          Reports (not open_breaker && granted) awaited.result job e.outcome e.job
    unfolding execute_one_job attempt_job requeue begin_attempt
    execute_one_job-Reports job worker now s h =
        elim (Bool-cases (is_circuit_open (circuit_key job) now s.breakers).0) [
          | inl e ↦ rw e (refl, refl, refl)
          | inr e ↦
              rw e
                (elim (Bool-cases
                  (acquire m host random (key_of job.lock_key) worker (lease_of job) now
                    s.locks).0) [
                      | inl f ↦
                          rw f (conclude_attempt-Answers _ (begin_attempt now job) worker _ _ h)
                      | inr f ↦ rw f (refl, refl, refl)
                    ])
        ]

    -- With a manager that fulfils the contract, a worker that attempts a job with a lock key does not
    -- hold the lock afterwards: whatever the handler does, whether it succeeds, is rejected or times
    -- out, and also if the retry engine throws.
    pub attempt_job_frees :
        {live : ℕ → ℕ → Bool} (law : IsLockManager live m) (job : AutomationJob)
        (worker key : String) (now : ℕ) (s : Services)
        → key_of job.lock_key ≡ some key
        → is_held_by worker (
            lookup key
              (attempt_job m host random handler pause meanwhile job worker now s).services.locks)
          ≡ false
    unfolding attempt_job begin_attempt
    attempt_job_frees law job worker key now s e =
        conclude_attempt_frees law _ (begin_attempt now job) worker key _ _ e

    call_handler_le :
        (job : AutomationJob)
        → (call_handler m host random handler pause meanwhile job).waited ≤ timeout_of job
    call_handler_le job = elim (Option-cases handler) [
      | inl e ↦ rw e (omega arith)
      | inr (execute, e) ↦ rw e (with_timeout_le (execute job) (timeout_of job))
    ]

    -- When the handler is called less than ten seconds after the lock is taken, the wait for it ends
    -- before the lease, for any handler, also one that never settles. So a manager that fulfils the
    -- contract refuses any other worker the job's lock at every time up to the end of that wait, as
    -- long as only calls of others are made.
    pub call_handler_within_lease :
        {live : ℕ → ℕ → Bool} (law : IsLockManager live m) (job : AutomationJob)
        (worker other key : String) (now time lease_ms : ℕ) (calls : List (LockCall × ℕ))
        (locks : Locks)
        → (m.try_acquire key worker (lease_of job) now locks).0 ≡ true
        → All (IsForeign key worker (now + lease_of job)) calls
        → worker ≢ other
        → pause < 10_000
        → time ≤ now + pause + (call_handler m host random handler pause meanwhile job).waited
        → let locks' = run m calls (m.try_acquire key worker (lease_of job) now locks).1 in
          m.try_acquire key other lease_ms time locks' ≡ (false, locks')
    call_handler_within_lease law job worker other key now time lease_ms calls locks got foreign ne
          short le =
        let in_time = call_handler_le job in
        (lease_excludes m law key worker other (lease_of job) now time lease_ms calls locks got
            foreign ne).1
          (omega (arith, in_time, short, le))

-- A job is replayed exactly when it belongs to the organization and the workspace that ask and is a
-- dead letter; the replay then puts it back into the queue with no attempt counted, no error and no
-- claim.
pub replay_dead_letter_iff :
    (organization_id workspace_id : String) (now : ℕ) (job job' : AutomationJob)
    → (replay_dead_letter organization_id workspace_id now (some job) ≡ ok job') ↔ (
        (job.organization_id ≡ organization_id)
        × (job.workspace_id ≡ workspace_id)
        × (job.status ≡ JobStatus.dead_lettered)
        × (job' ≡ reset now job))
unfolding replay_dead_letter
replay_dead_letter_iff organization_id workspace_id now job job' =
    ground (arith, eq_iff job.organization_id organization_id, eq_iff job.workspace_id workspace_id)
