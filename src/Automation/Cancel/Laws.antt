-- ===== src/Automation/Cancel/Laws.antt =====
-- What a cancellation (`cancelAutomationRun` of src/lib/automation/executor/job-executor.ts) leaves.
use provence.Prelude.{
  ℕ, String, ◌≡◌, refl, ap, ◌↔◌, inl, inr, Bool, true, false, ◌&&◌, some, List, [], ◌∷◌, map, All,
  arith, Bool-cases, select, not,
}
use provence.Automation.Run.{AutomationRun, is_over}
use provence.Automation.Job.{AutomationJob}
use provence.Automation.Cancel.{
  Cancellation, cancelled, validation_error, is_cancellable, is_active, belongs_to, cancel_job,
  cancel_automation_run,
}

-- A job of the run that could still be executed.
abbrev pub is_pending_in : String → AutomationJob → Bool
is_pending_in run_id job = belongs_to run_id job.automation_run_id && is_active job.status

cancel_job_stops :
    (run_id : String) (now : ℕ) (job : AutomationJob)
    → is_pending_in run_id (cancel_job run_id now job) ≡ false
unfolding cancel_job
cancel_job_stops run_id now job = elim (Bool-cases (is_pending_in run_id job)) [
  | inl e ↦ rw e (ground arith)
  | inr e ↦ rw e e
]

cancel_jobs_stop :
    (run_id : String) (now : ℕ) (jobs : List AutomationJob)
    → All (λ job. is_pending_in run_id job ≡ false) (map (cancel_job run_id now) jobs)
cancel_jobs_stop run_id now [] = tt
cancel_jobs_stop run_id now (job ∷ jobs) =
    (cancel_job_stops run_id now job, cancel_jobs_stop run_id now jobs)

-- What a cancellation makes of the run and the jobs.
abbrev pub Stops : String → List AutomationJob → Cancellation → Type 0
Stops run_id jobs (cancelled run jobs') =
    (is_over run.status ≡ true)
    × All (λ job. is_pending_in run_id job ≡ false) jobs'
    × (select (λ job. not (belongs_to run_id job.automation_run_id)) jobs'
        ≡ select (λ job. not (belongs_to run_id job.automation_run_id)) jobs)
Stops run_id jobs _ = Unit

cancel_jobs_keep :
    (run_id : String) (now : ℕ) (jobs : List AutomationJob)
    → select
        (λ job. not (belongs_to run_id job.automation_run_id))
        (map (cancel_job run_id now) jobs)
      ≡ select (λ job. not (belongs_to run_id job.automation_run_id)) jobs
unfolding cancel_job
cancel_jobs_keep run_id now [] = refl
cancel_jobs_keep run_id now (job ∷ jobs) =
    let rest = cancel_jobs_keep run_id now jobs in
    elim (Bool-cases (belongs_to run_id job.automation_run_id)) [
      | inl e ↦ elim (Bool-cases (is_active job.status)) [
        | inl f ↦ rw (e, f) (rw e rest)
        | inr f ↦ rw (e, f) (rw e rest)
      ]
      | inr e ↦ rw e (rw e (ap (λ others. job ∷ others) rest))
    ]

-- A cancellation that is accepted ends the run and every job of it that could still be executed, and
-- leaves the jobs of other runs, and those of none, as they were and in their order.
pub cancel_automation_run-Stops :
    (now : ℕ) (run : AutomationRun) (jobs : List AutomationJob)
    → Stops run.id jobs (cancel_automation_run now (some run) jobs)
unfolding cancel_automation_run
cancel_automation_run-Stops now run jobs = elim (Bool-cases (is_cancellable run.status)) [
  | inl e ↦ rw e (refl, cancel_jobs_stop run.id now jobs, cancel_jobs_keep run.id now jobs)
  | inr e ↦ rw e tt
]

-- The cancellation of a run that exists is refused exactly when the run is over.
pub cancel_automation_run_refuses :
    (now : ℕ) (run : AutomationRun) (jobs : List AutomationJob)
    → (cancel_automation_run now (some run) jobs ≡ validation_error) ↔ (is_over run.status ≡ true)
unfolding cancel_automation_run
cancel_automation_run_refuses now run jobs = ground arith
