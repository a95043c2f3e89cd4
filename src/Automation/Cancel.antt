-- ===== src/Automation/Cancel.antt =====
-- `cancelAutomationRun` of src/lib/automation/executor/job-executor.ts, on the row of the run and the
-- table of jobs. `cancelledAt`, which none of the modelled code reads, and the notification of the
-- parent run are left out.
pub mod Laws
use provence.Prelude.{
  ℕ, String, Bool, true, false, ◌&&◌, Option, none, some, List, map, if◌then◌else◌, str_eq,
}
use provence.Automation.Run.{AutomationRun, RunStatus}
use provence.Automation.Job.{AutomationJob, JobStatus}

pub data Cancellation : Type 0 where
  cancelled : AutomationRun → List AutomationJob → Cancellation
  not_found validation_error : Cancellation

abbrev pub is_cancellable : RunStatus → Bool
is_cancellable RunStatus.queued = true
is_cancellable RunStatus.running = true
is_cancellable RunStatus.waiting = true
is_cancellable _ = false

-- `status: { in: ["QUEUED", "CLAIMED", "RUNNING", "WAITING"] }`
abbrev pub is_active : JobStatus → Bool
is_active JobStatus.queued = true
is_active JobStatus.claimed = true
is_active JobStatus.running = true
is_active JobStatus.waiting = true
is_active _ = false

abbrev pub belongs_to : String → Option String → Bool
belongs_to run_id none = false
belongs_to run_id (some id) = str_eq id run_id

unfoldable pub cancel_job : String → ℕ → AutomationJob → AutomationJob
cancel_job run_id now job =
    if belongs_to run_id job.automation_run_id && is_active job.status
    then record job { status = JobStatus.cancelled; finished_at = some now }
    else job

unfoldable pub cancel_automation_run : ℕ → Option AutomationRun → List AutomationJob → Cancellation
unfolding cancel_job
cancel_automation_run now none jobs = not_found
cancel_automation_run now (some run) jobs =
    if is_cancellable run.status
    then cancelled (record run { status = RunStatus.cancelled; finished_at = some now })
        (map (cancel_job run.id now) jobs)
    else validation_error
