-- ===== src/Tests/Cancel.antt =====
-- A cancellation (src/lib/automation/executor/job-executor.ts) with jobs of two runs.
use provence.Prelude.{◌≡◌, refl, some, List, [], ◌∷◌}
use provence.Automation.Job.{AutomationJob, JobStatus}
use provence.Automation.Cancel.{cancel_job, cancel_automation_run}
use provence.Automation.Cancel.Laws.{Stops, cancel_automation_run-Stops}
use provence.Tests.Run.{suspended_run}
use provence.Tests.Job.{job}

abbrev jobs : List AutomationJob
jobs =
    record job { automation_run_id = some "r" }
    ∷ record job { automation_run_id = some "s" }
    ∷ record job { automation_run_id = some "r"; status = JobStatus.succeeded }
    ∷ []

first_only : cancel_job "r" 9 (record job { automation_run_id = some "r" }) ≡ record job {
  automation_run_id = some "r";
  status = JobStatus.cancelled;
  finished_at = some 9;
}
unfolding cancel_job
first_only = refl

cancel_automation_run-Stops_example :
    Stops "r" jobs (cancel_automation_run 9 (some suspended_run) jobs)
cancel_automation_run-Stops_example = cancel_automation_run-Stops 9 suspended_run jobs
