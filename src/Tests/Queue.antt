-- ===== src/Tests/Queue.antt =====
-- src/lib/automation/queue/providers/memory-queue.ts on two queues over one table.
use provence.Prelude.{◌≡◌, ◌≢◌, refl, String, false, none, List, [], ◌∷◌, All, eq_iff, arith}
use provence.Prelude.Int.{pos, negsuc}
use provence.Automation.Job.{JobStatus}
use provence.Automation.Queue.{QueuedJobRef, JobRow, JobRows, notify, is_among, claim}
use provence.Automation.Queue.Laws.{claim_excludes}

abbrev urgent : QueuedJobRef
urgent = record { id = "1"; job_type = "mail"; priority = pos 10 }

abbrev idle : QueuedJobRef
idle = record { id = "2"; job_type = "mail"; priority = negsuc 9 }

abbrev ready : List QueuedJobRef
ready = urgent ∷ idle ∷ []

abbrev row : JobRow
row = record { status = JobStatus.queued; claimed_at = none; claimed_by = none }

abbrev rows : JobRows
rows = ("1", row) ∷ ("2", row) ∷ []

urgent_first : notify urgent (idle ∷ []) ≡ ready
unfolding notify
urgent_first = refl

one_is_claimed : (claim 1 "me" none 5 ready rows).0 ≡ urgent ∷ []
unfolding claim
one_is_claimed = refl

me_not_you : ◌≢◌ {A = String} "me" "you"
me_not_you = ground (arith, eq_iff "me" "you")

claim_excludes_example :
    let (claimed, remaining, rows') = claim 1 "me" none 5 ready rows in
    All (λ job. is_among job.id (claim 2 "you" none 6 ready rows').0 ≡ false) claimed
claim_excludes_example = claim_excludes 1 2 "me" "you" none none 5 6 ready ready rows me_not_you
