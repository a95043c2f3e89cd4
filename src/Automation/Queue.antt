-- ===== src/Automation/Queue.antt =====
-- The in-memory queue provider: src/lib/automation/queue/providers/memory-queue.ts. The table of jobs
-- is a map from the id to the columns that a claim reads and writes.
pub mod Laws
use provence.Prelude.{
  ℕ, zero, suc, ◌+◌, ◌-◌, String, Bool, true, false, ◌&&◌, Option, none, some, List, [], ◌∷◌, Map,
  lookup, any, select, ltb, if◌then◌else◌, str_eq,
}
use provence.Prelude.Int.{ℤ, ltb_ℤ}
use provence.Automation.Job.{JobStatus}

pub record QueuedJobRef : Type 0 where
  pub id : String
  pub job_type : String
  pub priority : ℤ

pub record JobRow : Type 0 where
  pub status : JobStatus
  pub claimed_at : Option ℕ
  pub claimed_by : Option String

abbrev pub JobRows : Type 0
JobRows = Map JobRow

-- The stable sort by descending priority, of a list to which one job is added at the end.
unfoldable pub insert_by_priority : QueuedJobRef → List QueuedJobRef → List QueuedJobRef
insert_by_priority job [] = job ∷ []
insert_by_priority job (other ∷ others) =
    let later = insert_by_priority job others in
    if ltb_ℤ other.priority job.priority then job ∷ other ∷ others else other ∷ later

unfoldable pub sort_from : List QueuedJobRef → List QueuedJobRef → List QueuedJobRef
unfolding insert_by_priority
sort_from sorted [] = sorted
sort_from sorted (job ∷ jobs) = sort_from (insert_by_priority job sorted) jobs

unfoldable pub notify : QueuedJobRef → List QueuedJobRef → List QueuedJobRef
unfolding sort_from
notify job ready = insert_by_priority job (sort_from [] ready)

-- `!params.jobTypes || params.jobTypes.includes(job.jobType)`
abbrev pub is_wanted : Option (List String) → String → Bool
is_wanted none job_type = true
is_wanted (some job_types) job_type = any (λ other. str_eq other job_type) job_types

-- The loop of `claim`, with the number of matches that may still be taken: matches and remaining.
unfoldable pub take_matches :
    ℕ → Option (List String) → List QueuedJobRef → List QueuedJobRef × List QueuedJobRef
take_matches left job_types [] = ([], [])
take_matches left job_types (job ∷ jobs) =
    let (taken_on, taken_rest) = take_matches (left - 1) job_types jobs in
    let (kept_on, kept_rest) = take_matches left job_types jobs in
    if ltb 0 left && is_wanted job_types job.job_type
    then (job ∷ taken_on, taken_rest)
    else (kept_on, job ∷ kept_rest)

abbrev pub is_queued : JobStatus → Bool
is_queued JobStatus.queued = true
is_queued _ = false

abbrev pub is_claimed : JobStatus → Bool
is_claimed JobStatus.claimed = true
is_claimed _ = false

abbrev pub is_among : String → List QueuedJobRef → Bool
is_among id jobs = any (λ job. str_eq job.id id) jobs

abbrev pub claimed_row : String → ℕ → JobRow
claimed_row worker now = record {
  status = JobStatus.claimed;
  claimed_at = some now;
  claimed_by = some worker;
}

-- `updateMany`
unfoldable pub claim_rows : List QueuedJobRef → String → ℕ → JobRows → JobRows
claim_rows jobs worker now [] = []
claim_rows jobs worker now ((id, row) ∷ rows) =
    let later = claim_rows jobs worker now rows in
    if is_among id jobs && is_queued row.status
    then (id, claimed_row worker now) ∷ later
    else (id, row) ∷ later

abbrev pub is_confirmed : String → Option JobRow → Bool
is_confirmed worker none = false
is_confirmed worker (some row) =
    is_claimed row.status && elim row.claimed_by [ none ↦ false | some other ↦ str_eq other worker ]

-- The claimed jobs, the queue and the table that a claim leaves.
unfoldable pub claim :
    ℕ
    → String
    → Option (List String)
    → ℕ
    → List QueuedJobRef
    → JobRows
    → List QueuedJobRef × List QueuedJobRef × JobRows
unfolding take_matches claim_rows lookup
claim limit worker job_types now ready rows =
    let (matches, remaining) = take_matches limit job_types ready in
    let rows' = claim_rows matches worker now rows in
    (select (λ job. is_confirmed worker (lookup job.id rows')) matches, remaining, rows')

-- `clear`
unfoldable pub clear : List QueuedJobRef
clear = []
