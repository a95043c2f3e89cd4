-- ===== src/Automation/Concurrency.antt =====
-- src/lib/automation/concurrency/concurrency-manager.ts. The environment's settings and the counts of
-- running jobs, which the database answers, are arguments.
pub mod Laws
use provence.Prelude.{
  ℕ, ◌+◌, ◌-◌, String, Bool, true, false, ◌&&◌, not, Option, none, some, List, [], ◌∷◌, Map, lookup,
  insert, leb, ltb, if◌then◌else◌, str_eq,
}
use provence.Automation.TokenBucket.{TokenBuckets, try_consume}

-- `parsed` is `Number(raw)` when that is finite and not negative.
unfoldable pub get_worker_pool_size : Option ℕ → ℕ
get_worker_pool_size none = 5
get_worker_pool_size (some parsed) = if ltb 0 parsed then parsed else 5

unfoldable pub get_global_max_concurrent_jobs : Option ℕ → Option ℕ
get_global_max_concurrent_jobs none = none
get_global_max_concurrent_jobs (some parsed) = if ltb 0 parsed then some parsed else none

abbrev pub capacity_left : ℕ → Option ℕ → Option ℕ
capacity_left running none = none
capacity_left running (some most) = some (most - running)

unfoldable pub remaining_global_capacity : Option ℕ → ℕ → Option ℕ
unfolding get_global_max_concurrent_jobs
remaining_global_capacity parsed running =
    capacity_left running (get_global_max_concurrent_jobs parsed)

pub record ConcurrencyCandidate : Type 0 where
  pub id : String
  pub concurrency_key : Option String
  pub concurrency_limit : Option ℕ
  pub rate_limit_key : Option String

-- What the loop of `admitByConcurrency` changes: the admissions of this batch by key, and the shared
-- rate limiter.
pub record Admissions : Type 0 where
  pub admitted_this_batch : Map ℕ
  pub buckets : TokenBuckets

-- A key that is absent or empty is no key.
abbrev pub key_of : Option String → Option String
key_of none = none
key_of (some key) = if str_eq key "" then none else some key

abbrev pub or_zero : Option ℕ → ℕ
or_zero none = 0
or_zero (some n) = n

module _ (running : String → ℕ) (now : ℕ) where
  -- The test of the key's limit; it reserves a place for a job that passes.
  unfoldable pub reserve : Option String → Option ℕ → Map ℕ → Bool × Map ℕ
  unfolding lookup insert
  reserve (some key) (some limit) counts =
      let already = or_zero (lookup key counts) in
      if leb limit (running key + already)
      then (false, counts)
      else (true, insert key (already + 1) counts)
  reserve _ _ counts = (true, counts)

  -- The test of the rate limit.
  unfoldable pub consume_rate : Option String → TokenBuckets → Bool × TokenBuckets
  unfolding try_consume
  consume_rate none buckets = (true, buckets)
  consume_rate (some key) buckets = try_consume key 1 now buckets

  -- One round of the loop.
  unfoldable pub admit_job : ConcurrencyCandidate → Admissions → Bool × Admissions
  unfolding reserve consume_rate
  admit_job job state =
      let (free, counts) =
        reserve (key_of job.concurrency_key) job.concurrency_limit state.admitted_this_batch in
      let (allowed, buckets) = consume_rate (key_of job.rate_limit_key) state.buckets in
      if free
      then (allowed, record { admitted_this_batch = counts; buckets = buckets })
      else (false, state)

  abbrev pub push_to : Bool → String → List String × List String → List String × List String
  push_to true id (admitted, deferred) = (id ∷ admitted, deferred)
  push_to false id (admitted, deferred) = (admitted, id ∷ deferred)

  -- The admitted and the deferred jobs, each in the batch's order.
  unfoldable pub admit_each :
      List ConcurrencyCandidate → Admissions → (List String × List String) × Admissions
  unfolding admit_job
  admit_each [] state = (([], []), state)
  admit_each (job ∷ jobs) state =
      let (ok, state') = admit_job job state in
      let (lists, state'') = admit_each jobs state' in (push_to ok job.id lists, state'')

  unfoldable pub admit_by_concurrency :
      List ConcurrencyCandidate → TokenBuckets → (List String × List String) × TokenBuckets
  unfolding admit_each
  admit_by_concurrency jobs buckets =
      let (lists, state) =
        admit_each jobs (record { admitted_this_batch = []; buckets = buckets }) in
      (lists, state.buckets)
