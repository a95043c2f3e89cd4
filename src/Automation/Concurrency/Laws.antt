-- ===== src/Automation/Concurrency/Laws.antt =====
-- What the admission of src/lib/automation/concurrency/concurrency-manager.ts guarantees.
use provence.Prelude.{
  ℕ, suc, ◌+◌, ◌≤◌, ◌<◌, max, String, ◌≡◌, refl, Bool, true, false, ◌&&◌, Option, none, some, List,
  [], ◌∷◌, map, Map, lookup, lookup-insert, All, count_if, leb, str_eq, eq_iff, arith, ◌⊎◌, inl,
  inr, Bool-cases,
}
use provence.Automation.TokenBucket.{TokenBuckets}
use provence.Automation.Concurrency.{
  ConcurrencyCandidate, Admissions, key_of, or_zero, reserve, admit_job, admit_each,
  admit_by_concurrency,
}

module _ (running : String → ℕ) (now : ℕ) where
  admit_each-count :
      (p : String → Bool) (jobs : List ConcurrencyCandidate) (state : Admissions)
      → count_if p (admit_each running now jobs state).0.0
          + count_if p (admit_each running now jobs state).0.1
        ≡ count_if p (map (λ job. job.id) jobs)
  unfolding admit_each
  admit_each-count p [] state = omega arith
  admit_each-count p (job ∷ jobs) state =
      let (ok, state') = admit_job running now job state in
      let rest = admit_each-count p jobs state' in
      elim ok [ true ↦ ground (arith, rest) | false ↦ ground (arith, rest) ]

  -- Whether a job counts against the key.
  abbrev pub has_key : String → Option String → Bool
  has_key key none = false
  has_key key (some other) = str_eq other key

  -- The key's limit, when the job has that key and declares one, is at most `most`; a job with that
  -- key declares one.
  abbrev pub HasLimit : String → ℕ → Option String → Option ℕ → Type 0
  HasLimit key most none limit = Unit
  HasLimit key most (some other) none = str_eq other key ≡ false
  HasLimit key most (some other) (some limit) = (str_eq other key ≡ true) → limit ≤ most

  abbrev pub IsLimited : String → ℕ → ConcurrencyCandidate → Type 0
  IsLimited key most job = HasLimit key most (key_of job.concurrency_key) job.concurrency_limit

  abbrev reserved : String → Map ℕ → ℕ
  reserved key counts = or_zero (lookup key counts)

  Reserved : String → ℕ → Bool → Bool → Map ℕ → Map ℕ → Type 0
  Reserved key most free has counts counts' =
      ((reserved key counts' ≡ reserved key counts) × (free && has ≡ false))
      ⊎ ((reserved key counts' ≡ suc (reserved key counts))
          × (running key + reserved key counts < most))

  reserve-Reserved :
      (key : String) (most : ℕ) (other : Option String) (limit : Option ℕ) (counts : Map ℕ)
      → HasLimit key most other limit
      → Reserved key most
          (reserve running now other limit counts).0
          (has_key key other)
          counts
          (reserve running now other limit counts).1
  unfolding Reserved reserve
  reserve-Reserved key most none limit counts h = inl (refl, ground arith)
  reserve-Reserved key most (some other) none counts h = inl (refl, ground arith)
  reserve-Reserved key most (some other) (some limit) counts h =
      elim (Bool-cases (leb limit (running other + reserved other counts))) [
        | inl full ↦ rw full (inl (refl, refl))
        | inr free ↦ rw free (elim (Bool-cases (str_eq other key)) [
          | inl same ↦
              let found = lookup-insert other key (suc (reserved other counts)) counts in
              inr
                (ground (arith, found, eq_iff other key), ground (arith, eq_iff other key, h same))
          | inr differs ↦
              let found = lookup-insert other key (suc (reserved other counts)) counts in
              inl (ground (arith, found), differs)
        ])
      ]

  admit_job-Reserved :
      (key : String) (most : ℕ) (job : ConcurrencyCandidate) (state : Admissions)
      → IsLimited key most job
      → Reserved key most
          (admit_job running now job state).0
          (has_key key (key_of job.concurrency_key))
          state.admitted_this_batch
          (admit_job running now job state).1.admitted_this_batch
  unfolding admit_job Reserved
  admit_job-Reserved key most job state h =
      let step =
        reserve-Reserved key most (key_of job.concurrency_key) job.concurrency_limit
          state.admitted_this_batch h in
      elim (Bool-cases
        (reserve running now (key_of job.concurrency_key) job.concurrency_limit
          state.admitted_this_batch).0) [
            | inl free ↦ rw free (elim step [
              | inl (e, b) ↦ inl (e, ground (arith, b, free))
              | inr grown ↦ inr grown
            ])
            | inr full ↦ rw full (inl (refl, refl))
          ]

  -- Only jobs with the key have an identifier that passes the test.
  abbrev pub IsTestOf : String → (String → Bool) → ConcurrencyCandidate → Type 0
  IsTestOf key p job = p job.id ≡ true → has_key key (key_of job.concurrency_key) ≡ true

  admit_each-bound :
      (key : String) (p : String → Bool) (most : ℕ) (jobs : List ConcurrencyCandidate)
      (state : Admissions)
      → All (IsLimited key most) jobs
      → All (IsTestOf key p) jobs
      → running key
          + reserved key state.admitted_this_batch
          + count_if p (admit_each running now jobs state).0.0
        ≤ max most (running key + reserved key state.admitted_this_batch)
  unfolding admit_each Reserved
  admit_each-bound key p most [] state h k = omega arith
  admit_each-bound key p most (job ∷ jobs) state (h, hs) (k, ks) =
      let step = admit_job-Reserved key most job state h in
      let rest = admit_each-bound key p most jobs (admit_job running now job state).1 hs ks in
      elim (Bool-cases (admit_job running now job state).0) [
        | inr refused ↦
            rw (refused, admit_each)
              (elim step [
                | inl (same, keeps) ↦ ground (arith, rest, same)
                | inr (grown, below) ↦ ground (arith, rest, grown, below)
              ])
        | inl admitted ↦
            rw (admitted, admit_each)
              (elim step [
                | inl (same, keeps) ↦ ground (arith, rest, same, keeps, admitted, k)
                | inr (grown, below) ↦ ground (arith, rest, grown, below)
              ])
      ]

-- In a batch whose jobs with a key all declare a limit of at most `most`, the jobs already running
-- with that key and those of the batch's list of admitted jobs are together at most `most`, or none
-- of them is admitted where more run already: for every test on identifiers that only jobs with the key
-- pass, that is the bound on the admitted identifiers that pass it. The rate limiter and the jobs with
-- other keys do not change it.
pub admit_by_concurrency_limit :
    (running : String → ℕ) (now : ℕ) (key : String) (p : String → Bool) (most : ℕ)
    (jobs : List ConcurrencyCandidate) (buckets : TokenBuckets)
    → All (IsLimited running now key most) jobs
    → All (IsTestOf running now key p) jobs
    → running key + count_if p (admit_by_concurrency running now jobs buckets).0.0
      ≤ max most (running key)
unfolding lookup admit_by_concurrency
admit_by_concurrency_limit running now key p most jobs buckets h k =
    let bound =
      admit_each-bound running now key p most jobs
        (record { admitted_this_batch = []; buckets = buckets }) h k in
    omega (arith, bound)

-- The admitted and the deferred jobs are together the batch: for every test on ids, as many ids of
-- the two lists pass it as ids of the batch. No job is lost or doubled.
pub admit_by_concurrency-count :
    (running : String → ℕ) (now : ℕ) (p : String → Bool) (jobs : List ConcurrencyCandidate)
    (buckets : TokenBuckets)
    → count_if p (admit_by_concurrency running now jobs buckets).0.0
        + count_if p (admit_by_concurrency running now jobs buckets).0.1
      ≡ count_if p (map (λ job. job.id) jobs)
unfolding admit_by_concurrency
admit_by_concurrency-count running now p jobs buckets =
    admit_each-count running now p jobs (record { admitted_this_batch = []; buckets = buckets })
