-- ===== src/Automation/Queue/Laws.antt =====
-- What a claim on the in-memory queue (src/lib/automation/queue/providers/memory-queue.ts) guarantees.
use provence.Prelude.{
  ℕ, ◌+◌, ◌-◌, ◌≤◌, String, ◌≡◌, refl, subst, ◌≢◌, inl, inr, Bool, true, false, ◌&&◌, Option, none,
  some, List, [], ◌∷◌, lookup, All, count_if, length, select, str_eq, eq_iff, arith, Bool-cases,
  Option-cases,
}
use provence.Automation.Queue.{
  QueuedJobRef, JobRow, JobRows, take_matches, is_queued, is_among, claim_rows, is_confirmed, claim,
}

take_matches_le :
    (left : ℕ) (types : Option (List String)) (jobs : List QueuedJobRef)
    → length (take_matches left types jobs).0 ≤ left
unfolding take_matches
take_matches_le left types [] = omega arith
take_matches_le left types (job ∷ jobs) =
    let taken = take_matches_le (left - 1) types jobs in
    let kept = take_matches_le left types jobs in ground (arith, taken, kept)

take_matches-count :
    (p : QueuedJobRef → Bool) (left : ℕ) (types : Option (List String)) (jobs : List QueuedJobRef)
    → count_if p (take_matches left types jobs).0 + count_if p (take_matches left types jobs).1
      ≡ count_if p jobs
unfolding take_matches
take_matches-count p left types [] = omega arith
take_matches-count p left types (job ∷ jobs) =
    let taken = take_matches-count p (left - 1) types jobs in
    let kept = take_matches-count p left types jobs in ground (arith, taken, kept)

length-select_le : {A : Type 0} (p : A → Bool) (xs : List A) → length (select p xs) ≤ length xs
length-select_le p [] = omega arith
length-select_le p (x ∷ xs) = let rest = length-select_le p xs in ground (arith, rest)

select_passes : {A : Type 0} (p : A → Bool) (xs : List A) → All (λ x. p x ≡ true) (select p xs)
select_passes p [] = tt
select_passes p (x ∷ xs) = elim (Bool-cases (p x)) [
  | inl e ↦ rw e (e, select_passes p xs)
  | inr e ↦ rw e (select_passes p xs)
]

confirmed_not_queued :
    (worker : String) (row : JobRow)
    → is_confirmed worker (some row) ≡ true
    → is_queued row.status ≡ false
confirmed_not_queued worker row h = ground arith

-- A claim keeps a row that is claimed already.
claim_rows_keeps :
    (jobs : List QueuedJobRef) (worker other id : String) (now : ℕ) (rows : JobRows)
    → is_confirmed worker (lookup id rows) ≡ true
    → lookup id (claim_rows jobs other now rows) ≡ lookup id rows
unfolding claim_rows lookup
claim_rows_keeps jobs worker other id now [] h = refl
claim_rows_keeps jobs worker other id now ((key, row) ∷ rows) h =
    elim (Bool-cases (str_eq key id)) [
      | inl e ↦
          let waits = confirmed_not_queued worker row (rw e at h) in
          let f : (is_among key jobs && is_queued row.status) ≡ false = ground (arith, waits) in
          rw f (rw e refl)
      | inr e ↦
          let rest = claim_rows_keeps jobs worker other id now rows (rw e at h) in
          elim (Bool-cases (is_among key jobs && is_queued row.status)) [
            | inl f ↦ rw f (rw e rest)
            | inr f ↦ rw f (rw e rest)
          ]
    ]

is_among-select :
    (p : String → Bool) (id : String) (jobs : List QueuedJobRef)
    → p id ≡ false
    → is_among id (select (λ job. p job.id) jobs) ≡ false
is_among-select p id [] h = refl
is_among-select p id (job ∷ jobs) h =
    let rest = is_among-select p id jobs h in
    elim (Bool-cases (p job.id)) [
      | inl e ↦ rw e (elim (Bool-cases (str_eq job.id id)) [
        | inl same ↦
            let e' : p id ≡ true =
              subst (λ x. p x ≡ true) (ground (arith, same, eq_iff job.id id)) e in
            cc
        | inr apart ↦ rw apart rest
      ])
      | inr e ↦ rw e rest
    ]

confirmed_once :
    (a b : String) (row : Option JobRow)
    → a ≢ b
    → is_confirmed a row ≡ true
    → is_confirmed b row ≡ false
confirmed_once a b none ne h = cc
confirmed_once a b (some row) ne h = elim (Option-cases row.claimed_by) [
  | inl e ↦ ground (arith, e, h)
  | inr (owner, e) ↦ ground (arith, e, h, ne, eq_iff owner a, eq_iff owner b)
]

All-map :
    {A : Type 0} (P Q : A → Type 0) (xs : List A) → ((x : A) → P x → Q x) → All P xs → All Q xs
All-map P Q [] f h = tt
All-map P Q (x ∷ xs) f (h, hs) = (f x h, All-map P Q xs f hs)

-- A claim gives at most `limit` jobs, and in the table that it leaves each of them is claimed by the
-- worker.
pub claim_bound :
    (limit : ℕ) (worker : String) (types : Option (List String)) (now : ℕ)
    (ready : List QueuedJobRef) (rows : JobRows)
    → let (claimed, remaining, rows') = claim limit worker types now ready rows in
      (length claimed ≤ limit)
      × All (λ job. is_confirmed worker (lookup job.id rows') ≡ true) claimed
unfolding claim
claim_bound limit worker types now ready rows =
    let matches = (take_matches limit types ready).0 in
    let few = take_matches_le limit types ready in
    let fewer =
      length-select_le
        (λ job. is_confirmed worker (lookup job.id (claim_rows matches worker now rows))) matches in
    (omega (arith, few, fewer), select_passes _ matches)

-- Two workers never get the same job: what one worker claims is not given to a different one by a later claim
-- on the table, from any queue, with any limit and types.
pub claim_excludes :
    (limit limit' : ℕ) (worker other : String) (types types' : Option (List String)) (now now' : ℕ)
    (ready ready' : List QueuedJobRef) (rows : JobRows)
    → worker ≢ other
    → let (claimed, remaining, rows') = claim limit worker types now ready rows in
      All (λ job. is_among job.id (claim limit' other types' now' ready' rows').0 ≡ false) claimed
unfolding claim
claim_excludes limit limit' worker other types types' now now' ready ready' rows ne =
    let rows' = (claim limit worker types now ready rows).2 in
    let matches' = (take_matches limit' types' ready').0 in
    All-map _ _ (claim limit worker types now ready rows).0
      (λ job mine.
        let kept = claim_rows_keeps matches' worker other job.id now' rows' mine in
        is_among-select
          (λ id. is_confirmed other (lookup id (claim_rows matches' other now' rows'))) job.id
          matches' (rw kept (confirmed_once worker other (lookup job.id rows') ne mine)))
      (claim_bound limit worker types now ready rows).1

-- A claim looks at every job of the queue once: for every test, as many of the jobs that it takes out
-- and of those that it leaves pass it as of those that were in the queue.
pub claim-count :
    (p : QueuedJobRef → Bool) (limit : ℕ) (worker : String) (types : Option (List String)) (now : ℕ)
    (ready : List QueuedJobRef) (rows : JobRows)
    → count_if p (take_matches limit types ready).0
        + count_if p (claim limit worker types now ready rows).1
      ≡ count_if p ready
unfolding claim
claim-count p limit worker types now ready rows = take_matches-count p limit types ready
