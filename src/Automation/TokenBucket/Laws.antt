-- ===== src/Automation/TokenBucket/Laws.antt =====
-- The rate that a bucket of src/lib/automation/concurrency/rate-limiter.ts enforces.
use provence.Prelude.{
  ℕ, ◌+◌, ◌-◌, ◌*◌, ◌≤◌, min, ◌≡◌, refl, true, false, List, [], ◌∷◌, ltb, leb→le, if◌then◌else◌,
  arith, ◌⊎◌, inl, inr, Bool-cases,
}
use native.Mathlib.Nat.{add-mul, mul-add, mul_comm}
use provence.Automation.TokenBucket.{TokenBucket, new_bucket, refill, consume}

-- The tokens that calls take, each a number of tokens and a time.
unfoldable pub taken : List (ℕ × ℕ) → TokenBucket → ℕ
taken [] bucket = 0
taken ((count, now) ∷ calls) bucket =
    let (allowed, bucket') = consume count now bucket in
    let rest = taken calls bucket' in if allowed then count + rest else rest

-- The times do not go back and stay at or before `last`.
abbrev pub Ordered : ℕ → ℕ → List (ℕ × ℕ) → Type 0
Ordered start last [] = start ≤ last
Ordered start last ((count, now) ∷ calls) = (start ≤ now) × Ordered now last calls

abbrev bucket_of : ℕ → ℕ → ℕ → ℕ → TokenBucket
bucket_of capacity interval level start = record {
  capacity = capacity;
  interval_ms = interval;
  level = level;
  last_refill_at = start;
}

-- A call leaves a bucket with `level` parts: it took none, or it took its tokens from what the
-- elapsed time had made of the level.
Consumed : ℕ → ℕ → ℕ → ℕ → ℕ → ℕ → ℕ → Type 0
Consumed capacity interval before start count now after =
    ((consume count now (bucket_of capacity interval before start)
        ≡ (false, bucket_of capacity interval after now))
      × (after ≤ before + (now - start) * capacity))
    ⊎ ((consume count now (bucket_of capacity interval before start)
          ≡ (true, bucket_of capacity interval after now))
        × (after + count * interval ≤ before + (now - start) * capacity))

consume-cases :
    (capacity interval before start count now : ℕ)
    → (after : ℕ) × Consumed capacity interval before start count now after
unfolding consume refill Consumed
consume-cases capacity interval before start count now =
    let filled = min (capacity * interval) (before + (now - start) * capacity) in
    elim (Bool-cases (ltb filled (count * interval))) [
      | inl less ↦ (filled, inl (rw less refl, omega arith))
      | inr enough ↦ (
        filled - count * interval,
        inr (rw enough refl, ground (arith, leb→le (count * interval) filled)),
      )
    ]

split_time :
    (start now last capacity : ℕ)
    → start ≤ now
    → now ≤ last
    → (last - start) * capacity ≡ (now - start) * capacity + (last - now) * capacity
split_time start now last capacity h k =
    let e : last - start ≡ (now - start) + (last - now) = omega arith in
    rw e (add-mul (now - start) (last - now) capacity)

Ordered-le : (start last : ℕ) (calls : List (ℕ × ℕ)) → Ordered start last calls → start ≤ last
Ordered-le start last [] h = h
Ordered-le start last ((count, now) ∷ calls) (h, hs) =
    let k = Ordered-le now last calls hs in omega arith

taken_bound :
    (calls : List (ℕ × ℕ)) (last capacity interval level start : ℕ)
    → Ordered start last calls
    → taken calls (bucket_of capacity interval level start) * interval
      ≤ level + (last - start) * capacity
unfolding taken Consumed
taken_bound [] last capacity interval level start h = omega arith
taken_bound ((count, now) ∷ calls) last capacity interval level start (h, hs) =
    let (after, cases) = consume-cases capacity interval level start count now in
    let rest = taken_bound calls last capacity interval after now hs in
    let time = split_time start now last capacity h (Ordered-le now last calls hs) in
    elim cases [
      | inl (e, le) ↦ rw e (omega (arith, rest, time, le))
      | inr (e, le) ↦ rw e (
          omega (
            arith,
            rest,
            time,
            le,
            add-mul count (taken calls (bucket_of capacity interval after now)) interval,
          ))
    ]

-- Calls whose times do not go back and are in a span from the bucket's configuration to `last` take
-- from it at most one full capacity and what the rate of `capacity` tokens per interval makes in
-- the span: the tokens taken, times the interval, are at most the capacity times the sum of the
-- interval and the span.
pub taken_at_rate :
    (calls : List (ℕ × ℕ)) (capacity interval start last : ℕ)
    → Ordered start last calls
    → taken calls (new_bucket capacity interval start) * interval
      ≤ capacity * (interval + (last - start))
unfolding new_bucket
taken_at_rate calls capacity interval start last h = omega (
  arith,
  taken_bound calls last capacity interval (capacity * interval) start h,
  mul-add capacity interval (last - start),
  mul_comm capacity (last - start),
)
