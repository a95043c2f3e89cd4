-- ===== src/Automation/TokenBucket.antt =====
-- src/lib/automation/concurrency/rate-limiter.ts. The source keeps a fraction of a token; here the
-- level of a bucket counts parts of a token, `interval_ms` parts to a token, so that every refill is a
-- whole number. `now` is `Date.now()`, which is taken not to go back, and intervals are positive.
pub mod Laws
use provence.Prelude.{
  ℕ, ◌+◌, ◌-◌, ◌*◌, min, String, Bool, true, false, Option, none, some, Map, [], lookup, insert,
  ltb, if◌then◌else◌,
}

pub record TokenBucket : Type 0 where
  pub capacity : ℕ
  pub interval_ms : ℕ
  pub level : ℕ
  pub last_refill_at : ℕ

abbrev pub TokenBuckets : Type 0
TokenBuckets = Map TokenBucket

-- The constructor of `TokenBucket`, with the arguments that `configure` gives it.
unfoldable pub new_bucket : ℕ → ℕ → ℕ → TokenBucket
new_bucket tokens_per_interval interval_ms now = record {
  capacity = tokens_per_interval;
  interval_ms = interval_ms;
  level = tokens_per_interval * interval_ms;
  last_refill_at = now;
}

unfoldable pub refill : ℕ → TokenBucket → TokenBucket
refill now bucket = record {
  capacity = bucket.capacity;
  interval_ms = bucket.interval_ms;
  level =
      min (bucket.capacity * bucket.interval_ms)
        (bucket.level + (now - bucket.last_refill_at) * bucket.capacity);
  last_refill_at = now;
}

abbrev pub take_tokens : ℕ → TokenBucket → TokenBucket
take_tokens count bucket = record {
  capacity = bucket.capacity;
  interval_ms = bucket.interval_ms;
  level = bucket.level - count * bucket.interval_ms;
  last_refill_at = bucket.last_refill_at;
}

-- `TokenBucket.tryConsume`
unfoldable pub consume : ℕ → ℕ → TokenBucket → Bool × TokenBucket
unfolding refill
consume count now bucket =
    let filled = refill now bucket in
    if ltb filled.level (count * filled.interval_ms)
    then (false, filled)
    else (true, take_tokens count filled)

unfoldable pub configure : String → ℕ → ℕ → ℕ → TokenBuckets → TokenBuckets
unfolding new_bucket insert
configure key tokens_per_interval interval_ms now buckets =
    insert key (new_bucket tokens_per_interval interval_ms now) buckets

unfoldable pub consume_found :
    String → ℕ → ℕ → Option TokenBucket → TokenBuckets → Bool × TokenBuckets
unfolding consume insert
consume_found key count now none buckets = (true, buckets)
consume_found key count now (some bucket) buckets =
    let (allowed, bucket') = consume count now bucket in (allowed, insert key bucket' buckets)

-- `RateLimiter.tryConsume`
unfoldable pub try_consume : String → ℕ → ℕ → TokenBuckets → Bool × TokenBuckets
unfolding lookup consume_found
try_consume key count now buckets = consume_found key count now (lookup key buckets) buckets

-- `RateLimiter.clear`
unfoldable pub clear : TokenBuckets → TokenBuckets
clear buckets = []
