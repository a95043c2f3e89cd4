-- ===== src/Security/RateLimit.antt =====
-- src/lib/security/rate-limiter.ts, and its use for the public API in src/lib/rate-limit.ts.
-- The module-level `buckets` is passed along, and `Date.now()` is the argument `now`.
pub mod Windows
use Prim.Native.String.{◌++◌}
use provence.Prelude.{
  ℕ, suc, ◌+◌, String, Bool, true, false, Option, none, some, [], Map, lookup, insert, leb, ltb,
  if◌then◌else◌,
}

pub record Bucket : Type 0 where
  pub count : ℕ
  pub window_started_at : ℕ

abbrev pub Buckets : Type 0
Buckets = Map Bucket

-- `now - bucket.windowStartedAt >= windowMs`, written without a subtraction.
abbrev pub is_expired : ℕ → ℕ → Bucket → Bool
is_expired window_ms now bucket = leb (bucket.window_started_at + window_ms) now

-- What the handler does with the bucket it found.
unfoldable pub hit : ℕ → ℕ → ℕ → Option Bucket → Bool × Bucket
hit max_requests window_ms now none = (false, record { count = 1; window_started_at = now })
hit max_requests window_ms now (some bucket) =
    if is_expired window_ms now bucket
    then (false, record { count = 1; window_started_at = now })
    else (ltb max_requests (bucket.count + 1), record bucket { count = bucket.count + 1 })

-- `true` means that the request is refused.
unfoldable pub is_rate_limited : String → ℕ → ℕ → ℕ → Buckets → Bool × Buckets
unfolding hit
is_rate_limited key max_requests window_ms now buckets =
    let (refused, bucket) = hit max_requests window_ms now (lookup key buckets) in
    (refused, insert key bucket buckets)

unfoldable pub clear_rate_limit_buckets : Buckets → Buckets
clear_rate_limit_buckets buckets = []

abbrev pub public_api_max_requests_per_minute : ℕ
public_api_max_requests_per_minute = 60

abbrev pub public_api_window_ms : ℕ
public_api_window_ms = 60_000

pub data ApiError : Type 0 where
  too_many_requests : ApiError

-- `some` is the exception that the guard throws.
unfoldable pub assert_public_api_rate_limit_available :
    String → ℕ → Buckets → Option ApiError × Buckets
unfolding is_rate_limited
assert_public_api_rate_limit_available api_key_id now buckets =
    let (refused, buckets') =
      is_rate_limited ("public-api:" ++ api_key_id) public_api_max_requests_per_minute
        public_api_window_ms now buckets in
    (if refused then some too_many_requests else none, buckets')
