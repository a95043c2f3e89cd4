-- ===== src/Security/RateLimit/Windows.antt =====
-- How many requests the limiter of src/lib/security/rate-limiter.ts lets through.
use provence.Prelude.{
  ℕ, zero, suc, ◌+◌, ◌-◌, ◌<◌, min, String, ◌≡◌, refl, sym, ◌∙◌, inl, inr, true, false, Option,
  none, some, List, [], ◌∷◌, ◌++◌, lookup, insert, lookup-insert, lookup-insert_self, not, ◌&&◌,
  All, All-replicate, length, length-replicate, replicate, arith, ltb, if◌then◌else◌, str_eq,
  eq_iff, Bool-cases,
}
use mathlib.Core.List.{append-nil}
use native.Mathlib.Nat.{add-zero}
use provence.Security.RateLimit.{Bucket, Buckets, is_expired, hit, is_rate_limited}

-- The number of requests for one key that pass, at the given times, one after another.
unfoldable pub allowed : String → ℕ → ℕ → List ℕ → Buckets → ℕ
allowed key most window [] buckets = 0
allowed key most window (now ∷ times) buckets =
    let (refused, buckets') = is_rate_limited key most window now buckets in
    let rest = allowed key most window times buckets' in if refused then rest else suc rest

-- No bucket, or one whose window is over.
abbrev pub IsFresh : ℕ → ℕ → Option Bucket → Type 0
IsFresh window now none = Unit
IsFresh window now (some bucket) = is_expired window now bucket ≡ true

abbrev opened : ℕ → ℕ → Bucket
opened c start = record { count = c; window_started_at = start }

fresh-is_rate_limited :
    (key : String) (most window now : ℕ) (buckets : Buckets)
    → IsFresh window now (lookup key buckets)
    → is_rate_limited key most window now buckets ≡ (false, insert key (opened 1 now) buckets)
unfolding is_rate_limited
fresh-is_rate_limited key most window now buckets h = ground arith

inside-is_rate_limited :
    (key : String) (most window now c start : ℕ) (buckets : Buckets)
    → lookup key buckets ≡ some (opened c start)
    → now < start + window
    → is_rate_limited key most window now buckets
      ≡ (ltb most (c + 1), insert key (opened (c + 1) start) buckets)
unfolding is_rate_limited
inside-is_rate_limited key most window now c start buckets h lt = ground arith

-- Within the window of a bucket that counts `c` requests, exactly `most - c` more pass, and the
-- bucket keeps the start of its window.
allowed_inside :
    (key : String) (most window : ℕ) (times later : List ℕ) (buckets : Buckets) (c start : ℕ)
    → lookup key buckets ≡ some (opened c start)
    → All (λ now. now < start + window) times
    → (buckets' : Buckets) × (lookup key buckets' ≡ some (opened (c + length times) start))
      × (allowed key most window (times ++ later) buckets
          ≡ min (length times) (most - c) + allowed key most window later buckets')
unfolding allowed
allowed_inside key most window [] later buckets c start h a = (buckets, ground arith, omega arith)
allowed_inside key most window (now ∷ times) later buckets c start h (lt, a) =
    let step = inside-is_rate_limited key most window now c start buckets h lt in
    let next = insert key (opened (c + 1) start) buckets in
    let (buckets', found, count) =
      allowed_inside key most window times later next (c + 1) start
        (lookup-insert_self key _ buckets) a in
    (buckets', ground arith, rw (step, allowed) (ground (arith, count)))

-- From a fresh bucket on, the first request always passes, and the others of its window while the
-- count is at most `most`.
allowed_window :
    (key : String) (most window now : ℕ) (times later : List ℕ) (buckets : Buckets)
    → IsFresh window now (lookup key buckets)
    → All (λ t. t < now + window) times
    → (buckets' : Buckets) × (lookup key buckets' ≡ some (opened (1 + length times) now))
      × (allowed key most window (now ∷ times ++ later) buckets
          ≡ suc (min (length times) (most - 1)) + allowed key most window later buckets')
unfolding allowed
allowed_window key most window now times later buckets h a =
    let step = fresh-is_rate_limited key most window now buckets h in
    let (buckets', found, count) =
      allowed_inside key most window times later (insert key (opened 1 now) buckets) 1 now
        (lookup-insert_self key _ buckets) a in
    (buckets', found, rw (step, allowed) (ground (arith, count)))

-- Of the requests for one key in one window, opened by the first of them where no unexpired window
-- is open, exactly the first `most` pass (but at least one: a limit of 0 does not stop the request
-- that opens the window).
pub allowed_in_window :
    (key : String) (most window now : ℕ) (times : List ℕ) (buckets : Buckets)
    → IsFresh window now (lookup key buckets)
    → All (λ t. t < now + window) times
    → allowed key most window (now ∷ times) buckets ≡ suc (min (length times) (most - 1))
unfolding allowed
allowed_in_window key most window now times buckets h a =
    let (buckets', found, count) = allowed_window key most window now times [] buckets h a in
    (rw append-nil at count) ∙ add-zero _

-- The window is fixed and not sliding: for a positive limit and window, and where no unexpired
-- window is open, twice `most` requests pass, all but one of them within two milliseconds, if they
-- come at the last millisecond of one window and the first of the next.
pub allowed_burst :
    (key : String) (most window now : ℕ) (buckets : Buckets)
    → IsFresh window now (lookup key buckets)
    → 0 < most
    → 0 < window
    → allowed key most window
        (now ∷ replicate (most - 1) (now + window - 1) ++ replicate most (now + window))
        buckets
      ≡ most + most
allowed_burst key zero window now buckets h m w = elim m [ ]
allowed_burst key (suc k) window now buckets h m w =
    let late = now + window - 1 in
    let next = now + window in
    let e : suc k - 1 ≡ k = omega arith in
    let (buckets', found, count) =
      allowed_window key (suc k) window now (replicate k late) (replicate (suc k) next) buckets h
        (All-replicate (λ t. t < now + window) k late (omega arith)) in
    let count' =
      allowed_in_window key (suc k) window next (replicate k next) buckets'
        (rw found (ground arith)) (All-replicate (λ t. t < next + window) k next (omega arith)) in
    rw e (omega (arith, count, count', length-replicate k late, length-replicate k next))

-- The requests of one key, in a log of requests for all keys.
unfoldable pub times_of : String → List (String × ℕ) → List ℕ
times_of key [] = []
times_of key ((k, now) ∷ log) =
    let rest = times_of key log in if str_eq k key then now ∷ rest else rest

-- How many requests for `key` pass when the limiter serves the whole log.
unfoldable pub served : String → ℕ → ℕ → List (String × ℕ) → Buckets → ℕ
served key most window [] buckets = 0
served key most window ((k, now) ∷ log) buckets =
    let (refused, buckets') = is_rate_limited k most window now buckets in
    let rest = served key most window log buckets' in
    if str_eq k key && not refused then suc rest else rest

-- Only the key's own bucket matters.
allowed_of_lookup :
    (key : String) (most window : ℕ) (times : List ℕ) (buckets buckets' : Buckets)
    → lookup key buckets ≡ lookup key buckets'
    → allowed key most window times buckets ≡ allowed key most window times buckets'
unfolding allowed is_rate_limited
allowed_of_lookup key most window [] buckets buckets' e = refl
allowed_of_lookup key most window (now ∷ times) buckets buckets' e =
    let same =
      allowed_of_lookup key most window times
        (insert key (hit most window now (lookup key buckets)).1 buckets)
        (insert key (hit most window now (lookup key buckets)).1 buckets')
        (lookup-insert_self key _ buckets ∙ sym (lookup-insert_self key _ buckets')) in
    rw (← e) (rw same)

other_key-allowed :
    (key k : String) (most window now : ℕ) (times : List ℕ) (buckets : Buckets)
    → str_eq k key ≡ false
    → allowed key most window times (is_rate_limited k most window now buckets).1
      ≡ allowed key most window times buckets
unfolding is_rate_limited
other_key-allowed key k most window now times buckets h =
    allowed_of_lookup key most window times _ buckets (rw lookup-insert (rw h refl))

-- Requests for other keys, however they are interleaved, do not change how many requests for a key
-- pass.
pub served_alone :
    (key : String) (most window : ℕ) (log : List (String × ℕ)) (buckets : Buckets)
    → served key most window log buckets ≡ allowed key most window (times_of key log) buckets
unfolding served times_of allowed
served_alone key most window [] buckets = refl
served_alone key most window ((k, now) ∷ log) buckets = elim (Bool-cases (str_eq k key)) [
  | inl same ↦ ground (
    arith,
    same,
    eq_iff k key,
    served_alone key most window log (is_rate_limited k most window now buckets).1,
  )
  | inr other ↦ ground (
    arith,
    other,
    served_alone key most window log (is_rate_limited k most window now buckets).1,
    other_key-allowed key k most window now (times_of key log) buckets other,
  )
]
