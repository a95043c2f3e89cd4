-- ===== src/Automation/Scheduler/Next.antt =====
-- The next minute that matches: `getNextScheduledRun` of
-- src/lib/automation/scheduler/schedule-engine.ts and `getNextCronRun` of
-- src/lib/workflows/triggers/cron.ts.
use provence.Prelude.{
  ℕ, zero, suc, ◌+◌, ◌*◌, ◌%◌, ◌≤◌, ◌<◌, ◌≡◌, refl, subst, if◌then◌else◌, Bool, true, false, Option,
  none, some, arith,
}
use provence.Automation.Scheduler.{
  Outcome, ok, throws, endless, ◌>>=◌, search, next_match, next_minute, minute_ms,
  max_lookahead_minutes,
}

-- The candidates before the k-th do not match.
abbrev pub NoneBefore : (ℕ → Outcome Bool) → ℕ → ℕ → Type 0
NoneBefore test start k = (i : ℕ) → i < k → test (start + i * minute_ms) ≡ ok false

-- What a search that returns has found.
abbrev pub Found : (ℕ → Outcome Bool) → ℕ → ℕ → Option ℕ → Type 0
Found test start rounds none = NoneBefore test start rounds
Found test start rounds (some t) =
    (k : ℕ) × (k < rounds)
    × (t ≡ start + k * minute_ms)
    × (test t ≡ ok true)
    × NoneBefore test start k

NoneBefore-step :
    (test : ℕ → Outcome Bool) (start k : ℕ)
    → test start ≡ ok false
    → NoneBefore test (start + minute_ms) k
    → NoneBefore test start (suc k)
NoneBefore-step test start k h hs zero lt =
    rw (let e : start + 0 * minute_ms ≡ start = omega arith in e) h
NoneBefore-step test start k h hs (suc i) lt =
    rw (let e : start + suc i * minute_ms ≡ start + minute_ms + i * minute_ms = omega arith in e)
      (hs i (omega arith))

Found-step :
    (test : ℕ → Outcome Bool) (start rounds : ℕ) (o : Option ℕ)
    → test start ≡ ok false
    → Found test (start + minute_ms) rounds o
    → Found test start (suc rounds) o
Found-step test start rounds none h f = NoneBefore-step test start rounds h f
Found-step test start rounds (some t) h (k, lt, at, match, before) =
    (suc k, omega arith, omega arith, match, NoneBefore-step test start k h before)

round-Found :
    (test : ℕ → Outcome Bool) (start left : ℕ) (o : Option ℕ) (rest : Outcome (Option ℕ))
    (r : Outcome Bool)
    → test start ≡ r
    → (r >>= λ found. if found then ok (some start) else rest) ≡ ok o
    → (rest ≡ ok o → Found test (start + minute_ms) left o)
    → Found test start (suc left) o
round-Found test start left o rest throws e h later = absurd (ground arith)
round-Found test start left o rest endless e h later = absurd (ground arith)
round-Found test start left o rest (ok false) e h later = Found-step test start left o e (later h)
round-Found test start left o rest (ok true) e h later =
    let same : some start ≡ o = cc in
    subst (Found test start (suc left)) same
      (0, omega arith, omega arith, e, λ i lt. absurd (omega arith))

search-Found :
    (test : ℕ → Outcome Bool) (rounds start : ℕ) (o : Option ℕ)
    → search test rounds start ≡ ok o
    → Found test start rounds o
unfolding search
search-Found test zero start o h =
    let same : none ≡ o = cc in subst (Found test start 0) same (λ i lt. absurd (omega arith))
search-Found test (suc left) start o h =
    round-Found test start left o (search test left (start + minute_ms)) (test start) refl h
      (search-Found test left (start + minute_ms) o)

-- A test that throws at the first candidate makes the search throw.
pub search_throws :
    (test : ℕ → Outcome Bool) (rounds start : ℕ)
    → 0 < rounds
    → test start ≡ throws
    → search test rounds start ≡ throws
unfolding search
search_throws test zero start lt h = absurd (omega arith)
search_throws test (suc left) start lt h = rw (h, search) refl

-- The test answers at the candidates of a search.
abbrev pub AnswersAt : (ℕ → Outcome Bool) → ℕ → ℕ → Type 0
AnswersAt test start rounds =
    (i : ℕ) → i < rounds → (b : Bool) × (test (start + i * minute_ms) ≡ ok b)

AnswersAt-first :
    (test : ℕ → Outcome Bool) (start left : ℕ)
    → AnswersAt test start (suc left)
    → (b : Bool) × (test start ≡ ok b)
AnswersAt-first test start left total =
    subst (λ t. (b : Bool) × (test t ≡ ok b))
      (let e : start + 0 * minute_ms ≡ start = omega arith in e) (total 0 (omega arith))

AnswersAt-later :
    (test : ℕ → Outcome Bool) (start left : ℕ)
    → AnswersAt test start (suc left)
    → AnswersAt test (start + minute_ms) left
AnswersAt-later test start left total i lt =
    subst (λ t. (b : Bool) × (test t ≡ ok b))
      (let e : start + suc i * minute_ms ≡ start + minute_ms + i * minute_ms = omega arith in e)
      (total (suc i) (omega arith))

-- A test that answers at every candidate makes the search return.
search-ok :
    (test : ℕ → Outcome Bool) (rounds start : ℕ)
    → AnswersAt test start rounds
    → (o : Option ℕ) × (search test rounds start ≡ ok o)
unfolding search
search-ok test zero start total = (none, refl)
search-ok test (suc left) start total =
    let (o, rest) =
      search-ok test left (start + minute_ms) (AnswersAt-later test start left total) in
    let (b, answer) = AnswersAt-first test start left total in answered start left o b rest answer
  where
    answered :
        (start left : ℕ) (o : Option ℕ) (b : Bool)
        → search test left (start + minute_ms) ≡ ok o
        → test start ≡ ok b
        → (o : Option ℕ) × (search test (suc left) start ≡ ok o)
    answered start left o true rest answer = (some start, rw (answer, search) refl)
    answered start left o false rest answer = (o, rw (answer, search) rest)

-- If the test answers at every candidate, the search for the next run returns. A time that it returns is the
-- first of the full minutes after `after` that match; if it returns none, no minute of the 366 days
-- from the next one on matches.
pub next_match-Found :
    (test : ℕ → Outcome Bool) (after : ℕ)
    → AnswersAt test (next_minute after) max_lookahead_minutes
    → (o : Option ℕ) × (next_match test after ≡ ok o)
      × (next_minute after % minute_ms ≡ 0)
      × (after < next_minute after)
      × (next_minute after ≤ after + minute_ms)
      × Found test (next_minute after) max_lookahead_minutes o
unfolding next_match
next_match-Found test after total =
    let (o, e) = search-ok test max_lookahead_minutes (next_minute after) total in
    (
      o,
      e,
      omega arith,
      omega arith,
      omega arith,
      search-Found test max_lookahead_minutes (next_minute after) o e,
    )
