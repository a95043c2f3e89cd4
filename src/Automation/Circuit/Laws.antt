-- ===== src/Automation/Circuit/Laws.antt =====
-- What the circuit breaker of src/lib/automation/retry/circuit-breaker.ts guarantees over a history
-- of its operations.
use provence.Prelude.{
  ℕ, ◌+◌, ◌≤◌, ◌<◌, String, ◌≡◌, refl, ◌≢◌, Bool, true, false, Option, none, some, List, [], ◌∷◌,
  ◌++◌, lookup, insert, lookup-insert_self, All, length, arith, leb,
}
use provence.Automation.Circuit.{
  closed, opened, half_open, CircuitBreaker, CircuitBreakerConfig, Breakers, probe, store,
  probe_found, succeed, fail, is_circuit_open, record_circuit_success, record_circuit_failure,
}

-- One call on the breaker, by any process.
pub data Call : Type 0 where
  ask success failure : Call

module _ (config : CircuitBreakerConfig) (key : String) where
  unfoldable pub apply : Call → ℕ → Breakers → Breakers
  apply ask now breakers = (is_circuit_open key now breakers).1
  apply success now breakers = record_circuit_success key breakers
  apply failure now breakers = record_circuit_failure key config none now breakers

  unfoldable pub run : List (Call × ℕ) → Breakers → Breakers
  run [] breakers = breakers
  run ((call, now) ∷ calls) breakers = run calls (apply call now breakers)

  -- The row of a key: a closed one has seen fewer failures in a row than the threshold, and any other
  -- at least as many; an open one has a time at which it is tried again.
  abbrev pub IsCoherent : Option CircuitBreaker → Type 0
  IsCoherent none = Unit
  IsCoherent (some b) =
      (b.state ≡ closed → b.failure_count < config.failure_threshold)
      × (b.state ≢ closed → config.failure_threshold ≤ b.failure_count)
      × (b.state ≡ opened → b.reset_at ≢ none)

  -- The row after a call, from the row before it.
  after_ask : Option CircuitBreaker → Option CircuitBreaker → Option CircuitBreaker
  after_ask none row = row
  after_ask (some b) row = some b

  row_after : Call → ℕ → Option CircuitBreaker → Option CircuitBreaker
  row_after ask now row = after_ask (probe_found now row).1 row
  row_after success now row = some (succeed row)
  row_after failure now row = some (fail config none now row)

  lookup-apply :
      (call : Call) (now : ℕ) (breakers : Breakers)
      → lookup key (apply call now breakers) ≡ row_after call now (lookup key breakers)
  unfolding apply row_after is_circuit_open record_circuit_success record_circuit_failure after_ask
  lookup-apply ask now breakers = store_probed (probe_found now (lookup key breakers)).1
    where
      store_probed :
          (write : Option CircuitBreaker)
          → lookup key (store key write breakers) ≡ after_ask write (lookup key breakers)
      store_probed none = refl
      store_probed (some b) = lookup-insert_self key b breakers
  lookup-apply success now breakers = lookup-insert_self key _ breakers
  lookup-apply failure now breakers = lookup-insert_self key _ breakers

  row_after-IsCoherent :
      (call : Call) (now : ℕ) (row : Option CircuitBreaker)
      → 0 < config.failure_threshold
      → IsCoherent row
      → IsCoherent (row_after call now row)
  unfolding row_after after_ask probe
  row_after-IsCoherent ask now none pos h = tt
  row_after-IsCoherent ask now (some b) pos h = ground arith
  row_after-IsCoherent success now none pos h = ground arith
  row_after-IsCoherent success now (some b) pos h = ground arith
  row_after-IsCoherent failure now none pos h = ground arith
  row_after-IsCoherent failure now (some b) pos h = ground arith

  -- When the threshold is positive: if a key's row is coherent or absent, it is so after any calls,
  -- in any order and by any number of processes. A closed row has seen fewer failures in a row than
  -- the threshold, any other at least as many, and an open one has a time at which it is tried
  -- again.
  pub run-IsCoherent :
      (calls : List (Call × ℕ)) (breakers : Breakers)
      → 0 < config.failure_threshold
      → IsCoherent (lookup key breakers)
      → IsCoherent (lookup key (run calls breakers))
  unfolding run
  run-IsCoherent [] breakers pos h = h
  run-IsCoherent ((call, now) ∷ calls) breakers pos h =
      run-IsCoherent calls (apply call now breakers) pos
        (rw lookup-apply (row_after-IsCoherent call now (lookup key breakers) pos h))

  abbrev IsOpenUntil : ℕ → Option CircuitBreaker → Type 0
  IsOpenUntil t none = ⊥
  IsOpenUntil t (some b) = (b.state ≡ opened) × (b.reset_at ≡ some t)

  IsOpenUntil-is_circuit_open :
      (t now : ℕ) (breakers : Breakers)
      → IsOpenUntil t (lookup key breakers)
      → now < t
      → is_circuit_open key now breakers ≡ (true, breakers)
  unfolding is_circuit_open
  IsOpenUntil-is_circuit_open t now breakers h lt = ground arith

  -- When the threshold is positive: after any calls on an empty table that leave the breaker open
  -- or half open, a failure (re)opens it for a whole timeout; every trial before the end of that
  -- timeout is blocked and changes nothing.
  pub failure_reopens :
      (calls : List (Call × ℕ)) (t now : ℕ) (b : CircuitBreaker)
      → 0 < config.failure_threshold
      → lookup key (run calls []) ≡ some b
      → b.state ≢ closed
      → now < t + config.reset_timeout_ms
      → let breakers = run ((failure, t) ∷ []) (run calls []) in
        is_circuit_open key now breakers ≡ (true, breakers)
  unfolding run row_after lookup
  failure_reopens calls t now b pos found ne lt =
      let coherent = run-IsCoherent calls [] pos tt in
      IsOpenUntil-is_circuit_open (t + config.reset_timeout_ms) now _
        (rw (lookup-apply, found) (reopened (rw found at coherent))) lt
    where
      reopened :
          IsCoherent (some b)
          → IsOpenUntil (t + config.reset_timeout_ms) (some (fail config none t (some b)))
      reopened h = ground arith

  unfoldable pub failures : List ℕ → List (Call × ℕ)
  failures [] = []
  failures (t ∷ ts) = (failure, t) ∷ failures ts

  -- A row that counts `c` failures, and is closed if they are too few.
  abbrev Counts : ℕ → Option CircuitBreaker → Type 0
  Counts c none = c ≡ 0
  Counts c (some b) = (b.failure_count ≡ c) × (c < config.failure_threshold → b.state ≡ closed)

  failure-Counts :
      (c now : ℕ) (row : Option CircuitBreaker)
      → Counts c row
      → Counts (c + 1) (row_after failure now row)
  unfolding row_after
  failure-Counts c now none h = ground arith
  failure-Counts c now (some b) h = ground arith

  -- The last failure settles whether the breaker is open.
  last_failure :
      (c t now : ℕ) (breakers : Breakers)
      → Counts c (lookup key breakers)
      → now < t + config.reset_timeout_ms
      → (is_circuit_open key now (apply failure t breakers)).0
        ≡ leb config.failure_threshold (c + 1)
  unfolding is_circuit_open row_after
  last_failure c t now breakers h lt = rw lookup-apply (split (lookup key breakers) h)
    where
      split :
          (row : Option CircuitBreaker)
          → Counts c row
          → (probe_found now (row_after failure t row)).0 ≡ leb config.failure_threshold (c + 1)
      split none k = ground arith
      split (some b) k = ground arith

  failures-Counts :
      (c t now : ℕ) (times : List ℕ) (breakers : Breakers)
      → Counts c (lookup key breakers)
      → now < t + config.reset_timeout_ms
      → (is_circuit_open key now (run (failures times ++ (failure, t) ∷ []) breakers)).0
        ≡ leb config.failure_threshold (c + length times + 1)
  unfolding run failures
  failures-Counts c t now [] breakers h lt = ground (arith, last_failure c t now breakers h lt)
  failures-Counts c t now (s ∷ times) breakers h lt = ground (
    arith,
    failures-Counts (c + 1) t now times (apply failure s breakers)
        (rw lookup-apply (failure-Counts c s (lookup key breakers) h)) lt,
  )

  -- When the threshold is positive: after a success that is followed by failures only, a trial
  -- before the timeout after the last of them is blocked exactly if there are at least as many
  -- failures as the threshold, whatever came before the success.
  pub success-failures :
      (s t now : ℕ) (times : List ℕ) (breakers : Breakers)
      → 0 < config.failure_threshold
      → now < t + config.reset_timeout_ms
      → (is_circuit_open key now
          (run ((success, s) ∷ (failures times ++ (failure, t) ∷ [])) breakers)).0
        ≡ leb config.failure_threshold (length times + 1)
  unfolding run row_after
  success-failures s t now times breakers pos lt =
      let step =
        failures-Counts 0 t now times (apply success s breakers)
          (rw lookup-apply (reset (lookup key breakers))) lt in
      ground (arith, step)
    where
      reset : (row : Option CircuitBreaker) → Counts 0 (some (succeed row))
      reset none = (refl, λ _. refl)
      reset (some b) = (refl, λ _. refl)

  -- The answers to trials at the given times, with no result recorded in between.
  unfoldable pub answers : List ℕ → Breakers → List Bool
  answers [] breakers = []
  answers (now ∷ times) breakers =
      let (blocked, breakers') = is_circuit_open key now breakers in
      blocked ∷ answers times breakers'

  half_open-answers :
      (times : List ℕ) (breakers : Breakers) (b : CircuitBreaker)
      → lookup key breakers ≡ some b
      → b.state ≡ half_open
      → All (λ blocked. blocked ≡ false) (answers times breakers)
  unfolding answers is_circuit_open
  half_open-answers [] breakers b found half = tt
  half_open-answers (now ∷ times) breakers b found half =
      rw (found, half) (refl, half_open-answers times breakers b found half)

  due-is_circuit_open :
      (now reset_at : ℕ) (breakers : Breakers) (b : CircuitBreaker)
      → lookup key breakers ≡ some b
      → b.state ≡ opened
      → b.reset_at ≡ some reset_at
      → reset_at ≤ now
      → is_circuit_open key now breakers
        ≡ (false, insert key (record b { state = half_open }) breakers)
  unfolding is_circuit_open
  due-is_circuit_open now reset_at breakers b found o r le = ground arith

  -- At and after the reset time of an open breaker, every trial in a row passes as long as no
  -- result is recorded, and not the first alone.
  pub due-answers :
      (now reset_at : ℕ) (times : List ℕ) (breakers : Breakers) (b : CircuitBreaker)
      → lookup key breakers ≡ some b
      → b.state ≡ opened
      → b.reset_at ≡ some reset_at
      → reset_at ≤ now
      → All (λ blocked. blocked ≡ false) (answers (now ∷ times) breakers)
  unfolding answers
  due-answers now reset_at times breakers b found o r le =
      let half = record b { state = half_open } in
      rw (due-is_circuit_open now reset_at breakers b found o r le) (
        refl,
        half_open-answers times (insert key half breakers) half
            (lookup-insert_self key half breakers) refl,
      )
