-- ===== src/Automation/Circuit.antt =====
-- src/lib/automation/retry/circuit-breaker.ts. The table `AutomationCircuitBreaker` is a map from the
-- unique `key` to its row; `Date.now()` is the argument `now`, read once by each call.
pub mod Laws
use provence.Prelude.{
  ℕ, ◌+◌, String, Bool, true, false, Option, none, some, Map, lookup, insert, leb, if◌then◌else◌,
}

pub data CircuitState : Type 0 where
  closed opened half_open : CircuitState

pub record CircuitBreaker : Type 0 where
  pub automation_id : Option String
  pub state : CircuitState
  pub failure_count : ℕ
  pub last_failure_at : Option ℕ
  pub opened_at : Option ℕ
  pub reset_at : Option ℕ

pub record CircuitBreakerConfig : Type 0 where
  pub failure_threshold : ℕ
  pub reset_timeout_ms : ℕ

abbrev pub default_circuit_breaker_config : CircuitBreakerConfig
default_circuit_breaker_config = record { failure_threshold = 5; reset_timeout_ms = 60_000 }

abbrev pub Breakers : Type 0
Breakers = Map CircuitBreaker

abbrev pub is_due : ℕ → Option ℕ → Bool
is_due now none = false
is_due now (some reset_at) = leb reset_at now

-- The answer for a row that was found, and the row to write, if any.
unfoldable pub probe : ℕ → CircuitState → CircuitBreaker → Bool × Option CircuitBreaker
probe now closed breaker = (false, none)
probe now opened breaker =
    if is_due now breaker.reset_at
    then (false, some (record breaker { state = half_open }))
    else (true, none)
probe now half_open breaker = (false, none)

abbrev pub store : String → Option CircuitBreaker → Breakers → Breakers
store key none breakers = breakers
store key (some breaker) breakers = insert key breaker breakers

abbrev pub probe_found : ℕ → Option CircuitBreaker → Bool × Option CircuitBreaker
unfolding probe
probe_found now none = (false, none)
probe_found now (some breaker) = probe now breaker.state breaker

unfoldable pub is_circuit_open : String → ℕ → Breakers → Bool × Breakers
unfolding probe
is_circuit_open key now breakers =
    let (blocked, write) = probe_found now (lookup key breakers) in
    (blocked, store key write breakers)

-- The columns' defaults of the schema, for a row that is created.
abbrev pub blank : CircuitBreaker
blank = record {
  automation_id = none;
  state = closed;
  failure_count = 0;
  last_failure_at = none;
  opened_at = none;
  reset_at = none;
}

abbrev pub succeed : Option CircuitBreaker → CircuitBreaker
succeed none = blank
succeed (some breaker) = record breaker {
  state = closed;
  failure_count = 0;
  opened_at = none;
  reset_at = none;
}

unfoldable pub record_circuit_success : String → Breakers → Breakers
record_circuit_success key breakers = insert key (succeed (lookup key breakers)) breakers

-- The `shouldOpen` part that both arms of the `upsert` share.
abbrev pub trip : CircuitBreakerConfig → ℕ → Bool → CircuitBreaker → CircuitBreaker
trip config now should_open breaker =
    if should_open
    then record breaker {
      state = opened;
      opened_at = some now;
      reset_at = some (now + config.reset_timeout_ms);
    }
    else breaker

abbrev pub fail : CircuitBreakerConfig → Option String → ℕ → Option CircuitBreaker → CircuitBreaker
fail config automation_id now none =
    trip config now (leb config.failure_threshold 1) (record blank {
      automation_id = automation_id;
      failure_count = 1;
      last_failure_at = some now;
    })
fail config automation_id now (some existing) =
    trip config now (leb config.failure_threshold (existing.failure_count + 1))
      (record existing { failure_count = existing.failure_count + 1; last_failure_at = some now })

unfoldable pub record_circuit_failure :
    String → CircuitBreakerConfig → Option String → ℕ → Breakers → Breakers
record_circuit_failure key config automation_id now breakers =
    insert key (fail config automation_id now (lookup key breakers)) breakers
