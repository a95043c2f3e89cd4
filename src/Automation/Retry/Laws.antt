-- ===== src/Automation/Retry/Laws.antt =====
-- What the policies of src/lib/automation/retry/retry-engine.ts promise.
use provence.Prelude.{
  ℕ, zero, suc, ◌-◌, ◌*◌, ◌^◌, ◌≤◌, ◌<◌, min, String, ◌≡◌, Bool, true, false, Option, none, some,
  if◌then◌else◌, arith,
}
use provence.Workflow.Rule.{Rule}
use provence.Workflow.Evaluator.{Host}
use provence.Automation.Graph.{BackoffStrategy, RetryPolicy}
use provence.Automation.Retry.{
  RetryResult, decided, or_default, default_max_delay_ms, exponential_delay, linear_delay,
  evaluate_condition_rule, decide, decide_limited, is_over, decide_answer, decide_conditional,
  decide_by, decide_retry,
}

-- The number of attempts that a policy allows; `none` is no bound.
abbrev pub cap_of : BackoffStrategy → Option ℕ → Option ℕ
cap_of BackoffStrategy.manual most = some 0
cap_of BackoffStrategy.immediate most = some (or_default 3 most)
cap_of BackoffStrategy.infinite most = none
cap_of BackoffStrategy.limited most = most
cap_of _ most = some (or_default 5 most)

abbrev pub Delays : ℕ → RetryResult → Type 0
Delays most (decided d) = d.delay_ms ≤ most
Delays most _ = Unit

-- Another attempt is made only below the cap.
abbrev pub Below : ℕ → Option ℕ → RetryResult → Type 0
Below attempt (some most) (decided d) = d.should_retry ≡ true → attempt < most
Below attempt _ _ = Unit

module _ (host : Host) (random : ℕ → ℕ) where
  exponential_bound :
      ((raw : ℕ) → random raw ≤ raw)
      → (attempt base most : ℕ) (jitter : Bool)
      → exponential_delay random attempt base most jitter ≤ most
  unfolding exponential_delay
  exponential_bound h attempt base most true =
      omega (arith, h (min (base * 2 ^ (attempt - 1)) most))
  exponential_bound h attempt base most false = omega arith

  linear_bound : (attempt base most : ℕ) → linear_delay attempt base most ≤ most
  unfolding linear_delay
  linear_bound attempt base most = omega arith

  limited_delay :
      (attempt delay bound : ℕ) (most : Option ℕ)
      → delay ≤ bound
      → Delays bound (decide_limited attempt delay most)
  limited_delay attempt delay bound none h = tt
  limited_delay attempt delay bound (some zero) h = tt
  limited_delay attempt delay bound (some (suc n)) h = h

  over_delay :
      (delay bound : ℕ) (over : Bool)
      → delay ≤ bound
      → Delays bound (if over then decide false 0 else decide true delay)
  over_delay delay bound true h = omega arith
  over_delay delay bound false h = h

  answer_delay :
      (attempt most delay bound : ℕ) (answer : Option Bool)
      → delay ≤ bound
      → Delays bound (decide_answer attempt most delay answer)
  answer_delay attempt most delay bound none h = tt
  answer_delay attempt most delay bound (some true) h = h
  answer_delay attempt most delay bound (some false) h = omega arith

  conditional_delay :
      (attempt most delay bound : ℕ) (message : String) (rule : Option Rule)
      → delay ≤ bound
      → Delays bound (decide_conditional host attempt most delay message rule)
  conditional_delay attempt most delay bound message none h = tt
  conditional_delay attempt most delay bound message (some rule) h =
      answer_delay attempt most delay bound (evaluate_condition_rule host rule message) h

  decide_by_delay :
      ((raw : ℕ) → random raw ≤ raw)
      → (strategy : BackoffStrategy) (policy : RetryPolicy) (attempt : ℕ) (message : String)
        (first now : ℕ)
      → Delays
          (or_default default_max_delay_ms policy.max_delay_ms)
          (decide_by host random strategy policy attempt message first now)
  unfolding decide_by
  decide_by_delay h BackoffStrategy.manual policy attempt message first now = omega arith
  decide_by_delay h BackoffStrategy.immediate policy attempt message first now = omega arith
  decide_by_delay h BackoffStrategy.linear policy attempt message first now =
      linear_bound attempt _ _
  decide_by_delay h BackoffStrategy.exponential policy attempt message first now =
      exponential_bound h attempt _ _ _
  decide_by_delay h BackoffStrategy.limited policy attempt message first now =
      limited_delay attempt _ _ policy.max_attempts (exponential_bound h attempt _ _ _)
  decide_by_delay h BackoffStrategy.infinite policy attempt message first now =
      over_delay _ _ (is_over first now policy.max_duration_ms) (exponential_bound h attempt _ _ _)
  decide_by_delay h BackoffStrategy.conditional policy attempt message first now =
      conditional_delay attempt _ _ _ message policy.condition_rule
        (exponential_bound h attempt _ _ _)

  -- When `random raw` is at most `raw` for every `raw`, the delay of every decision is at most the
  -- policy's `maxDelayMs`, five minutes by default, for every strategy, attempt, error and clock.
  pub decide_retry_delay :
      ((raw : ℕ) → random raw ≤ raw)
      → (policy : RetryPolicy) (attempt : ℕ) (message : String) (first now : ℕ)
      → Delays
          (or_default default_max_delay_ms policy.max_delay_ms)
          (decide_retry host random policy attempt message first now)
  unfolding decide_retry
  decide_retry_delay h policy = decide_by_delay h policy.strategy policy

  limited_stops :
      (attempt delay : ℕ) (most : Option ℕ) → Below attempt most (decide_limited attempt delay most)
  limited_stops attempt delay none = tt
  limited_stops attempt delay (some zero) = tt
  limited_stops attempt delay (some (suc n)) = λ h. ground arith

  answer_stops :
      (attempt delay most : ℕ) (answer : Option Bool)
      → Below attempt (some most) (decide_answer attempt most delay answer)
  answer_stops attempt delay most none = tt
  answer_stops attempt delay most (some true) = λ h. ground arith
  answer_stops attempt delay most (some false) = λ h. ground arith

  conditional_stops :
      (attempt delay most : ℕ) (message : String) (rule : Option Rule)
      → Below attempt (some most) (decide_conditional host attempt most delay message rule)
  conditional_stops attempt delay most message none = tt
  conditional_stops attempt delay most message (some rule) =
      answer_stops attempt delay most (evaluate_condition_rule host rule message)

  decide_by_stops :
      (strategy : BackoffStrategy) (policy : RetryPolicy) (attempt : ℕ) (message : String)
      (first now : ℕ)
      → Below attempt
          (cap_of strategy policy.max_attempts)
          (decide_by host random strategy policy attempt message first now)
  unfolding decide_by
  decide_by_stops BackoffStrategy.manual policy attempt message first now = λ h. ground arith
  decide_by_stops BackoffStrategy.immediate policy attempt message first now = λ h. ground arith
  decide_by_stops BackoffStrategy.linear policy attempt message first now = λ h. ground arith
  decide_by_stops BackoffStrategy.exponential policy attempt message first now = λ h. ground arith
  decide_by_stops BackoffStrategy.limited policy attempt message first now =
      limited_stops attempt _ policy.max_attempts
  decide_by_stops BackoffStrategy.infinite policy attempt message first now = tt
  decide_by_stops BackoffStrategy.conditional policy attempt message first now =
      conditional_stops attempt _ _ message policy.condition_rule

  -- Every strategy but "infinite" has a cap on the attempts, given or by default, and no attempt is
  -- retried at or above it. The cap of "manual" is 0: it retries none.
  pub decide_retry_stops :
      (policy : RetryPolicy) (attempt : ℕ) (message : String) (first now : ℕ)
      → Below attempt
          (cap_of policy.strategy policy.max_attempts)
          (decide_retry host random policy attempt message first now)
  unfolding decide_retry
  decide_retry_stops policy = decide_by_stops policy.strategy policy
