-- ===== src/Tests/Retry.antt =====
-- src/lib/automation/retry/retry-engine.ts on concrete policies.
use provence.Prelude.{ℕ, ◌*◌, ◌/◌, ◌≤◌, ◌≡◌, refl, true, none, some, arith}
use provence.Automation.Graph.{BackoffStrategy, RetryPolicy}
use provence.Automation.Retry.{decide, decide_retry}
use provence.Automation.Retry.Laws.{Delays, decide_retry_delay}
use provence.Automation.Retry.Attempts.{attempts, attempts_exact}
use provence.Tests.Rules.{host}

abbrev policy : BackoffStrategy → RetryPolicy
policy strategy = record {
  strategy = strategy;
  max_attempts = some 4;
  base_delay_ms = some 100;
  max_delay_ms = some 500;
  jitter = none;
  condition_rule = none;
  max_duration_ms = some 1000;
}

abbrev half : ℕ → ℕ
half raw = raw / 2

half_le : (raw : ℕ) → half raw ≤ raw
half_le raw = omega arith

third_attempt :
    decide_retry host half (policy BackoffStrategy.exponential) 3 "boom" 0 10 ≡ decide true 400
unfolding decide_retry
third_attempt = refl

decide_retry_delay_example :
    Delays 500 (decide_retry host half (policy BackoffStrategy.infinite) 9 "boom" 0 10)
decide_retry_delay_example =
    decide_retry_delay host half half_le (policy BackoffStrategy.infinite) 9 "boom" 0 10

attempts_exact_example :
    attempts host half (policy BackoffStrategy.linear) "boom" (λ n. n * 60) 9 1 ≡ 4
attempts_exact_example =
    attempts_exact host half (policy BackoffStrategy.linear) "boom" (λ n. n * 60) 9 tt (omega arith)
