-- ===== src/Automation/Retry/Attempts.antt =====
-- How many attempts a job that always fails makes under a policy of
-- src/lib/automation/retry/retry-engine.ts.
use provence.Prelude.{
  ℕ, zero, suc, ◌+◌, ◌-◌, ◌≤◌, ◌<◌, max, String, ◌≡◌, refl, Bool, false, Option, ltb, if◌then◌else◌,
  arith,
}
use provence.Workflow.Evaluator.{Host}
use provence.Automation.Graph.{BackoffStrategy, RetryPolicy}
use provence.Automation.Retry.{RetryResult, decided, or_default, decide_by, decide_retry}

-- The policies whose only limit is the number of attempts, and that number.
abbrev pub IsCounted : BackoffStrategy → Type 0
IsCounted BackoffStrategy.immediate = Unit
IsCounted BackoffStrategy.linear = Unit
IsCounted BackoffStrategy.exponential = Unit
IsCounted _ = ⊥

abbrev pub most_of : BackoffStrategy → Option ℕ → ℕ
most_of BackoffStrategy.immediate most = or_default 3 most
most_of _ most = or_default 5 most

abbrev pub retries : RetryResult → Bool
retries (decided d) = d.should_retry
retries _ = false

module _ (host : Host) (random : ℕ → ℕ) (policy : RetryPolicy) (message : String)
    (clock : ℕ → ℕ) where
  -- The attempts from number `attempt` on, each of which fails with the message at the clock's time.
  unfoldable pub attempts : ℕ → ℕ → ℕ
  attempts zero attempt = 0
  attempts (suc fuel) attempt =
      let rest = attempts fuel (attempt + 1) in
      let result = decide_retry host random policy attempt message (clock 1) (clock attempt) in
      if retries result then suc rest else 1

  counted :
      (strategy : BackoffStrategy) (attempt first now : ℕ)
      → IsCounted strategy
      → retries (decide_by host random strategy policy attempt message first now)
        ≡ ltb attempt (most_of strategy policy.max_attempts)
  unfolding decide_by
  counted BackoffStrategy.immediate attempt first now h = refl
  counted BackoffStrategy.linear attempt first now h = refl
  counted BackoffStrategy.exponential attempt first now h = refl
  counted _ attempt first now h = absurd h

  attempts_from :
      (fuel attempt : ℕ)
      → IsCounted policy.strategy
      → most_of policy.strategy policy.max_attempts < attempt + fuel
      → 0 < fuel
      → attempts fuel attempt ≡ max 1 (suc (most_of policy.strategy policy.max_attempts) - attempt)
  unfolding attempts decide_retry
  attempts_from zero attempt h lt pos = omega arith
  attempts_from (suc zero) attempt h lt pos =
      let e = counted policy.strategy attempt (clock 1) (clock attempt) h in rw e (ground arith)
  attempts_from (suc (suc fuel)) attempt h lt pos =
      let e = counted policy.strategy attempt (clock 1) (clock attempt) h in
      let rest = attempts_from (suc fuel) (attempt + 1) h (omega arith) (omega arith) in
      rw e (ground arith)

  -- Under "immediate", "linear" and "exponential", a job whose attempts all fail makes exactly
  -- `maxAttempts` attempts, 3 or 5 by default, and one attempt when that is 0, whatever the clock
  -- and the jitter: every fuel of at least that number gives it, so the retries end.
  pub attempts_exact :
      (fuel : ℕ)
      → IsCounted policy.strategy
      → max 1 (most_of policy.strategy policy.max_attempts) ≤ fuel
      → attempts fuel 1 ≡ max 1 (most_of policy.strategy policy.max_attempts)
  attempts_exact fuel h enough =
      let e = attempts_from fuel 1 h (omega arith) (omega arith) in omega (arith, e)
