-- ===== src/Automation/Retry.antt =====
-- src/lib/automation/retry/retry-engine.ts: after a failed attempt, is there another one and when.
-- Times and delays are whole milliseconds.
pub mod Laws
pub mod Attempts
use provence.Prelude.{
  ℕ, zero, ◌+◌, ◌-◌, ◌*◌, ◌^◌, min, String, Bool, true, false, Option, none, some, [], ◌∷◌, ltb,
  leb, if◌then◌else◌,
}
use provence.Json.{Json, obj, str, Fields}
use provence.Workflow.Rule.{Rule}
use provence.Workflow.VariableContext.{VariableContext, create_empty_variable_context}
use provence.Workflow.Evaluator.{Host, evaluate_rule}
use provence.Automation.Graph.{BackoffStrategy, RetryPolicy}

pub record RetryDecision : Type 0 where
  pub should_retry : Bool
  pub delay_ms : ℕ

-- What `decideRetry` does: it returns a decision, or it throws for one of three reasons.
pub data RetryResult : Type 0 where
  decided : RetryDecision → RetryResult
  needs_max_attempts needs_condition_rule rule_threw : RetryResult

abbrev pub default_base_delay_ms : ℕ
default_base_delay_ms = 5000

abbrev pub default_max_delay_ms : ℕ
default_max_delay_ms = 300000

-- `o ?? d`
abbrev pub or_default {ℓ} : {A : Type ℓ} → A → Option A → A
or_default d none = d
or_default d (some a) = a

-- `random` is `Math.floor(Math.random() * raw)` of `raw`.
module _ (random : ℕ → ℕ) where
  unfoldable pub exponential_delay : ℕ → ℕ → ℕ → Bool → ℕ
  exponential_delay attempt base_delay_ms max_delay_ms jitter =
      let raw = min (base_delay_ms * 2 ^ (attempt - 1)) max_delay_ms in
      if jitter then random raw else raw

unfoldable pub linear_delay : ℕ → ℕ → ℕ → ℕ
linear_delay attempt base_delay_ms max_delay_ms = min (base_delay_ms * attempt) max_delay_ms

-- The context in which a condition reads `context.error.message`.
abbrev pub error_context : String → VariableContext
unfolding create_empty_variable_context
error_context message =
    let empty = create_empty_variable_context "" "" none in
    record {
      workflow = empty.workflow;
      context = ("error", some (obj (Fields.field "message" (str message) Fields.end))) ∷ [];
      user = empty.user;
      organization = empty.organization;
      workspace = empty.workspace;
      agents = empty.agents;
      results = empty.results;
      api = empty.api;
      form = empty.form;
      permissions = empty.permissions;
    }

module _ (host : Host) where
  unfoldable pub evaluate_condition_rule : Rule → String → Option Bool
  evaluate_condition_rule rule message = evaluate_rule host (error_context message) rule

abbrev pub decide : Bool → ℕ → RetryResult
decide again delay = decided (record { should_retry = again; delay_ms = delay })

-- The arms of "limited", "infinite" and "conditional", given what they test.
abbrev pub decide_limited : ℕ → ℕ → Option ℕ → RetryResult
decide_limited attempt delay none = needs_max_attempts
decide_limited attempt delay (some zero) = needs_max_attempts
decide_limited attempt delay (some most) = decide (ltb attempt most) delay

-- The elapsed time reaches the limit when the first attempt's time plus the limit is past.
abbrev pub is_over : ℕ → ℕ → Option ℕ → Bool
is_over first now none = false
is_over first now (some zero) = false
is_over first now (some limit) = leb (first + limit) now

abbrev pub decide_answer : ℕ → ℕ → ℕ → Option Bool → RetryResult
decide_answer attempt most delay none = rule_threw
decide_answer attempt most delay (some false) = decide false 0
decide_answer attempt most delay (some true) = decide (ltb attempt most) delay

module _ (host : Host) where
  abbrev pub decide_conditional : ℕ → ℕ → ℕ → String → Option Rule → RetryResult
  decide_conditional attempt most delay message none = needs_condition_rule
  decide_conditional attempt most delay message (some rule) =
      decide_answer attempt most delay (evaluate_condition_rule host rule message)

module _ (host : Host) (random : ℕ → ℕ) where
  unfoldable pub decide_by : BackoffStrategy → RetryPolicy → ℕ → String → ℕ → ℕ → RetryResult
  unfolding exponential_delay linear_delay evaluate_condition_rule
  decide_by strategy policy attempt message first_attempt_at now =
      let base_delay_ms = or_default default_base_delay_ms policy.base_delay_ms in
      let max_delay_ms = or_default default_max_delay_ms policy.max_delay_ms in
      let jitter = or_default false policy.jitter in
      let exponential = exponential_delay random attempt base_delay_ms max_delay_ms jitter in
      let most = or_default 5 policy.max_attempts in
      elim strategy [
        | BackoffStrategy.manual ↦ decide false 0
        | BackoffStrategy.immediate ↦ decide (ltb attempt (or_default 3 policy.max_attempts)) 0
        | BackoffStrategy.linear ↦
            decide (ltb attempt most) (linear_delay attempt base_delay_ms max_delay_ms)
        | BackoffStrategy.exponential ↦ decide (ltb attempt most) exponential
        | BackoffStrategy.limited ↦ decide_limited attempt exponential policy.max_attempts
        | BackoffStrategy.infinite ↦
            if is_over first_attempt_at now policy.max_duration_ms
            then decide false 0
            else decide true exponential
        | BackoffStrategy.conditional ↦
            decide_conditional host attempt most exponential message policy.condition_rule
      ]

  unfoldable pub decide_retry : RetryPolicy → ℕ → String → ℕ → ℕ → RetryResult
  unfolding decide_by
  decide_retry policy = decide_by policy.strategy policy

unfoldable pub default_retry_policy : RetryPolicy
default_retry_policy = record {
  strategy = BackoffStrategy.exponential;
  max_attempts = some 5;
  base_delay_ms = some 5000;
  max_delay_ms = some 300000;
  jitter = some true;
  condition_rule = none;
  max_duration_ms = none;
}
