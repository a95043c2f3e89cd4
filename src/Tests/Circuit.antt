-- ===== src/Tests/Circuit.antt =====
-- src/lib/automation/retry/circuit-breaker.ts on concrete histories.
use provence.Prelude.{
  ℕ, ◌≡◌, refl, [], ◌∷◌, ◌++◌, List, false, some, none, lookup, insert, All, leb, arith,
}
use provence.Automation.Circuit.{
  opened, CircuitBreaker, default_circuit_breaker_config, is_circuit_open, record_circuit_failure,
}
use provence.Automation.Circuit.Laws.{
  Call, success, failure, run, apply, failures, answers, success-failures, due-answers,
}

abbrev trips : List (Call × ℕ)
trips = (failure, 1) ∷ (failure, 2) ∷ (failure, 3) ∷ (failure, 4) ∷ (failure, 5) ∷ []

abbrev tripped : CircuitBreaker
tripped = record {
  automation_id = none;
  state = opened;
  failure_count = 5;
  last_failure_at = some 5;
  opened_at = some 5;
  reset_at = some 60_005;
}

run-trips : run default_circuit_breaker_config "k" trips [] ≡ ("k", tripped) ∷ []
unfolding run apply record_circuit_failure lookup insert
run-trips = refl

success-failures_example :
    (is_circuit_open "k" 60_000 (
      run default_circuit_breaker_config "k"
        ((success, 0)
          ∷ (failures default_circuit_breaker_config "k" (1 ∷ 2 ∷ []) ++ (failure, 7) ∷ []))
        [])).0
    ≡ leb 5 3
success-failures_example =
    success-failures default_circuit_breaker_config "k" 0 7 60_000 (1 ∷ 2 ∷ []) [] (omega arith)
      (omega arith)

due-answers_example :
    All
      (λ blocked. blocked ≡ false)
      (answers default_circuit_breaker_config "k" (60_005 ∷ 60_006 ∷ []) (("k", tripped) ∷ []))
unfolding lookup
due-answers_example =
    due-answers default_circuit_breaker_config "k" 60_005 60_005 (60_006 ∷ []) (("k", tripped) ∷ [])
      tripped refl refl refl (omega arith)
