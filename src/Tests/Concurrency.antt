-- ===== src/Tests/Concurrency.antt =====
-- src/lib/automation/concurrency on concrete batches.
use provence.Prelude.{
  Bool, str_eq, ◌||◌, count_if, ℕ, ◌+◌, ◌-◌, ◌*◌, ◌≤◌, ◌≡◌, refl, max, String, none, some, List, [],
  ◌∷◌, arith, lookup, insert,
}
use provence.Automation.TokenBucket.{new_bucket, consume}
use provence.Automation.TokenBucket.Laws.{taken, taken_at_rate}
use provence.Automation.Concurrency.{ConcurrencyCandidate, admit_by_concurrency}
use provence.Automation.Concurrency.Laws.{admit_by_concurrency_limit}

abbrev job : String → String → ConcurrencyCandidate
job id key = record {
  id = id;
  concurrency_key = some key;
  concurrency_limit = some 2;
  rate_limit_key = none;
}

abbrev batch : List ConcurrencyCandidate
batch = job "1" "p" ∷ job "2" "p" ∷ job "3" "q" ∷ []

-- One job of each key runs already.
abbrev running : String → ℕ
running key = 1

second_waits : admit_by_concurrency running 0 batch [] ≡ (("1" ∷ "3" ∷ [], "2" ∷ []), [])
unfolding admit_by_concurrency lookup insert
second_waits = refl

abbrev is_p : String → Bool
is_p id = str_eq id "1" || str_eq id "2"

admit_by_concurrency_limit_example :
    1 + count_if is_p (admit_by_concurrency running 0 batch []).0.0 ≤ max 2 1
admit_by_concurrency_limit_example =
    admit_by_concurrency_limit running 0 "p" is_p 2 batch []
      (λ e. omega arith, (λ e. omega arith, (λ e. omega arith, tt)))
      (λ e. refl, (λ e. refl, (λ e. absurd (cc), tt)))

abbrev calls : List (ℕ × ℕ)
calls = (2, 0) ∷ (1, 100) ∷ (1, 500) ∷ (1, 900) ∷ []

some_are_refused : taken calls (new_bucket 2 1000 0) ≡ 3
unfolding taken new_bucket consume
some_are_refused = refl

taken_at_rate_example : taken calls (new_bucket 2 1000 0) * 1000 ≤ 2 * (1000 + (900 - 0))
taken_at_rate_example =
    taken_at_rate calls 2 1000 0 900
      (omega arith, (omega arith, (omega arith, (omega arith, omega arith))))
