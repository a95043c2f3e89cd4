-- ===== src/Tests/RateLimit.antt =====
-- src/lib/security/rate-limiter.ts on concrete requests.
use provence.Prelude.{ℕ, ◌≡◌, refl, [], ◌∷◌, ◌++◌, List, String, lookup, insert, replicate, arith}
use provence.Security.RateLimit.{is_rate_limited}
use provence.Security.RateLimit.Windows.{allowed, allowed_in_window, allowed_burst}

third_is_refused : allowed "a" 2 10 (0 ∷ 3 ∷ 9 ∷ 10 ∷ []) [] ≡ 3
unfolding allowed is_rate_limited lookup insert
third_is_refused = refl

allowed_in_window_example : allowed "a" 2 10 (0 ∷ 3 ∷ 9 ∷ []) [] ≡ 2
unfolding lookup
allowed_in_window_example = allowed_in_window "a" 2 10 0 (3 ∷ 9 ∷ []) [] tt (omega arith)

allowed_burst_example : allowed "a" 3 10 (0 ∷ replicate 2 9 ++ replicate 3 10) [] ≡ 6
unfolding lookup
allowed_burst_example = allowed_burst "a" 3 10 0 [] tt (omega arith) (omega arith)

abbrev mixed : List (String × ℕ)
mixed = ("a", 0) ∷ ("b", 1) ∷ ("a", 2) ∷ ("b", 3) ∷ ("a", 4) ∷ []
