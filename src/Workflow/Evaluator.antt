-- ===== src/Workflow/Evaluator.antt =====
-- The rules of src/lib/workflows/expressions/evaluator.ts. `none` as the result of a rule is an
-- exception. Numbers are integers or NaN, which is the `none` of `to_number` and `to_time`.
pub mod Laws
use provence.Prelude.{
  ℕ, ◌+◌, String, Bool, true, false, not, ◌&&◌, ◌||◌, Option, none, some, List, [], ◌∷◌, Map,
  lookup, ltb, leb, any, if◌then◌else◌, str_eq,
}
use provence.Prelude.Int.{ℤ, ltb_ℤ}
use provence.Json.{Json, null, num, str, same_json}
use provence.Workflow.Rule.{Expr, literal, var, Rule, Rules}
use provence.Workflow.VariableContext.{VariableContext}
use provence.Workflow.Path.{BuiltinProperty, context_json, get_path}

-- The functions that the evaluator calls and does not define: `Number(v)` of a value that is no
-- number, `new Date(v).getTime()`, `new RegExp(pattern, flags).test(text)`, which throws on a pattern
-- that is none, `String(v)` of a value that is no text, and the registered operators.
pub record Host : Type 0 where
  pub builtin : BuiltinProperty
  pub number_of : Option Json → Option ℤ
  pub time_of : Option Json → Option ℤ
  pub regex_test : String → Option String → String → Option Bool
  pub text_of : Json → String
  pub custom_operators : Map (List (Option Json) → VariableContext → Option Bool)

infixl 5 ◌>>=◌
abbrev pub ◌>>=◌ {ℓ κ} : {A : Type ℓ} {B : Type κ} → Option A → (A → Option B) → Option B
none >>= f = none
some a >>= f = f a

-- `deepEqual`
abbrev pub deep_equal : Option Json → Option Json → Bool
deep_equal none none = true
deep_equal (some a) (some b) = same_json a b
deep_equal _ _ = false

-- A comparison with NaN is false.
abbrev pub number_lt : Option ℤ → Option ℤ → Bool
number_lt (some a) (some b) = ltb_ℤ a b
number_lt _ _ = false

abbrev pub number_le : Option ℤ → Option ℤ → Bool
number_le (some a) (some b) = not (ltb_ℤ b a)
number_le _ _ = false

abbrev pub is_present : Option Json → Bool
is_present none = false
is_present (some null) = false
is_present (some v) = true

abbrev pub includes : String → List String → Bool
includes s texts = any (λ t. str_eq t s) texts

module _ (host : Host) (ctx : VariableContext) where
  unfoldable pub resolve_expr : Expr → Option Json
  unfolding get_path context_json
  resolve_expr (literal v) = v
  resolve_expr (var path) = get_path host.builtin (some (context_json ctx)) path

  -- `rule.args.map(…)`
  abbrev pub resolve_all : List Expr → List (Option Json)
  resolve_all [] = []
  resolve_all (e ∷ es) = resolve_expr e ∷ resolve_all es

  abbrev pub to_number : Option Json → Option ℤ
  to_number (some (num n)) = some n
  to_number v = host.number_of v

  abbrev pub test_text : String → Option String → Option Json → Option Bool
  test_text pattern flags (some (str s)) = host.regex_test pattern flags s
  test_text pattern flags v = some false

  abbrev pub member_of : Option Json → List Expr → Bool
  member_of v [] = false
  member_of v (e ∷ es) = deep_equal (resolve_expr e) v || member_of v es

  abbrev pub call_operator :
      Option (List (Option Json) → VariableContext → Option Bool) → List Expr → Option Bool
  call_operator none args = none
  call_operator (some evaluator) args = evaluator (resolve_all args) ctx

  unfoldable mutual
    pub evaluate_rule : Rule → Option Bool
    evaluate_rule Rule.always = some true
    evaluate_rule (Rule.eq l r) = some (deep_equal (resolve_expr l) (resolve_expr r))
    evaluate_rule (Rule.neq l r) = some (not (deep_equal (resolve_expr l) (resolve_expr r)))
    evaluate_rule (Rule.gt l r) =
        some (number_lt (to_number (resolve_expr r)) (to_number (resolve_expr l)))
    evaluate_rule (Rule.gte l r) =
        some (number_le (to_number (resolve_expr r)) (to_number (resolve_expr l)))
    evaluate_rule (Rule.lt l r) =
        some (number_lt (to_number (resolve_expr l)) (to_number (resolve_expr r)))
    evaluate_rule (Rule.lte l r) =
        some (number_le (to_number (resolve_expr l)) (to_number (resolve_expr r)))
    evaluate_rule (Rule.and rules) = evaluate_every rules
    evaluate_rule (Rule.or rules) = evaluate_some rules
    evaluate_rule (Rule.not rule) = evaluate_rule rule >>= λ b. some (not b)
    evaluate_rule (Rule.regex v pattern flags) = test_text pattern flags (resolve_expr v)
    evaluate_rule (Rule.exists v) = some (is_present (resolve_expr v))
    evaluate_rule (Rule.in_list v list) = some (member_of (resolve_expr v) list)
    evaluate_rule (Rule.date_before l r) =
        some (number_lt (host.time_of (resolve_expr l)) (host.time_of (resolve_expr r)))
    evaluate_rule (Rule.date_after l r) =
        some (number_lt (host.time_of (resolve_expr r)) (host.time_of (resolve_expr l)))
    evaluate_rule (Rule.permission p) = some (includes p ctx.permissions)
    evaluate_rule (Rule.custom key args) = call_operator (lookup key host.custom_operators) args

    -- `rules.every(…)` and `rules.some(…)`, which stop at the first rule that settles the answer.
    pub evaluate_every : Rules → Option Bool
    evaluate_every Rules.nil = some true
    evaluate_every (Rules.cons rule rules) =
        let rest = evaluate_every rules in
        evaluate_rule rule >>= λ b. if b then rest else some false

    pub evaluate_some : Rules → Option Bool
    evaluate_some Rules.nil = some false
    evaluate_some (Rules.cons rule rules) =
        let rest = evaluate_some rules in evaluate_rule rule >>= λ b. if b then some true else rest
