-- ===== src/Tests/Rules.antt =====
-- src/lib/workflows/expressions on concrete rules.
use provence.Prelude.{◌≡◌, refl, true, none, some, [], ◌∷◌}
use provence.Prelude.Int.{pos}
use provence.Json.{num}
use provence.Workflow.Rule.{Expr, Rule, Rules}
use provence.Workflow.VariableContext.{VariableContext, create_empty_variable_context}
use provence.Workflow.Evaluator.{Host, resolve_expr, evaluate_rule}
use provence.Workflow.Evaluator.Laws.{dual, evaluate_rule-dual}

-- A host whose functions answer nothing.
abbrev pub host : Host
host = record {
  builtin = λ key v. none;
  number_of = λ v. none;
  time_of = λ v. none;
  regex_test = λ pattern flags text. none;
  text_of = λ v. "[object Object]";
  custom_operators = [];
}

abbrev ctx : VariableContext
ctx = create_empty_variable_context "o" "w" (some ("read" ∷ []))

abbrev three_is_more : Rule
three_is_more = Rule.and (
    Rules.cons (Rule.gt (Expr.literal (some (num (pos 3)))) (Expr.literal (some (num (pos 2)))))
      (Rules.cons (Rule.permission "read") Rules.nil))

three_is_more_holds : evaluate_rule host ctx three_is_more ≡ some true
unfolding evaluate_rule create_empty_variable_context resolve_expr
three_is_more_holds = refl

evaluate_rule-dual_example :
    evaluate_rule host ctx (dual three_is_more) ≡ evaluate_rule host ctx (Rule.not three_is_more)
evaluate_rule-dual_example = evaluate_rule-dual host ctx three_is_more
