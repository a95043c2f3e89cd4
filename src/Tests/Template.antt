-- ===== src/Tests/Template.antt =====
-- References in the input of an action (src/lib/workflows/expressions/evaluator.ts).
use provence.Prelude.{◌≡◌, ◌≢◌, refl, String, none, some, [], ◌∷◌, arith, eq_iff}
use provence.Prelude.Int.{pos}
use provence.Json.{num, str}
use provence.Workflow.VariableContext.{VariableContext, create_empty_variable_context}
use provence.Workflow.Template.{
  resolve_action_input, resolve_text, interpolate_from, reference_at, exact_reference, value_at,
}
use provence.Workflow.Template.Laws.{reference_to, resolve_action_input-reference_to}
use provence.Tests.Rules.{host}

abbrev ctx : VariableContext
ctx = record (create_empty_variable_context "o" "w" none) {
  workflow = ("n", some (num (pos 7))) ∷ ("s", some (str "x")) ∷ [];
}

interpolates : resolve_text host ctx "a {{ workflow.s }}-{{workflow.none}}b" ≡ some (str "a x-b")
unfolding resolve_text interpolate_from reference_at exact_reference value_at
interpolates = refl

workflow_n_ne : ◌≢◌ {A = String} "workflow.n" ""
workflow_n_ne = ground (arith, eq_iff "workflow.n" "")

is_seven : value_at host ctx "workflow.n" ≡ some (num (pos 7))
unfolding value_at
is_seven = refl

resolve_action_input-reference_to_example :
    resolve_action_input host ctx (str (reference_to "workflow.n")) ≡ value_at host ctx "workflow.n"
resolve_action_input-reference_to_example =
    resolve_action_input-reference_to host ctx "workflow.n"
      (refl, (refl, (refl, (refl, (refl, (refl, (refl, (refl, (refl, (refl, tt))))))))))
      workflow_n_ne
