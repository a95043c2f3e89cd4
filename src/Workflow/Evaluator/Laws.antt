-- ===== src/Workflow/Evaluator/Laws.antt =====
-- What the rule evaluator of src/lib/workflows/expressions/evaluator.ts computes.
use provence.Prelude.{◌≡◌, refl, Bool, true, false, not, some, arith, if◌then◌else◌}
use provence.Workflow.Rule.{Rule, Rules}
use provence.Workflow.VariableContext.{VariableContext}
use provence.Workflow.Evaluator.{Host, ◌>>=◌, evaluate_rule, evaluate_every, evaluate_some}

-- A rule that calls neither a regular expression nor a registered operator.
unfoldable mutual
  pub IsBuiltIn : Rule → Type 0
  IsBuiltIn (Rule.and rules) = AreBuiltIn rules
  IsBuiltIn (Rule.or rules) = AreBuiltIn rules
  IsBuiltIn (Rule.not rule) = IsBuiltIn rule
  IsBuiltIn (Rule.regex v pattern flags) = ⊥
  IsBuiltIn (Rule.custom key args) = ⊥
  IsBuiltIn _ = Unit

  pub AreBuiltIn : Rules → Type 0
  AreBuiltIn Rules.nil = Unit
  AreBuiltIn (Rules.cons rule rules) = IsBuiltIn rule × AreBuiltIn rules

-- The rule with its connectives pushed to the leaves by De Morgan's laws.
mutual
  pub dual : Rule → Rule
  dual (Rule.and rules) = Rule.or (duals rules)
  dual (Rule.or rules) = Rule.and (duals rules)
  dual (Rule.not rule) = rule
  dual (Rule.eq l r) = Rule.neq l r
  dual (Rule.neq l r) = Rule.eq l r
  dual rule = Rule.not rule

  pub duals : Rules → Rules
  duals Rules.nil = Rules.nil
  duals (Rules.cons rule rules) = Rules.cons (dual rule) (duals rules)

module _ (host : Host) (ctx : VariableContext) where
  mutual
    unfolding evaluate_rule evaluate_every evaluate_some IsBuiltIn AreBuiltIn

    returns : (rule : Rule) → IsBuiltIn rule → (b : Bool) × (evaluate_rule host ctx rule ≡ some b)
    returns (Rule.and rules) h = returns_every rules h
    returns (Rule.or rules) h = returns_some rules h
    returns (Rule.not rule) h = let (b, e) = returns rule h in (not b, rw e)
    returns (Rule.regex v pattern flags) h = absurd h
    returns (Rule.custom key args) h = absurd h
    returns _ h = (_, refl)

    returns_every :
        (rules : Rules) → AreBuiltIn rules → (b : Bool) × (evaluate_every host ctx rules ≡ some b)
    returns_every Rules.nil h = (true, refl)
    returns_every (Rules.cons rule rules) (h, hs) =
        let (b, e) = returns rule h in
        let (c, f) = returns_every rules hs in (if b then c else false, rw (e, f) (ground arith))

    returns_some :
        (rules : Rules) → AreBuiltIn rules → (b : Bool) × (evaluate_some host ctx rules ≡ some b)
    returns_some Rules.nil h = (false, refl)
    returns_some (Rules.cons rule rules) (h, hs) =
        let (b, e) = returns rule h in
        let (c, f) = returns_some rules hs in (if b then true else c, rw (e, f) (ground arith))

  mutual
    unfolding evaluate_rule evaluate_every evaluate_some dual duals

    negates :
        (rule : Rule)
        → evaluate_rule host ctx (dual rule) ≡ (evaluate_rule host ctx rule >>= λ b. some (not b))
    negates (Rule.and rules) = negates_every rules
    negates (Rule.or rules) = negates_some rules
    negates (Rule.not rule) = ground arith
    negates (Rule.neq l r) = ground arith
    negates _ = refl

    negates_every :
        (rules : Rules)
        → evaluate_some host ctx (duals rules)
          ≡ (evaluate_every host ctx rules >>= λ b. some (not b))
    negates_every Rules.nil = refl
    negates_every (Rules.cons rule rules) = rw (negates rule, negates_every rules) (ground arith)

    negates_some :
        (rules : Rules)
        → evaluate_every host ctx (duals rules)
          ≡ (evaluate_some host ctx rules >>= λ b. some (not b))
    negates_some Rules.nil = refl
    negates_some (Rules.cons rule rules) = rw (negates rule, negates_some rules) (ground arith)

  -- A rule with no regular expression and no registered operator in it returns a Boolean: it never
  -- throws, in any context and with any values.
  pub evaluate_rule_total :
      (rule : Rule) → IsBuiltIn rule → (b : Bool) × (evaluate_rule host ctx rule ≡ some b)
  evaluate_rule_total rule h = returns rule h

  -- De Morgan's laws hold for every rule, exceptions included: the dual rule has the result of the
  -- negated rule, and throws exactly when the rule throws.
  pub evaluate_rule-dual :
      (rule : Rule) → evaluate_rule host ctx (dual rule) ≡ evaluate_rule host ctx (Rule.not rule)
  unfolding evaluate_rule
  evaluate_rule-dual rule = negates rule
