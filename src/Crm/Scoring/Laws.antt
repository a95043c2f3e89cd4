-- ===== src/Crm/Scoring/Laws.antt =====
-- What a score says (src/lib/scoring.ts).
use provence.Prelude.{
  ◌≡◌, refl, sym, subst, ◌∙◌, ap, Bool, true, ◌&&◌, List, [], ◌∷◌, ◌++◌, map, select, arith,
  Bool-cases, inl, inr, if◌then◌else◌,
}
use provence.Prelude.Int.{ℤ, pos, negsuc, ◌+ℤ◌, ◌≤ℤ◌, +ℤ_assoc, +ℤ_mono, int_laws, ltb_ℤ}
use provence.Crm.Scoring.{
  ScoringRule, ScoringContext, ScoreBreakdownEntry, faible_priorite, evaluate_condition, entry_of,
  clamp, categorize, apply_rules, compute_score, first_rules, last_rule, default_scoring_rules,
}

abbrev pub counts : ScoringContext → ScoringRule → Bool
counts ctx r = r.enabled && evaluate_condition r.condition ctx

-- The sum of the points of some rules.
unfoldable pub total : List ScoringRule → ℤ
total [] = pos 0
total (r ∷ rules) = r.points +ℤ total rules

+ℤ_zero : (a : ℤ) → a +ℤ pos 0 ≡ a
+ℤ_zero a = omega int_laws

append-nil : {A : Type 0} (xs : List A) → xs ++ [] ≡ xs
append-nil [] = refl
append-nil (x ∷ xs) = ap (λ ys. x ∷ ys) (append-nil xs)

append_assoc : {A : Type 0} (xs ys zs : List A) → (xs ++ ys) ++ zs ≡ xs ++ (ys ++ zs)
append_assoc [] ys zs = refl
append_assoc (x ∷ xs) ys zs = ap (λ l. x ∷ l) (append_assoc xs ys zs)

apply_rules_lem :
    (ctx : ScoringContext) (rules : List ScoringRule) (value : ℤ)
    (breakdown : List ScoreBreakdownEntry)
    → apply_rules ctx rules value breakdown ≡ (
      value +ℤ total (select (counts ctx) rules),
      breakdown ++ map entry_of (select (counts ctx) rules),
    )
unfolding apply_rules total
apply_rules_lem ctx [] value breakdown = rw (+ℤ_zero value, append-nil breakdown) refl
apply_rules_lem ctx (r ∷ rules) value breakdown = elim (Bool-cases (counts ctx r)) [
  | inl on ↦ rw on (
      apply_rules_lem ctx rules (value +ℤ r.points) (breakdown ++ (entry_of r ∷ []))
      ∙ rw
          (
            +ℤ_assoc value r.points (total (select (counts ctx) rules)),
            append_assoc breakdown (entry_of r ∷ []) (map entry_of (select (counts ctx) rules)),
          )
          refl)
  | inr off ↦ rw off (apply_rules_lem ctx rules value breakdown)
]

zero_+ℤ : (a : ℤ) → pos 0 +ℤ a ≡ a
zero_+ℤ a = omega int_laws

clamp_bounds : (a : ℤ) → (pos 0 ≤ℤ clamp a) × (clamp a ≤ℤ pos 100)
unfolding clamp
clamp_bounds a = ground arith

-- The value of a score is the sum of the points of the rules that are enabled and hold, cut to the
-- range from 0 to 100; its category is that of this value, and its breakdown lists these rules in
-- their order.
pub compute_score_lem :
    (ctx : ScoringContext) (rules : List ScoringRule)
    → let s = compute_score ctx rules in
      let held = select (counts ctx) rules in
      (s.value ≡ clamp (total held))
      × (pos 0 ≤ℤ s.value)
      × (s.value ≤ℤ pos 100)
      × (s.category ≡ categorize s.value)
      × (s.breakdown ≡ map entry_of held)
unfolding compute_score
compute_score_lem ctx rules =
    let held = select (counts ctx) rules in
    let sum = total held in
    let (low, high) = clamp_bounds sum in
    rw (apply_rules_lem ctx rules (pos 0) [], zero_+ℤ sum) (refl, low, high, refl, refl)

-- What a rule can add at most.
unfoldable gain : ℤ → ℤ
gain points = if ltb_ℤ points (pos 0) then pos 0 else points

gain_bounds : (points : ℤ) → (points ≤ℤ gain points) × (pos 0 ≤ℤ gain points)
unfolding gain
gain_bounds points = ground arith

-- The most that some rules can add.
unfoldable best : List ScoringRule → ℤ
best [] = pos 0
best (r ∷ rules) = gain r.points +ℤ best rules

total-best :
    (p : ScoringRule → Bool) (rules : List ScoringRule) → total (select p rules) ≤ℤ best rules
unfolding total best
total-best p [] = omega arith
total-best p (r ∷ rules) =
    let later = total-best p rules in
    let (more, some_gain) = gain_bounds r.points in
    elim (Bool-cases (p r)) [
      | inl on ↦
          rw on (+ℤ_mono r.points (gain r.points) (total (select p rules)) (best rules) more later)
      | inr off ↦ rw off (omega (int_laws, later, some_gain))
    ]

total-append : (xs ys : List ScoringRule) → total (xs ++ ys) ≡ total xs +ℤ total ys
unfolding total
total-append [] ys = sym (zero_+ℤ (total ys))
total-append (r ∷ xs) ys = rw (total-append xs ys) (sym (+ℤ_assoc r.points (total xs) (total ys)))

select-append :
    (p : ScoringRule → Bool) (xs ys : List ScoringRule)
    → select p (xs ++ ys) ≡ select p xs ++ select p ys
select-append p [] ys = refl
select-append p (r ∷ xs) ys = elim (Bool-cases (p r)) [
  | inl on ↦ rw on (ap (λ l. r ∷ l) (select-append p xs ys))
  | inr off ↦ rw off (select-append p xs ys)
]

best-first_rules : best first_rules ≡ pos 100
unfolding best gain first_rules ◌+ℤ◌
best-first_rules = refl

clamp_zero : (a : ℤ) → a ≤ℤ pos 0 → clamp a ≡ pos 0
unfolding clamp
clamp_zero a h = ground arith

default_split : default_scoring_rules ≡ first_rules ++ (last_rule ∷ [])
unfolding default_scoring_rules first_rules last_rule
default_split = refl

last_total :
    (ctx : ScoringContext)
    → ctx.is_suppressed ≡ true
    → total (select (counts ctx) (last_rule ∷ [])) ≡ negsuc 99
unfolding total last_rule evaluate_condition ◌+ℤ◌
last_total ctx h = rw h refl

suppressed_total :
    (ctx : ScoringContext)
    → ctx.is_suppressed ≡ true
    → total (select (counts ctx) default_scoring_rules) ≤ℤ pos 0
suppressed_total ctx h =
    let first = total (select (counts ctx) first_rules) in
    let bound : first ≤ℤ pos 100 =
      subst (λ b. first ≤ℤ b) best-first_rules (total-best (counts ctx) first_rules) in
    rw
      (
        default_split,
        select-append (counts ctx) first_rules (last_rule ∷ []),
        total-append (select (counts ctx) first_rules) (select (counts ctx) (last_rule ∷ [])),
        last_total ctx h,
      )
      (omega (int_laws, bound))

-- A prospect who has unsubscribed scores 0 under the default rules, in the lowest category, whatever
-- else is known of it.
pub compute_score_suppressed :
    (ctx : ScoringContext)
    → ctx.is_suppressed ≡ true
    → ((compute_score ctx default_scoring_rules).value ≡ pos 0)
      × ((compute_score ctx default_scoring_rules).category ≡ faible_priorite)
unfolding categorize
compute_score_suppressed ctx h =
    let (value, _, _, category, _) = compute_score_lem ctx default_scoring_rules in
    let at_zero : (compute_score ctx default_scoring_rules).value ≡ pos 0 =
      value
      ∙ clamp_zero (total (select (counts ctx) default_scoring_rules)) (suppressed_total ctx h) in
    (at_zero, category ∙ ap categorize at_zero)
