-- ===== src/Automation/Scheduler/Fields.antt =====
-- The fields of cron expressions: `parseField` of src/lib/automation/scheduler/cron-engine.ts.
use provence.Prelude.{
  ℕ, zero, suc, ◌+◌, ◌≤◌, ◌<◌, ◌≡◌, ◌≢◌, ◌↔◌, refl, ap, subst, String, Bool, true, false, Option,
  none, some, List, [], ◌∷◌, All, All-append, any, ◌==◌, ltb, ◌||◌, arith, Bool-cases, Option-cases,
  inl, inr,
}
use provence.Workflow.Path.{split}
use provence.Automation.Scheduler.{
  Outcome, ok, throws, endless, ◌>>=◌, Base, star, value, range, Part, part_of, step_of,
  values_from, values, part_values, union, parse_field,
}

-- The values are in the bounds.
abbrev pub Within : ℕ → ℕ → ℕ → Type 0
Within low high n = (low ≤ n) × (n ≤ high)

-- A property of the value of an outcome.
abbrev pub Returns {ℓ} : {A : Type 0} → (A → Type ℓ) → Outcome A → Type ℓ
Returns P (ok a) = P a
Returns P throws = Unit
Returns P endless = Unit

Returns-bind :
    {A B : Type 0} (P : A → Type 0) (Q : B → Type 0) (m : Outcome A) (f : A → Outcome B)
    → Returns P m
    → ((a : A) → P a → Returns Q (f a))
    → Returns Q (m >>= f)
Returns-bind P Q (ok a) f h k = k a h
Returns-bind P Q throws f h k = tt
Returns-bind P Q endless f h k = tt

values_from-Within :
    (fuel low start end step : ℕ)
    → low ≤ start
    → Returns (All (Within low end)) (values_from fuel start end step)
unfolding values_from
values_from-Within zero low start end step h = elim (Bool-cases (ltb end start)) [
  | inl over ↦ rw over tt
  | inr more ↦ rw more tt
]
values_from-Within (suc fuel) low start end step h = elim (Bool-cases (ltb end start)) [
  | inl over ↦ rw over tt
  | inr more ↦ rw more (
      Returns-bind (All (Within low end)) (All (Within low end))
        (values_from fuel (start + step) end step) _
        (values_from-Within fuel low (start + step) end step (omega arith))
        (λ ns k. ((h, ground (arith, more)), k)))
]

Within-widen :
    (low end high : ℕ) (ns : List ℕ)
    → end ≤ high
    → All (Within low end) ns
    → All (Within low high) ns
Within-widen low end high [] h k = tt
Within-widen low end high (n ∷ ns) h ((a, b), k) =
    ((a, omega arith), Within-widen low end high ns h k)

part_values-Within :
    (min max : ℕ) (base : Base) (step : Option ℕ)
    → Returns (All (Within min max)) (part_values min max (record { base = base; step = step }))
unfolding part_values
part_values-Within min max star step =
    values_from-Within (suc max) min min max (step_of step) (omega arith)
part_values-Within min max (range start end) step =
    elim (Bool-cases (ltb end start || ltb start min || ltb max end)) [
      | inl refused ↦ rw refused tt
      | inr fits ↦ rw fits (
          widened (values start end (step_of step)) (ground (arith, fits))
            (values_from-Within (suc end) min start end (step_of step) (ground (arith, fits))))
    ]
  where
    widened :
        (m : Outcome (List ℕ))
        → end ≤ max
        → Returns (All (Within min end)) m
        → Returns (All (Within min max)) m
    widened (ok ns) le h = Within-widen min end max ns le h
    widened throws le h = tt
    widened endless le h = tt
part_values-Within min max (value n) step = elim (Bool-cases (ltb n min || ltb max n)) [
  | inl refused ↦ rw refused tt
  | inr fits ↦ rw fits (chosen step (ground (arith, fits)))
]
  where
    chosen :
        (step : Option ℕ)
        → Within min max n
        → Returns
            (All (Within min max))
            (elim step [ none ↦ ok (n ∷ []) | some k ↦ values n max k ])
    chosen none h = (h, tt)
    chosen (some k) h = values_from-Within (suc max) min n max k h.0

union-Within :
    (min max : ℕ) (texts : List String)
    → Returns (All (Within min max)) (union (part_values min max) texts)
unfolding union
union-Within min max [] = tt
union-Within min max (text ∷ texts) = elim (Option-cases (part_of text)) [
  | inl bad ↦ rw (bad, union) tt
  | inr (part, e) ↦
      rw (e, union)
        (Returns-bind (All (Within min max)) (All (Within min max)) (part_values min max part) _
          (part_values-Within min max part.base part.step)
          (λ first h.
            Returns-bind (All (Within min max)) (All (Within min max))
              (union (part_values min max) texts) _ (union-Within min max texts)
              (λ others k. All-append (Within min max) first others h k)))
]

-- The outcome is no endless loop.
abbrev pub Ends : {A : Type 0} → Outcome A → Type 0
Ends (ok a) = Unit
Ends throws = Unit
Ends endless = ⊥

Ends-bind :
    {A B : Type 0} (m : Outcome A) (f : A → Outcome B)
    → Ends m
    → ((a : A) → Ends (f a))
    → Ends (m >>= f)
Ends-bind (ok a) f h k = k a
Ends-bind throws f h k = tt
Ends-bind endless f h k = h

values_from-Ends :
    (fuel start end step : ℕ)
    → step ≢ 0
    → end < fuel + start
    → Ends (values_from fuel start end step)
unfolding values_from
values_from-Ends zero start end step h enough =
    rw (let e : ltb end start ≡ true = ground (arith, enough) in e) tt
values_from-Ends (suc fuel) start end step h enough = elim (Bool-cases (ltb end start)) [
  | inl over ↦ rw over tt
  | inr more ↦ rw more (
      Ends-bind (values_from fuel (start + step) end step) _
        (values_from-Ends fuel (start + step) end step h (ground (arith, h, enough))) (λ ns. tt))
]

values_from-endless : (fuel start end : ℕ) → start ≤ end → values_from fuel start end 0 ≡ endless
unfolding values_from
values_from-endless zero start end h =
    rw (let e : ltb end start ≡ false = ground (arith, h) in e) refl
values_from-endless (suc fuel) start end h =
    rw (let e : ltb end start ≡ false = ground (arith, h) in e) (
      rw (let e : start + 0 ≡ start = omega arith in e)
        (rw (values_from-endless fuel start end h) refl))

abbrev pub is_zero : Option ℕ → Bool
is_zero none = false
is_zero (some n) = n == 0

abbrev pub zero_step : String → Bool
zero_step text = elim (part_of text) [ none ↦ false | some part ↦ is_zero part.step ]

zero_step_part :
    (text : String) (part : Part) → part_of text ≡ some part → zero_step text ≡ is_zero part.step
zero_step_part text part e = rw (e, zero_step) refl

zero_some : (step : Option ℕ) → is_zero step ≡ true → step ≡ some 0
zero_some none h = absurd (ground arith)
zero_some (some n) h = let e : n ≡ 0 = ground (arith, h) in ap some e

step_of-ne : (step : Option ℕ) → is_zero step ≡ false → step_of step ≢ 0
step_of-ne none h e = absurd (omega (arith, e))
step_of-ne (some n) h e = absurd (ground (arith, h, e))

part_values-Ends :
    (min max : ℕ) (base : Base) (step : Option ℕ)
    → is_zero step ≡ false
    → Ends (part_values min max (record { base = base; step = step }))
unfolding part_values
part_values-Ends min max star step h =
    values_from-Ends (suc max) min max (step_of step) (step_of-ne step h) (omega arith)
part_values-Ends min max (range start end) step h =
    elim (Bool-cases (ltb end start || ltb start min || ltb max end)) [
      | inl refused ↦ rw refused tt
      | inr fits ↦
          rw fits
            (values_from-Ends (suc end) start end (step_of step) (step_of-ne step h) (omega arith))
    ]
part_values-Ends min max (value n) step h = elim (Bool-cases (ltb n min || ltb max n)) [
  | inl refused ↦ rw refused tt
  | inr fits ↦ rw fits (chosen step h)
]
  where
    chosen :
        (step : Option ℕ)
        → is_zero step ≡ false
        → Ends {A = List ℕ} (elim step [ none ↦ ok (n ∷ []) | some k ↦ values n max k ])
    chosen none h = tt
    chosen (some k) h = values_from-Ends (suc max) n max k (step_of-ne (some k) h) (omega arith)

union-Ends :
    (min max : ℕ) (texts : List String)
    → any zero_step texts ≡ false
    → Ends (union (part_values min max) texts)
unfolding union
union-Ends min max [] h = tt
union-Ends min max (text ∷ texts) h = elim (Option-cases (part_of text)) [
  | inl bad ↦ rw (bad, union) tt
  | inr (part, e) ↦
      rw (e, union)
        (Ends-bind (part_values min max part) _
          (part_values-Ends min max part.base part.step (of_part part e))
          (λ first.
            Ends-bind (union (part_values min max) texts) _
              (union-Ends min max texts (ground (arith, h))) (λ others. tt)))
]
  where
    of_part : (part : Part) → part_of text ≡ some part → is_zero part.step ≡ false
    of_part part e = ground (arith, h, zero_step_part text part e)

-- The parsing of a field in which no step is 0 ends, by an exception or with values that are all
-- between the bounds of the field.
pub parse_field-Within :
    (min max : ℕ) (field : String)
    → any zero_step (split b',' field) ≡ false
    → Ends (parse_field min max field) × Returns (All (Within min max)) (parse_field min max field)
unfolding parse_field
parse_field-Within min max field h =
    (union-Ends min max (split b',' field) h, union-Within min max (split b',' field))

-- The loop over all the values of a field, `*`, does not end exactly when its step is 0.
pub star_endless_iff :
    (min max : ℕ) (step : Option ℕ)
    → min ≤ max
    → (part_values min max (record { base = star; step = step }) ≡ endless) ↔ (step ≡ some 0)
unfolding part_values
star_endless_iff min max step h = (
  λ loops. elim (Bool-cases (is_zero step)) [
    | inl zero_there ↦ zero_some step zero_there
    | inr none_there ↦ absurd (
        subst Ends loops (
          values_from-Ends (suc max) min max (step_of step) (step_of-ne step none_there)
            (omega arith)))
  ],
  λ e. rw e (values_from-endless (suc max) min max h),
)
