-- ===== src/Workflow/Cron/Laws.antt =====
-- The two parsers of cron fields: src/lib/workflows/triggers/cron.ts, and
-- src/lib/automation/scheduler/cron-engine.ts, which extends it.
use provence.Prelude.{
  ◌*◌, ℕ, ◌≤◌, ◌<◌, ◌%◌, ◌+◌, ◌≡◌, refl, String, Bool, true, false, ◌||◌, Option, none, some, List,
  [], ◌∷◌, any, ltb, arith, Option-cases, inl, inr,
}
use provence.Workflow.Path.{split}
use provence.Automation.Scheduler.{
  Outcome, ok, throws, endless, ◌>>=◌, Base, star, value, range, Part, part_of, values, union,
  ParsedCronExpression, CronFields, matches_cron_fields, next_minute, minute_ms,
  max_lookahead_minutes,
}
use provence.Automation.Scheduler.Next.{Found, next_match-Found}
use provence.Automation.Scheduler as New
use provence.Workflow.Cron.{
  part_values, parse_field, parse_cron_expression, matches_cron, get_next_cron_run,
}

-- A number outside the bounds, or a range.
abbrev pub is_foreign : ℕ → ℕ → Base → Bool
is_foreign min max star = false
is_foreign min max (value n) = ltb n min || ltb max n
is_foreign min max (range start end) = true

abbrev pub foreign_part : ℕ → ℕ → String → Bool
foreign_part min max text = elim (part_of text) [
  | none ↦ false
  | some part ↦ is_foreign min max part.base
]

part_values_same :
    (min max : ℕ) (base : Base) (step : Option ℕ)
    → is_foreign min max base ≡ false
    → New.part_values min max (record { base = base; step = step })
      ≡ part_values min max (record { base = base; step = step })
unfolding part_values New.part_values
part_values_same min max star step h = refl
part_values_same min max (range start end) step h = absurd (ground arith)
part_values_same min max (value n) none h =
    rw h (rw (let e : ltb max n ≡ false = ground (arith, h) in e) refl)
part_values_same min max (value n) (some step) h = rw h refl

foreign_part_of :
    (min max : ℕ) (text : String) (part : Part)
    → part_of text ≡ some part
    → foreign_part min max text ≡ is_foreign min max part.base
foreign_part_of min max text part e = rw (e, foreign_part) refl

union_same :
    (min max : ℕ) (texts : List String)
    → any (foreign_part min max) texts ≡ false
    → union (New.part_values min max) texts ≡ union (part_values min max) texts
unfolding union
union_same min max [] h = refl
union_same min max (text ∷ texts) h = elim (Option-cases (part_of text)) [
  | inl bad ↦ rw (bad, union) refl
  | inr (part, e) ↦
      rw (e, union)
        (rw
          (
            part_values_same min max part.base part.step
                (ground (arith, h, foreign_part_of min max text part e)),
            union_same min max texts (ground (arith, h)),
          )
          refl)
]

-- On a field without ranges, whose numbers are all between its bounds, the newer parser of the
-- scheduler and the older one of the workflows agree: the same values in the same order, or both throw,
-- or both loop for ever.
pub parse_field_same :
    (min max : ℕ) (field : String)
    → any (foreign_part min max) (split b',' field) ≡ false
    → New.parse_field min max field ≡ parse_field min max field
unfolding parse_field New.parse_field
parse_field_same min max field h = union_same min max (split b',' field) h

-- With a cron expression that parses, the older search for the next run returns. A time that it returns
-- is the first full minute after `after` that matches in UTC; if it returns none, no minute of the 366
-- days from the next one on matches.
pub get_next_cron_run-Found :
    (utc : ℕ → CronFields) (expression : String) (parsed : ParsedCronExpression) (after : ℕ)
    → parse_cron_expression expression ≡ ok parsed
    → (o : Option ℕ) × (get_next_cron_run utc expression after ≡ ok o)
      × (next_minute after % minute_ms ≡ 0)
      × (after < next_minute after)
      × (next_minute after ≤ after + minute_ms)
      × Found (matches_cron utc expression) (next_minute after) max_lookahead_minutes o
unfolding get_next_cron_run matches_cron
get_next_cron_run-Found utc expression parsed after h =
    next_match-Found (matches_cron utc expression) after (λ i lt. (
      matches_cron_fields parsed (utc (next_minute after + i * minute_ms)),
      rw (h, matches_cron) refl,
    ))
