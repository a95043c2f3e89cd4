-- ===== src/Workflow/Cron.antt =====
-- The older cron expressions, in UTC: src/lib/workflows/triggers/cron.ts. What the calendar makes of an
-- instant (`getUTCMinutes` and the others) is a parameter.
pub mod Laws
use provence.Prelude.{
  ℕ, String, Bool, true, false, Option, none, some, List, [], ◌∷◌, ltb, if◌then◌else◌,
}
use provence.Workflow.Path.{split}
use provence.Automation.Scheduler.{
  Outcome, ok, throws, ◌>>=◌, star, value, range, Part, part_of, step_of, values, union,
  ParsedCronExpression, CronFields, parse_fields, trim, words, matches_cron_fields, next_match,
}

-- The values of one part. A number is not compared with `min`, and one beyond `max` gives no value; the
-- pattern of a part, `^(\*|\d+)(?:\/(\d+))?$`, has no ranges.
unfoldable pub part_values : ℕ → ℕ → Part → Outcome (List ℕ)
part_values min max part = elim part.base [
  | star ↦ values min max (step_of part.step)
  | range start end ↦ throws
  | value n ↦ elim part.step [
    | none ↦ if ltb max n then ok [] else ok (n ∷ [])
    | some step ↦ values n max step
  ]
]

unfoldable pub parse_field : ℕ → ℕ → String → Outcome (List ℕ)
unfolding union part_values split
parse_field min max field = union (part_values min max) (split b',' field)

unfoldable pub parse_cron_expression : String → Outcome ParsedCronExpression
unfolding parse_field trim words
parse_cron_expression expression = parse_fields parse_field (words (trim expression))

module _ (utc : ℕ → CronFields) where
  unfoldable pub matches_cron : String → ℕ → Outcome Bool
  unfolding parse_cron_expression matches_cron_fields
  matches_cron expression date =
      parse_cron_expression expression >>= λ parsed. ok (matches_cron_fields parsed (utc date))

  unfoldable pub get_next_cron_run : String → ℕ → Outcome (Option ℕ)
  unfolding matches_cron next_match
  get_next_cron_run expression after = next_match (matches_cron expression) after
