-- ===== src/Tests/Scheduler.antt =====
-- Schedules and cron expressions (src/lib/automation/scheduler, src/lib/workflows/triggers/cron.ts).
use provence.Prelude.{
  ℕ, ◌%◌, ◌+◌, ◌≤◌, ◌<◌, ◌≡◌, ◌↔◌, refl, String, false, true, Option, none, some, [], ◌∷◌, All,
  lookup, arith, str_eq, if◌then◌else◌,
}
use provence.Workflow.Path.{split}
use provence.Automation.Scheduler.{
  Outcome, ok, endless, star, ParsedCronExpression, parse_field, parse_cron_expression, part_values,
  part_of, base_of, number, next_minute, minute_ms, max_lookahead_minutes, words, trim,
  cron_aliases, values_from, union, digits, words_from,
}
use provence.Automation.Scheduler.Fields.{
  Ends, Returns, Within, parse_field-Within, star_endless_iff,
}
use provence.Automation.Scheduler.Next.{Found}
use provence.Automation.Scheduler.Plan.{
  ScheduleDefinition, DateParts, DayName, is_valid_timezone, matches_schedule,
  get_next_scheduled_run,
}
use provence.Automation.Scheduler.Plan.Laws.{get_next_scheduled_run-Found}
use provence.Workflow.Cron as Old
use provence.Workflow.Cron.Laws.{parse_field_same}
use provence.Workflow.Template.{trim_start, trim_end}
use provence.Tests.Rules.{host}

quarters : parse_field 0 59 "*/15,7" ≡ ok (0 ∷ 15 ∷ 30 ∷ 45 ∷ 7 ∷ [])
unfolding parse_field part_values part_of base_of number split union values_from digits
quarters = refl

-- A number beyond the bounds: the newer parser throws, the older one makes no value of it.
differ : (parse_field 0 59 "99" ≡ Outcome.throws) × (Old.parse_field 0 59 "99" ≡ ok [])
unfolding parse_field part_values part_of base_of number split union values_from digits
    Old.parse_field Old.part_values
differ = (refl, refl)

parse_field-Within_example :
    Ends (parse_field 0 59 "*/15,7") × Returns (All (Within 0 59)) (parse_field 0 59 "*/15,7")
unfolding part_of base_of number split digits
parse_field-Within_example = parse_field-Within 0 59 "*/15,7" refl

abbrev zero_step : Option ℕ
zero_step = some 0

star_endless_iff_example :
    (part_values 0 59 (record { base = star; step = zero_step }) ≡ endless) ↔ (zero_step ≡ some 0)
star_endless_iff_example = star_endless_iff 0 59 zero_step (omega arith)

abbrev new_years_day : ℕ → DateParts
new_years_day instant = record {
  year = 2026;
  month = 1;
  day = 1;
  hour = 24;
  minute = 0;
  weekday = DayName.thu;
}

abbrev formats : String → Option (ℕ → DateParts)
formats timezone = if str_eq timezone "UTC" then some new_years_day else none

abbrev yearly : ScheduleDefinition
yearly = record {
  cron_expression = "@yearly";
  timezone = none;
  business_days_only = some true;
  holidays = none;
  blackout_periods = none;
  execution_windows = none;
}

abbrev new_year : ParsedCronExpression
new_year = record {
  minutes = 0 ∷ [];
  hours = 0 ∷ [];
  days_of_month = 1 ∷ [];
  months = 1 ∷ [];
  days_of_week = 0 ∷ 1 ∷ 2 ∷ 3 ∷ 4 ∷ 5 ∷ 6 ∷ [];
  days_of_month_wildcard = false;
  days_of_week_wildcard = true;
}

parses : parse_cron_expression "@yearly" ≡ ok new_year
unfolding parse_cron_expression parse_field part_values part_of base_of number split union
    values_from digits words words_from trim cron_aliases lookup trim_start trim_end
parses = refl

parses_old : Old.parse_cron_expression "0 0 1 1 *" ≡ ok new_year
unfolding Old.parse_cron_expression Old.parse_field Old.part_values part_of base_of number split
    union values_from digits words words_from trim trim_start trim_end
parses_old = refl

get_next_scheduled_run-Found_example :
    (o : Option ℕ) × (get_next_scheduled_run host formats yearly 90_000 ≡ ok o)
    × (next_minute 90_000 % minute_ms ≡ 0)
    × (90_000 < next_minute 90_000)
    × (next_minute 90_000 ≤ 90_000 + minute_ms)
    × Found (matches_schedule host formats yearly) (next_minute 90_000) max_lookahead_minutes o
unfolding is_valid_timezone
get_next_scheduled_run-Found_example =
    get_next_scheduled_run-Found host formats yearly new_year 90_000 parses refl (omega arith)

parse_field_same_example : parse_field 0 59 "*/15,7" ≡ Old.parse_field 0 59 "*/15,7"
unfolding part_of base_of number split digits
parse_field_same_example = parse_field_same 0 59 "*/15,7" refl
