-- ===== src/Automation/Scheduler/Plan/Laws.antt =====
-- What a schedule lets run (src/lib/automation/scheduler/schedule-engine.ts).
use provence.Prelude.{
  ℕ, ◌+◌, ◌*◌, ◌%◌, ◌≤◌, ◌<◌, ◌≡◌, ◌≢◌, refl, String, Bool, not, ◌&&◌, Option, some, arith, true,
  false, Option-cases, inl, inr,
}
use provence.Prelude.Int.{ℤ, eq_of_parts}
use provence.Workflow.Evaluator.{Host}
use provence.Automation.Scheduler.{
  ok, throws, next_match, ParsedCronExpression, parse_cron_expression, matches_cron_fields,
  next_minute, minute_ms, max_lookahead_minutes,
}
use provence.Automation.Scheduler.Next.{Found, search_throws, next_match-Found}
use provence.Automation.Scheduler.Plan.{
  ScheduleDefinition, DateParts, WallClockFields, wall_clock_of, is_valid_timezone, max_time_ms,
  get_wall_clock_fields, timezone_of, in_window, is_allowed, cron_fields, matches_schedule,
  get_next_scheduled_run,
}

-- A window over midnight is the rest of the day: a minute is in the window from `a` to `b` exactly when
-- it is not in the window from `b` to `a`, for two different times of the day.
pub in_window-swap :
    (a b minutes : ℤ)
    → a ≢ b
    → in_window (some a) (some b) (some minutes) ≡ not (in_window (some b) (some a) (some minutes))
unfolding in_window
in_window-swap a b minutes ne = ground (arith, ne, eq_of_parts a b)

module _ (host : Host) (date_time_format : String → Option (ℕ → DateParts)) where
  get_wall_clock_fields-ok :
      (instant : ℕ) (timezone : String)
      → is_valid_timezone host date_time_format timezone ≡ true
      → instant ≤ max_time_ms
      → (fields : WallClockFields) × (get_wall_clock_fields host date_time_format instant timezone
          ≡ ok fields)
  unfolding is_valid_timezone get_wall_clock_fields
  get_wall_clock_fields-ok instant timezone valid le =
      elim (Option-cases (date_time_format timezone)) [
        | inl unknown ↦ absurd (let h = rw (unknown, is_valid_timezone) at valid in cc)
        | inr (format, known) ↦
            (wall_clock_of (format instant), rw (known, get_wall_clock_fields) (ground arith))
      ]

  get_wall_clock_fields_throws :
      (instant : ℕ) (timezone : String)
      → is_valid_timezone host date_time_format timezone ≡ false
      → get_wall_clock_fields host date_time_format instant timezone ≡ throws
  unfolding is_valid_timezone get_wall_clock_fields
  get_wall_clock_fields_throws instant timezone invalid =
      elim (Option-cases (date_time_format timezone)) [
        | inl unknown ↦ rw (unknown, get_wall_clock_fields) refl
        | inr (format, known) ↦ absurd (let h = rw (known, is_valid_timezone) at invalid in cc)
      ]

  matches_schedule-ok :
      (schedule : ScheduleDefinition) (parsed : ParsedCronExpression) (instant : ℕ)
      → parse_cron_expression schedule.cron_expression ≡ ok parsed
      → is_valid_timezone host date_time_format (timezone_of schedule) ≡ true
      → instant ≤ max_time_ms
      → (b : Bool) × (matches_schedule host date_time_format schedule instant ≡ ok b)
  unfolding matches_schedule
  matches_schedule-ok schedule parsed instant h valid le =
      let (fields, known) = get_wall_clock_fields-ok instant (timezone_of schedule) valid le in
      (
        matches_cron_fields parsed (cron_fields host date_time_format fields)
            && is_allowed host date_time_format schedule fields instant,
        rw (known, h, matches_schedule) refl,
      )

  matches_schedule_throws :
      (schedule : ScheduleDefinition) (instant : ℕ)
      → is_valid_timezone host date_time_format (timezone_of schedule) ≡ false
      → matches_schedule host date_time_format schedule instant ≡ throws
  unfolding matches_schedule
  matches_schedule_throws schedule instant invalid =
      let unknown = get_wall_clock_fields_throws instant (timezone_of schedule) invalid in
      rw (unknown, matches_schedule) refl

  -- A search for the next run in a time zone that the platform does not know throws.
  pub get_next_scheduled_run_throws :
      (schedule : ScheduleDefinition) (after : ℕ)
      → is_valid_timezone host date_time_format (timezone_of schedule) ≡ false
      → get_next_scheduled_run host date_time_format schedule after ≡ throws
  unfolding get_next_scheduled_run next_match
  get_next_scheduled_run_throws schedule after invalid =
      search_throws (matches_schedule host date_time_format schedule) max_lookahead_minutes
        (next_minute after) (omega arith)
        (matches_schedule_throws schedule (next_minute after) invalid)

  -- With a cron expression that parses and a time zone that the platform knows, and for a time from
  -- which 366 days and a minute do not pass the end of the range of `Date`, the search for the next run
  -- of a schedule returns. A time that it returns is the first full minute after `after` that matches
  -- the schedule; if it returns none, no minute of the 366 days from the next one on matches.
  pub get_next_scheduled_run-Found :
      (schedule : ScheduleDefinition) (parsed : ParsedCronExpression) (after : ℕ)
      → parse_cron_expression schedule.cron_expression ≡ ok parsed
      → is_valid_timezone host date_time_format (timezone_of schedule) ≡ true
      → next_minute after + max_lookahead_minutes * minute_ms ≤ max_time_ms
      → (o : Option ℕ) × (get_next_scheduled_run host date_time_format schedule after ≡ ok o)
        × (next_minute after % minute_ms ≡ 0)
        × (after < next_minute after)
        × (next_minute after ≤ after + minute_ms)
        × Found
            (matches_schedule host date_time_format schedule)
            (next_minute after)
            max_lookahead_minutes
            o
  unfolding get_next_scheduled_run
  get_next_scheduled_run-Found schedule parsed after h valid le =
      next_match-Found (matches_schedule host date_time_format schedule) after (λ i lt.
        matches_schedule-ok schedule parsed (next_minute after + i * minute_ms) h valid
          (omega (arith, lt, le)))
