-- ===== src/Automation/Scheduler/Plan.antt =====
-- Schedules: src/lib/automation/scheduler/schedule-engine.ts, with the wall clock of timezone.ts.
-- `Intl.DateTimeFormat`, which has the time zones of the platform, is a parameter.
pub mod Laws
use Prim.Native.String.{◌++◌, count}
use provence.Prelude.{
  ℕ, zero, suc, ◌+◌, ◌*◌, String, Bool, true, false, not, ◌&&◌, ◌||◌, Option, none, some, List, [],
  ◌∷◌, any, leb, ltb, str_eq, ◌==◌, if◌then◌else◌,
}
use provence.Prelude.Int.{ℤ, pos, ◌+ℤ◌, ◌*ℤ◌}
use provence.Json.{num, str}
use provence.Workflow.Path.{split}
use provence.Workflow.Evaluator.{Host, number_lt, number_le}
use provence.Automation.Scheduler.{
  Outcome, ok, throws, ◌>>=◌, CronFields, parse_cron_expression, matches_cron_fields, next_match,
}

pub record BlackoutPeriod : Type 0 where
  pub start : ℕ
  pub end : ℕ

pub record ExecutionWindow : Type 0 where
  pub start_time : String
  pub end_time : String

pub record ScheduleDefinition : Type 0 where
  pub cron_expression : String
  pub timezone : Option String
  pub business_days_only : Option Bool
  pub holidays : Option (List String)
  pub blackout_periods : Option (List BlackoutPeriod)
  pub execution_windows : Option (List ExecutionWindow)

pub record WallClockFields : Type 0 where
  pub year : ℕ
  pub month : ℕ
  pub day : ℕ
  pub hour : ℕ
  pub minute : ℕ
  pub weekday : ℕ

pub data DayName : Type 0 where
  sun mon tue wed thu fri sat : DayName

-- The parts that `formatToParts` gives for the options of `getFormatter`: numbers, and a day of the week.
pub record DateParts : Type 0 where
  pub year : ℕ
  pub month : ℕ
  pub day : ℕ
  pub hour : ℕ
  pub minute : ℕ
  pub weekday : DayName

unfoldable pub weekday_index : DayName → ℕ
weekday_index sun = 0
weekday_index mon = 1
weekday_index tue = 2
weekday_index wed = 3
weekday_index thu = 4
weekday_index fri = 5
weekday_index sat = 6

-- Some engines write midnight as 24.
unfoldable pub wall_clock_of : DateParts → WallClockFields
unfolding weekday_index
wall_clock_of parts = record {
  year = parts.year;
  month = parts.month;
  day = parts.day;
  hour = if parts.hour == 24 then 0 else parts.hour;
  minute = parts.minute;
  weekday = weekday_index parts.weekday;
}

abbrev pub is_business_day : ℕ → Bool
is_business_day weekday = leb 1 weekday && leb weekday 5

abbrev pub is_blacked_out : Option (List BlackoutPeriod) → ℕ → Bool
is_blacked_out none instant = false
is_blacked_out (some periods) instant =
    any (λ period. leb period.start instant && ltb instant period.end) periods

abbrev pub timezone_of : ScheduleDefinition → String
timezone_of schedule = elim schedule.timezone [ none ↦ "UTC" | some timezone ↦ timezone ]

-- `none` is NaN.
abbrev pub time_by : Option ℤ → Option ℤ → Option ℤ
time_by (some hours) (some minutes) = some (hours *ℤ pos 60 +ℤ minutes)
time_by _ _ = none

-- A window of the day. When it ends before it starts, it goes over midnight; so it does, in the source,
-- when one of its ends is NaN.
unfoldable pub in_window : Option ℤ → Option ℤ → Option ℤ → Bool
in_window start end minutes =
    if number_le start end
    then number_le start minutes && number_lt minutes end
    else number_le start minutes || number_lt minutes end

abbrev pub pad_2 : String → String
pad_2 s = if leb 2 (count s) then s else if leb 1 (count s) then "0" ++ s else "00" ++ s

-- `schedule.businessDaysOnly`, where the flag counts when it is true.
abbrev pub is_on : Option Bool → Bool
is_on none = false
is_on (some b) = b

abbrev pub includes_text : Option (List String) → String → Bool
includes_text none s = false
includes_text (some texts) s = any (λ t. str_eq t s) texts

abbrev pub max_time_ms : ℕ
max_time_ms = 8_640_000_000_000_000

module _ (host : Host) where
  abbrev pub number_text : ℕ → String
  number_text n = host.text_of (num (pos n))

  abbrev pub date_key : WallClockFields → String
  date_key fields =
      number_text fields.year
      ++ "-"
      ++ pad_2 (number_text fields.month)
      ++ "-"
      ++ pad_2 (number_text fields.day)

  -- `value.split(":").map(Number)`: the hours and the minutes, where what is missing is NaN.
  abbrev number_in : String → Option ℤ
  number_in s = host.number_of (some (str s))

  abbrev time_in : List String → Option ℤ
  time_in (hours ∷ minutes ∷ rest) = time_by (number_in hours) (number_in minutes)
  time_in _ = none

  unfoldable pub parse_time_of_day : String → Option ℤ
  unfolding split
  parse_time_of_day text = time_in (split b':' text)

  unfoldable pub is_within_execution_windows : Option (List ExecutionWindow) → ℕ → Bool
  unfolding parse_time_of_day in_window
  is_within_execution_windows none minutes = true
  is_within_execution_windows (some []) minutes = true
  is_within_execution_windows (some (window ∷ windows)) minutes =
      any
        (λ w.
          in_window (parse_time_of_day w.start_time) (parse_time_of_day w.end_time)
            (some (pos minutes)))
        (window ∷ windows)

  -- `new Intl.DateTimeFormat` with a time zone, and its `formatToParts`; `none` is the RangeError for a
  -- time zone that the platform does not know. The cache of formatters changes no result. A time beyond
  -- the range of `Date` is an invalid date, for which `formatToParts` throws a RangeError too.
  module _ (date_time_format : String → Option (ℕ → DateParts)) where
    unfoldable pub is_valid_timezone : String → Bool
    is_valid_timezone timezone = elim (date_time_format timezone) [
      | none ↦ false
      | some format ↦ true
    ]

    unfoldable pub get_wall_clock_fields : ℕ → String → Outcome WallClockFields
    unfolding wall_clock_of
    get_wall_clock_fields instant timezone = elim (date_time_format timezone) [
      | none ↦ throws
      | some format ↦
          if leb instant max_time_ms then ok (wall_clock_of (format instant)) else throws
    ]

    abbrev pub cron_fields : WallClockFields → CronFields
    cron_fields fields = record {
      minute = fields.minute;
      hour = fields.hour;
      day_of_month = fields.day;
      month = fields.month;
      day_of_week = fields.weekday;
    }

    -- The constraints beside the cron expression.
    unfoldable pub is_allowed : ScheduleDefinition → WallClockFields → ℕ → Bool
    unfolding is_within_execution_windows
    is_allowed schedule fields instant =
        not (is_on schedule.business_days_only && not (is_business_day fields.weekday))
        && not (includes_text schedule.holidays (date_key fields))
        && not (is_blacked_out schedule.blackout_periods instant)
        && is_within_execution_windows schedule.execution_windows (fields.hour * 60 + fields.minute)

    unfoldable pub matches_schedule : ScheduleDefinition → ℕ → Outcome Bool
    unfolding get_wall_clock_fields parse_cron_expression matches_cron_fields is_allowed
    matches_schedule schedule instant =
        get_wall_clock_fields instant (timezone_of schedule) >>= λ fields.
        parse_cron_expression schedule.cron_expression >>= λ parsed.
        ok (matches_cron_fields parsed (cron_fields fields) && is_allowed schedule fields instant)

    unfoldable pub get_next_scheduled_run : ScheduleDefinition → ℕ → Outcome (Option ℕ)
    unfolding next_match matches_schedule
    get_next_scheduled_run schedule after = next_match (matches_schedule schedule) after
