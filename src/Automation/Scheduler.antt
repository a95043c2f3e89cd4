-- ===== src/Automation/Scheduler.antt =====
-- The scheduler of the Automation Engine: src/lib/automation/scheduler. This module has cron expressions
-- (cron-engine.ts), and the search for the next minute that matches, which the older
-- src/lib/workflows/triggers/cron.ts has too.
pub mod Fields
pub mod Plan
pub mod Next
use Prim.Native.Char.{Char, code}
use provence.Prelude.{
  ℕ, zero, suc, ◌+◌, ◌-◌, ◌*◌, ◌%◌, String, Bool, true, false, not, ◌&&◌, ◌||◌, Option, none, some,
  List, [], ◌∷◌, ◌++◌ as append, Map, lookup, any, ltb, leb, ◌==◌, str_eq, if◌then◌else◌,
}
use provence.Workflow.Path.{split, is_digit}
use provence.Workflow.Template.{is_space, is_empty, trim_start, trim_end}

-- What a call comes to: a value, an exception, or a loop that does not end.
pub data Outcome (A : Type 0) : Type 0 where
  ok : A → Outcome A
  throws : Outcome A
  endless : Outcome A

infixl 5 ◌>>=◌
abbrev pub ◌>>=◌ : {A B : Type 0} → Outcome A → (A → Outcome B) → Outcome B
ok a >>= f = f a
throws >>= f = throws
endless >>= f = endless

-- `for (let value = start; value <= end; value += step)`: the values, or `endless` when it has not
-- ended after `fuel` rounds.
unfoldable pub values_from : ℕ → ℕ → ℕ → ℕ → Outcome (List ℕ)
values_from zero value end step = if ltb end value then ok [] else endless
values_from (suc fuel) value end step =
    let rest = values_from fuel (value + step) end step in
    if ltb end value then ok [] else (rest >>= λ values. ok (value ∷ values))

-- Every loop of a field ends after at most `end + 1` rounds, if its step is not 0.
abbrev pub values : ℕ → ℕ → ℕ → Outcome (List ℕ)
values start end step = values_from (suc end) start end step

-- A part of a field: `^(\*|\d+|\d+-\d+)(?:\/(\d+))?$`.
pub data Base : Type 0 where
  star : Base
  value : ℕ → Base
  range : ℕ → ℕ → Base

pub record Part : Type 0 where
  pub base : Base
  pub step : Option ℕ

unfoldable pub digits : ℕ → String → Option ℕ
digits n String.[] = some n
digits n (String.◌∷◌ c s) =
    let more = digits (10 * n + (code c - b'0')) s in if is_digit (code c) then more else none

-- `\d+`
unfoldable pub number : String → Option ℕ
unfolding digits
number s = if is_empty s then none else digits 0 s

abbrev single : Option ℕ → Option Base
single none = none
single (some n) = some (value n)

abbrev pair : Option ℕ → Option ℕ → Option Base
pair (some a) (some b) = some (range a b)
pair _ _ = none

abbrev base_by : List String → Option Base
base_by (a ∷ []) = single (number a)
base_by (a ∷ b ∷ []) = pair (number a) (number b)
base_by _ = none

unfoldable pub base_of : String → Option Base
unfolding number split
base_of s = if str_eq s "*" then some star else base_by (split b'-' s)

abbrev with_step : Option Base → Option ℕ → Option Part
with_step (some base) (some step) = some (record { base = base; step = some step })
with_step _ _ = none

abbrev without_step : Option Base → Option Part
without_step none = none
without_step (some base) = some (record { base = base; step = none })

abbrev part_by : List String → Option Part
part_by (base ∷ []) = without_step (base_of base)
part_by (base ∷ step ∷ []) = with_step (base_of base) (number step)
part_by _ = none

unfoldable pub part_of : String → Option Part
unfolding base_of number split
part_of s = part_by (split b'/' s)

abbrev pub step_of : Option ℕ → ℕ
step_of none = 1
step_of (some step) = step

-- The values of one part, between `min` and `max`.
unfoldable pub part_values : ℕ → ℕ → Part → Outcome (List ℕ)
unfolding values_from
part_values min max part = elim part.base [
  | star ↦ values min max (step_of part.step)
  | range start end ↦
      if ltb end start || ltb start min || ltb max end
      then throws
      else values start end (step_of part.step)
  | value n ↦
      if ltb n min || ltb max n
      then throws
      else elim part.step [ none ↦ ok (n ∷ []) | some step ↦ values n max step ]
]

-- The union of the parts. The first exception or endless loop is the outcome.
unfoldable pub union : (Part → Outcome (List ℕ)) → List String → Outcome (List ℕ)
unfolding part_of
union meaning [] = ok []
union meaning (text ∷ texts) =
    let rest = union meaning texts in
    elim (part_of text) [
      | none ↦ throws
      | some part ↦ meaning part >>= λ first. rest >>= λ others. ok (append first others)
    ]

unfoldable pub parse_field : ℕ → ℕ → String → Outcome (List ℕ)
unfolding union part_values split
parse_field min max field = union (part_values min max) (split b',' field)

-- A set of numbers is the list of its members.
abbrev pub has : ℕ → List ℕ → Bool
has n ns = any (λ m. m == n) ns

pub record ParsedCronExpression : Type 0 where
  pub minutes : List ℕ
  pub hours : List ℕ
  pub days_of_month : List ℕ
  pub months : List ℕ
  pub days_of_week : List ℕ
  pub days_of_month_wildcard : Bool
  pub days_of_week_wildcard : Bool

pub record CronFields : Type 0 where
  pub minute : ℕ
  pub hour : ℕ
  pub day_of_month : ℕ
  pub month : ℕ
  pub day_of_week : ℕ

unfoldable pub cron_aliases : Map String
cron_aliases =
    ("@yearly", "0 0 1 1 *")
    ∷ ("@annually", "0 0 1 1 *")
    ∷ ("@monthly", "0 0 1 * *")
    ∷ ("@weekly", "0 0 * * 0")
    ∷ ("@daily", "0 0 * * *")
    ∷ ("@midnight", "0 0 * * *")
    ∷ ("@hourly", "0 * * * *")
    ∷ []

-- `text.split(/\s+/)` of a text that begins and ends with no white space. Of the empty text the source
-- makes one field, here there is none: neither is five.
abbrev push : String → List String → List String
push word words = if is_empty word then words else word ∷ words

abbrev pub extend : Char → String × List String → String × List String
extend c (word, words) =
    if is_space (code c) then ("", push word words) else (String.◌∷◌ c word, words)

unfoldable pub words_from : String → String × List String
words_from String.[] = ("", [])
words_from (String.◌∷◌ c s) = extend c (words_from s)

unfoldable pub words : String → List String
unfolding words_from
words s = let (word, rest) = words_from s in push word rest

module _ (field : ℕ → ℕ → String → Outcome (List ℕ)) where
  abbrev pub parse_fields : List String → Outcome ParsedCronExpression
  parse_fields (minute ∷ hour ∷ day_of_month ∷ month ∷ day_of_week ∷ []) =
      field 0 59 minute >>= λ minutes. field 0 23 hour >>= λ hours.
      field 1 31 day_of_month >>= λ days_of_month. field 1 12 month >>= λ months.
      field 0 6 day_of_week >>= λ days_of_week. ok (record {
        minutes = minutes;
        hours = hours;
        days_of_month = days_of_month;
        months = months;
        days_of_week = days_of_week;
        days_of_month_wildcard = str_eq day_of_month "*";
        days_of_week_wildcard = str_eq day_of_week "*";
      })
  parse_fields _ = throws

unfoldable pub trim : String → String
unfolding trim_start trim_end
trim s = trim_end (trim_start s)

abbrev normalized : Option String → String → String
normalized none trimmed = trimmed
normalized (some expression) trimmed = expression

unfoldable pub parse_cron_expression : String → Outcome ParsedCronExpression
unfolding parse_field words cron_aliases trim
parse_cron_expression expression =
    let trimmed = trim expression in
    parse_fields parse_field (words (normalized (lookup trimmed cron_aliases) trimmed))

unfoldable pub matches_cron_fields : ParsedCronExpression → CronFields → Bool
matches_cron_fields parsed fields =
    let month_day = has fields.day_of_month parsed.days_of_month in
    let week_day = has fields.day_of_week parsed.days_of_week in
    has fields.minute parsed.minutes
    && has fields.hour parsed.hours
    && has fields.month parsed.months
    && (if not parsed.days_of_month_wildcard && not parsed.days_of_week_wildcard
        then month_day || week_day
        else month_day && week_day)

abbrev pub minute_ms : ℕ
minute_ms = 60_000

abbrev pub max_lookahead_minutes : ℕ
max_lookahead_minutes = 366 * 24 * 60

-- The loop of `getNextScheduledRun` and of `getNextCronRun`, with the rounds that are left.
unfoldable pub search : (ℕ → Outcome Bool) → ℕ → ℕ → Outcome (Option ℕ)
search test zero candidate = ok none
search test (suc left) candidate =
    let rest = search test left (candidate + minute_ms) in
    test candidate >>= λ found. if found then ok (some candidate) else rest

-- `setUTCSeconds(0, 0)`, and a minute on.
abbrev pub next_minute : ℕ → ℕ
next_minute after = after - after % minute_ms + minute_ms

unfoldable pub next_match : (ℕ → Outcome Bool) → ℕ → Outcome (Option ℕ)
unfolding search
next_match test after = search test max_lookahead_minutes (next_minute after)
