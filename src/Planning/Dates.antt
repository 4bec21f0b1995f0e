-- ===== src/Planning/Dates.antt =====
-- Working days: src/services/case-planning.dates.ts. A date is its number of milliseconds from the
-- earliest date of JavaScript, 100 000 000 days before the epoch and a Tuesday, so that no date is
-- negative; `iso` is `toISOString`, a parameter.
use Prim.Native.Nat.{min}
use hpx_eigen_s1_foundation.Common.{
  ℕ, zero, suc, ◌+◌, ◌-◌, ◌/◌, ◌%◌, ◌*◌, Bool, true, false, not, ◌&&◌, Option, none, some, List, [],
  ◌∷◌, Text, ◌==◌, ltb, take, if◌then◌else◌,
}
use hpx_eigen_s1_foundation.Fields.Graph.{has}
use hpx_eigen_s1_foundation.Fields.Values.{has_text}

pub record PlanningCalendar : Type 0 where
  pub working_weekdays : List ℕ
  pub holidays : List Text

abbrev pub day_ms : ℕ
day_ms = 86400000

-- `date.getUTCDay()`
unfoldable pub weekday : ℕ → ℕ
weekday date = (date / day_ms + 2) % 7

-- `dir`, 1 or -1
pub data Direction : Type 0 where
  onward backward : Direction

-- `addCalendarDays(d, dir)`
abbrev pub next_day : Direction → ℕ → ℕ
next_day onward d = d + day_ms
next_day backward d = d - day_ms

-- What a walk gives: it throws when no weekday is a working day and a day is to be found.
pub data Walked (A : Type 0) : Type 0 where
  arrived : A → Walked A
  no_weekdays out_of_fuel : Walked A

abbrev pub is_nil : List ℕ → Bool
is_nil [] = true
is_nil (x ∷ xs) = false

abbrev walked : Option ℕ → Walked ℕ
walked none = out_of_fuel
walked (some d) = arrived d

-- A signed count: `ahead n` is n, `behind n` is -n.
pub data SignedCount : Type 0 where
  ahead behind : ℕ → SignedCount

abbrev signed : Direction → Option ℕ → Option SignedCount
signed dir none = none
signed onward (some n) = some (ahead n)
signed backward (some n) = some (behind n)

module _ (iso : ℕ → Text) (cal : PlanningCalendar) where
  unfoldable pub is_working_day : ℕ → Bool
  unfolding weekday has
  is_working_day date =
      has (weekday date) cal.working_weekdays && not (has_text (take 10 (iso date)) cal.holidays)

  -- The loop of `walk`, one day for each unit of fuel; `none` when the fuel is spent.
  unfoldable pub walk_days : Direction → ℕ → ℕ → ℕ → Option ℕ
  unfolding is_working_day
  walk_days dir fuel zero d = some d
  walk_days dir zero (suc left) d = none
  walk_days dir (suc fuel) (suc left) d =
      let next = next_day dir d in
      elim (is_working_day next) [
        | true ↦ walk_days dir fuel left next
        | false ↦ walk_days dir fuel (suc left) next
      ]

  -- The loop of `workingDaysBetween` from the date `d`, which it counts, to `to`.
  unfoldable pub count_days : Direction → ℕ → ℕ → ℕ → ℕ → Option ℕ
  unfolding is_working_day
  count_days dir zero count d to = none
  count_days dir (suc fuel) count d to =
      let counted = if is_working_day d then suc count else count in
      elim (d == to) [
        | true ↦ some counted
        | false ↦ count_days dir fuel counted (next_day dir d) to
      ]

  -- `walk(date, n, dir, cal)`
  unfoldable pub walk : Direction → ℕ → ℕ → ℕ → Walked ℕ
  unfolding walk_days
  walk dir fuel date n =
      if ltb 0 n && is_nil cal.working_weekdays
      then no_weekdays
      else walked (walk_days dir fuel n date)

  unfoldable pub add_working_days : ℕ → ℕ → ℕ → Walked ℕ
  unfolding walk
  add_working_days fuel date n = walk onward fuel date n

  unfoldable pub subtract_working_days : ℕ → ℕ → ℕ → Walked ℕ
  unfolding walk
  subtract_working_days fuel date n = walk backward fuel date n

  unfoldable pub working_days_between : ℕ → ℕ → ℕ → Option SignedCount
  unfolding count_days
  working_days_between fuel from to =
      if from == to
      then some (ahead 0)
      else if ltb from to
      then signed onward (count_days onward fuel 0 (next_day onward from) to)
      else signed backward (count_days backward fuel 0 (next_day backward from) to)

-- The fields of a date that `addMonths` reads, and `Date.UTC`: `month_of` counts the months of the
-- year and the year, and `utc m 0` is the last day before the month `m`. Parameters.
pub record CivilDates : Type 0 where
  pub month_of : ℕ → ℕ
  pub day_of : ℕ → ℕ
  pub utc : (month day : ℕ) → ℕ

-- The date in the month `m`, on the day of `date` or the last day of the month.
unfoldable pub clamp_to_month : CivilDates → ℕ → ℕ → ℕ
clamp_to_month civil date m =
    civil.utc m (min (civil.day_of date) (civil.day_of (civil.utc (m + 1) 0)))

-- `addMonths(date, n)` and `addMonths(date, -n)`
unfoldable pub add_months : CivilDates → ℕ → ℕ → ℕ
unfolding clamp_to_month
add_months civil date n = clamp_to_month civil date (civil.month_of date + n)

unfoldable pub subtract_months : CivilDates → ℕ → ℕ → ℕ
unfolding clamp_to_month
subtract_months civil date n = clamp_to_month civil date (civil.month_of date - n)

-- `dateOnly`: a date is aligned to its day.
unfoldable pub date_only : ℕ → ℕ
date_only date = date / day_ms * day_ms
