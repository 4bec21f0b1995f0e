-- ===== src/Tests/Planning.antt =====
-- The planning of stages on a concrete calendar.
use hpx_eigen_s1_foundation.Common.{
  ◌↔◌, ◌<◌, ℕ, suc, ◌+◌, ◌-◌, ◌*◌, ◌/◌, ◌%◌, ◌≤◌, ◌≡◌, ◌≢◌, refl, true, false, none, some, List, [],
  ◌∷◌, Text, arith,
}
use hpx_eigen_s1_foundation.Fields.Graph.{has}
use hpx_eigen_s1_foundation.Planning.Dates.{
  PlanningCalendar, day_ms, weekday, is_working_day, arrived, out_of_fuel, add_working_days, ahead,
  working_days_between, CivilDates, add_months, clamp_to_month, date_only,
}
use hpx_eigen_s1_foundation.Planning.WorkingDays.{
  HasWorkWithin, working_days_between-add_working_days, add_working_days-ends,
}
use hpx_eigen_s1_foundation.Planning.Sla.{
  in_progress, overdue, SlaStageInput, compute_stage_sla_state, should_hard_block,
}
use hpx_eigen_s1_foundation.Planning.Sla.HardBlock.{is_running, should_hard_block_iff}
use hpx_eigen_s1_foundation.Planning.Schedule.{
  DurationType, pos, negsuc, effective_duration, PlanStageInput, ForwardResult, forward_plan,
}
use hpx_eigen_s1_foundation.Planning.Schedule.Sequential.{IsSequential, forward_plan-IsSequential}

abbrev no_iso : ℕ → Text
no_iso d = []

-- Monday to Friday.
abbrev office : PlanningCalendar
office = record { working_weekdays = 1 ∷ 2 ∷ 3 ∷ 4 ∷ 5 ∷ []; holidays = [] }

abbrev every_day : PlanningCalendar
every_day = record { working_weekdays = 0 ∷ 1 ∷ 2 ∷ 3 ∷ 4 ∷ 5 ∷ 6 ∷ []; holidays = [] }

-- From Tuesday, day 0, four working days lead over the weekend to Monday, day 6.
over_the_weekend : add_working_days no_iso office 10 0 4 ≡ arrived (6 * day_ms)
unfolding add_working_days
over_the_weekend = refl

working_days_between-add_working_days_example :
    working_days_between no_iso office 10 0 (6 * day_ms) ≡ some (ahead 4)
working_days_between-add_working_days_example =
    working_days_between-add_working_days no_iso office 10 0 4 (6 * day_ms) over_the_weekend

every_day-HasWorkWithin : HasWorkWithin no_iso every_day 1
unfolding HasWorkWithin is_working_day weekday has
every_day-HasWorkWithin d = (0, omega arith, ground arith)

add_working_days-ends_example : add_working_days no_iso every_day 3 0 3 ≢ out_of_fuel
add_working_days-ends_example =
    add_working_days-ends no_iso every_day 1 3 0 3 every_day-HasWorkWithin (omega arith)

abbrev month_ms : ℕ
month_ms = 2592000000

-- A calendar in which every month has thirty days.
abbrev thirty_days : CivilDates
thirty_days = record {
  month_of = λ d. d / month_ms;
  day_of = λ d. d % month_ms / day_ms + 1;
  utc = λ m day. m * month_ms + day * day_ms - day_ms;
}

months_pass : (d n : ℕ) → d + day_ms ≤ add_months thirty_days d (suc n)
unfolding add_months clamp_to_month
months_pass d n = omega arith

-- Three days of work, and one more that waits for them and is followed by a day's buffer.
abbrev two_stages : List PlanStageInput
two_stages =
    record {
      duration_value = some (pos 3);
      duration_type = some DurationType.days;
      external_waiting = false;
      buffer_days = none;
      depends_on_previous = false;
      remaining_duration_override = none;
      started_at = none;
    }
    ∷ record {
      duration_value = some (pos 1);
      duration_type = some DurationType.days;
      external_waiting = false;
      buffer_days = some (pos 1);
      depends_on_previous = true;
      remaining_duration_override = none;
      started_at = none;
    }
    ∷ []

abbrev two_plans : List ForwardResult
two_plans =
    record { planned_start = 0; planned_finish = 2 * day_ms }
    ∷ record { planned_start = 3 * day_ms; planned_finish = 4 * day_ms }
    ∷ []

stages_are_planned : forward_plan no_iso office thirty_days 10 0 two_stages ≡ arrived two_plans
unfolding forward_plan add_working_days date_only
stages_are_planned = refl

forward_plan-IsSequential_example : IsSequential none two_stages two_plans
unfolding effective_duration
forward_plan-IsSequential_example =
    forward_plan-IsSequential no_iso office thirty_days 10 0 two_stages two_plans months_pass
      (
        ((λ v e. ground arith), (λ v e. ground arith)),
        (((λ v e. ground arith), (λ v e. ground arith)), tt),
      )
      stages_are_planned

-- A stage of one day with a buffer of minus two days ends before it starts.
abbrev backward_stage : List PlanStageInput
backward_stage =
    record {
      duration_value = some (pos 1);
      duration_type = some DurationType.days;
      external_waiting = false;
      buffer_days = some (negsuc 1);
      depends_on_previous = false;
      remaining_duration_override = none;
      started_at = none;
    }
    ∷ []

ends_before_it_starts :
    forward_plan no_iso office thirty_days 10 (5 * day_ms) backward_stage
    ≡ arrived (record { planned_start = 5 * day_ms; planned_finish = 3 * day_ms } ∷ [])
unfolding forward_plan add_working_days date_only
ends_before_it_starts = refl

abbrev no_share : ℕ → ℕ → ℕ → ℕ
no_share today start fin = 0

-- A stage in progress that was to be finished on day 2.
abbrev late_stage : SlaStageInput
late_stage = record {
  status = in_progress;
  completed_at = none;
  planned_start = some 0;
  planned_finish = some (2 * day_ms);
  at_risk_percent = none;
  warn_days_remaining = none;
  hard_block = true;
  hard_block_unlocked_at = none;
  is_exception_approved = false;
}

stage_is_overdue :
    compute_stage_sla_state no_iso office no_share 10 late_stage (3 * day_ms)
    ≡ arrived (some overdue)
unfolding compute_stage_sla_state date_only
stage_is_overdue = refl

should_hard_block_iff_example : (should_hard_block late_stage (some overdue) ≡ true) ↔ (
    (is_running in_progress ≡ true)
    × (false ≡ false)
    × (true ≡ true)
    × (late_stage.hard_block_unlocked_at ≡ none)
    × ((fin : ℕ) × (late_stage.planned_finish ≡ some fin) × (fin < date_only (3 * day_ms))))
should_hard_block_iff_example =
    should_hard_block_iff no_iso office no_share 10 (3 * day_ms) late_stage (some overdue)
      stage_is_overdue
