-- ===== src/Planning/Schedule.antt =====
-- The planning passes: `forwardPlan`, `reversePlan` and `computeFeasibility` of
-- src/services/case-planning.service.ts. A duration or a buffer is any integer, as
-- the columns are.
pub mod Sequential
use hpx_eigen_s1_foundation.Common.{
  ℕ, zero, suc, ◌+◌, ◌-◌, ◌*◌, Bool, true, false, not, Option, none, some, List, [], ◌∷◌, Text, leb,
  get_or_else, if◌then◌else◌,
}
use hpx_eigen_s1_foundation.Planning.Dates.{
  PlanningCalendar, day_ms, Walked, arrived, no_weekdays, out_of_fuel, add_working_days,
  subtract_working_days, SignedCount, ahead, working_days_between, CivilDates, add_months,
  subtract_months, date_only,
}

-- `Int`: `negsuc n` is -(n + 1).
pub data ℤ : Type 0 where
  pos negsuc : ℕ → ℤ

pub data DurationType : Type 0 where
  days weeks months : DurationType

pub record PlanStageInput : Type 0 where
  pub duration_value : Option ℤ
  pub duration_type : Option DurationType
  pub external_waiting : Bool
  pub buffer_days : Option ℤ
  pub depends_on_previous : Bool
  pub remaining_duration_override : Option ℤ
  pub started_at : Option ℕ

pub record ForwardResult : Type 0 where
  pub planned_start : ℕ
  pub planned_finish : ℕ

pub record ReverseResult : Type 0 where
  pub latest_start : ℕ
  pub latest_finish : ℕ

-- `addCalendarDays(date, n)` and `addCalendarDays(date, -n)`
abbrev pub add_days : ℕ → ℕ → ℕ
add_days date n = date + n * day_ms

abbrev pub subtract_days : ℕ → ℕ → ℕ
subtract_days date n = date - n * day_ms

-- `addCalendarDays(date, n)` and `addCalendarDays(date, -n)`, for an integer `n`
abbrev pub shift_onward : ℕ → ℤ → ℕ
shift_onward date (pos n) = add_days date n
shift_onward date (negsuc n) = subtract_days date (suc n)

abbrev pub shift_back : ℕ → ℤ → ℕ
shift_back date (pos n) = subtract_days date n
shift_back date (negsuc n) = add_days date (suc n)

infixl 5 ◌>>=◌
abbrev pub ◌>>=◌ : {A B : Type 0} → Walked A → (A → Walked B) → Walked B
arrived a >>= f = f a
no_weekdays >>= f = no_weekdays
out_of_fuel >>= f = out_of_fuel

abbrev pub or_option : Option ℤ → Option ℤ → Option ℤ
or_option none o = o
or_option (some n) o = some n

-- `effectiveDuration`
unfoldable pub effective_duration : PlanStageInput → Option ℤ
effective_duration s = or_option s.remaining_duration_override s.duration_value

module _ (iso : ℕ → Text) (cal : PlanningCalendar) (civil : CivilDates) (fuel : ℕ) where
  -- The last day of `suc v` units that start at `start`.
  unfoldable pub last_day : Option DurationType → Bool → ℕ → ℕ → Walked ℕ
  last_day none external start v = arrived start
  last_day (some DurationType.days) external start v =
      if external then arrived (add_days start v) else add_working_days iso cal fuel start v
  last_day (some DurationType.weeks) external start v = arrived (add_days start (suc v * 7 - 1))
  last_day (some DurationType.months) external start v =
      arrived (subtract_days (add_months civil start (suc v)) 1)

  -- The same for the negative duration -(v + 1), for which no working day is walked.
  unfoldable pub early_day : Option DurationType → Bool → ℕ → ℕ → Walked ℕ
  early_day none external start v = arrived start
  early_day (some DurationType.days) external start v =
      if external then arrived (subtract_days start (v + 2)) else arrived start
  early_day (some DurationType.weeks) external start v =
      arrived (subtract_days start (suc v * 7 + 1))
  early_day (some DurationType.months) external start v =
      arrived (subtract_days (subtract_months civil start (suc v)) 1)

  -- `occupiedEnd`
  unfoldable pub occupied_end : ℕ → PlanStageInput → Walked ℕ
  unfolding last_day early_day effective_duration
  occupied_end start s = elim (effective_duration s) [
    | none ↦ arrived start
    | some (pos zero) ↦ arrived start
    | some (pos (suc v)) ↦ last_day s.duration_type s.external_waiting start v
    | some (negsuc v) ↦ early_day s.duration_type s.external_waiting start v
  ]

  -- `finish`
  unfoldable pub finish : ℕ → PlanStageInput → Walked ℕ
  unfolding occupied_end
  finish start s = do
    occupied ← occupied_end start s
    arrived (shift_onward occupied (get_or_else s.buffer_days (pos 0)))

  unfoldable pub first_day : Option DurationType → Bool → ℕ → ℕ → Walked ℕ
  first_day none external occ v = arrived occ
  first_day (some DurationType.days) external occ v =
      if external then arrived (subtract_days occ v) else subtract_working_days iso cal fuel occ v
  first_day (some DurationType.weeks) external occ v = arrived (subtract_days occ (suc v * 7 - 1))
  first_day (some DurationType.months) external occ v =
      arrived (add_days (subtract_months civil occ (suc v)) 1)

  -- The same for the negative duration -(v + 1).
  unfoldable pub late_day : Option DurationType → Bool → ℕ → ℕ → Walked ℕ
  late_day none external occ v = arrived occ
  late_day (some DurationType.days) external occ v =
      if external then arrived (add_days occ (v + 2)) else arrived occ
  late_day (some DurationType.weeks) external occ v = arrived (add_days occ (suc v * 7 + 1))
  late_day (some DurationType.months) external occ v =
      arrived (add_days (add_months civil occ (suc v)) 1)

  -- `startFromFinish`
  unfoldable pub start_from_finish : ℕ → PlanStageInput → Walked ℕ
  unfolding first_day late_day effective_duration
  start_from_finish fin s =
      let occ = shift_back fin (get_or_else s.buffer_days (pos 0)) in
      elim (effective_duration s) [
        | none ↦ arrived occ
        | some (pos zero) ↦ arrived occ
        | some (pos (suc v)) ↦ first_day s.duration_type s.external_waiting occ v
        | some (negsuc v) ↦ late_day s.duration_type s.external_waiting occ v
      ]

  -- The start of a stage after the finish of the one before it, if there is one.
  unfoldable pub start_of : ℕ → Option ℕ → PlanStageInput → Walked ℕ
  start_of now previous s = elim s.started_at [
    | some at ↦ arrived (date_only at)
    | none ↦ elim previous [
      | none ↦ arrived now
      | some fin ↦ elim s.depends_on_previous [
        | true ↦ add_working_days iso cal fuel fin 1
        | false ↦ arrived now
      ]
    ]
  ]

  -- The loop of `forwardPlan`, from the finish of the previous stage.
  unfoldable pub forward_from : ℕ → Option ℕ → List PlanStageInput → Walked (List ForwardResult)
  unfolding start_of finish
  forward_from now previous [] = arrived []
  forward_from now previous (s ∷ stages) = do
    start ← start_of now previous s
    fin ← finish start s
    rest ← forward_from now (some fin) stages
    arrived (record { planned_start = start; planned_finish = fin } ∷ rest)

  -- `forwardPlan(stages, { now, calendar })`
  unfoldable pub forward_plan : ℕ → List PlanStageInput → Walked (List ForwardResult)
  unfolding forward_from
  forward_plan now stages = forward_from (date_only now) none stages

  -- The loop of `reversePlan`: the last stage finishes at the target, each other on the working day
  -- before the latest start of the next.
  abbrev finish_before : ℕ → List ReverseResult → Walked ℕ
  finish_before target [] = arrived target
  finish_before target (r ∷ later) = subtract_working_days iso cal fuel r.latest_start 1

  unfoldable pub reverse_from : ℕ → List PlanStageInput → Walked (List ReverseResult)
  unfolding start_from_finish
  reverse_from target [] = arrived []
  reverse_from target (s ∷ stages) = do
    later ← reverse_from target stages
    fin ← finish_before target later
    start ← start_from_finish fin s
    arrived (record { latest_start = start; latest_finish = fin } ∷ later)

  -- `reversePlan(stages, { targetDate, calendar })`
  unfoldable pub reverse_plan : ℕ → List PlanStageInput → Walked (List ReverseResult)
  unfolding reverse_from
  reverse_plan target stages = reverse_from (date_only target) stages

-- `Feasibility`
pub record Feasibility : Type 0 where
  pub feasible : Option Bool
  pub deficit_days : Option (Option SignedCount)

-- `computeFeasibility`; the count is missing when the fuel is spent.
unfoldable pub compute_feasibility :
    (ℕ → Text) → PlanningCalendar → ℕ → Option ℕ → Option ℕ → Feasibility
compute_feasibility iso cal fuel (some final_finish) (some target) =
    if leb final_finish target
    then record { feasible = some true; deficit_days = some (some (ahead 0)) }
    else record {
      feasible = some false;
      deficit_days = some (working_days_between iso cal fuel target final_finish);
    }
compute_feasibility iso cal fuel _ _ = record { feasible = none; deficit_days = none }
