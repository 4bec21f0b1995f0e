-- ===== src/Planning/Sla.antt =====
-- The service level of a stage: src/services/case-sla.compute.ts. The share of the planned time that
-- has passed, `((today - start) / (finish - start)) * 100` in floating point, is a parameter.
pub mod HardBlock
use hpx_eigen_s1_foundation.Common.{
  ℕ, ◌+◌, ◌-◌, ◌^◌, Bool, true, false, not, ◌&&◌, ◌||◌, Option, none, some, is_some, Text, ltb, leb,
  get_or_else, if◌then◌else◌,
}
use hpx_eigen_s1_foundation.Fields.Types.{Number, less, number_of}
use hpx_eigen_s1_foundation.Planning.Dates.{
  PlanningCalendar, Walked, arrived, out_of_fuel, SignedCount, ahead, behind, working_days_between,
  date_only,
}

pub data StageStatus : Type 0 where
  pending ready in_progress waiting_external blocked completed skipped : StageStatus

pub data SlaState : Type 0 where
  on_track at_risk overdue waiting completed_on_time completed_late exception_approved : SlaState

pub record SlaStageInput : Type 0 where
  pub status : StageStatus
  pub completed_at : Option ℕ
  pub planned_start : Option ℕ
  pub planned_finish : Option ℕ
  pub at_risk_percent : Option Number
  pub warn_days_remaining : Option Number
  pub hard_block : Bool
  pub hard_block_unlocked_at : Option ℕ
  pub is_exception_approved : Bool

-- A signed count as a number; the sign is the top bit.
abbrev count_number : SignedCount → Number
count_number (ahead n) = number_of n
count_number (behind n) = number_of n + 2 ^ 63

abbrev pub default_at_risk_percent : Number
default_at_risk_percent = number_of 80

abbrev pub default_warn_days_remaining : Number
default_warn_days_remaining = number_of 2

module _ (iso : ℕ → Text) (cal : PlanningCalendar) (percent : ℕ → ℕ → ℕ → Number) (fuel : ℕ) where
  -- `elapsedPercent`
  unfoldable pub elapsed_percent : Option ℕ → ℕ → ℕ → Number
  elapsed_percent none fin today = number_of 100
  elapsed_percent (some start) fin today =
      if ltb start fin then percent today start fin else number_of 100

  -- A completed stage: on time, unless it was completed on a later day.
  abbrev completed_state : Option ℕ → ℕ → SlaState
  completed_state none fin = completed_on_time
  completed_state (some at) fin =
      if leb (date_only at) fin then completed_on_time else completed_late

  -- A stage whose planned finish has not passed.
  unfoldable pub open_state : SlaStageInput → ℕ → ℕ → Walked (Option SlaState)
  unfolding elapsed_percent working_days_between
  open_state stage fin today =
      if not (
        less (elapsed_percent stage.planned_start fin today)
          (get_or_else stage.at_risk_percent default_at_risk_percent))
      then arrived (some at_risk)
      else elim (working_days_between iso cal fuel today fin) [
        | none ↦ out_of_fuel
        | some n ↦ arrived (
            some (
              if not (
                less (get_or_else stage.warn_days_remaining default_warn_days_remaining)
                  (count_number n))
              then at_risk
              else on_track))
      ]

  -- A stage that runs, without an exception: overdue after its planned finish.
  unfoldable pub running_state : SlaStageInput → ℕ → Walked (Option SlaState)
  unfolding open_state
  running_state stage today = elim stage.planned_finish [
    | none ↦ arrived none
    | some fin ↦ if ltb fin today then arrived (some overdue) else open_state stage fin today
  ]

  -- `computeStageSlaState(stage, now, cal)`
  unfoldable pub compute_stage_sla_state : SlaStageInput → ℕ → Walked (Option SlaState)
  unfolding running_state
  compute_stage_sla_state stage now = elim stage.status [
    | completed ↦ elim stage.planned_finish [
      | none ↦ arrived none
      | some fin ↦ arrived (some (completed_state stage.completed_at fin))
    ]
    | skipped ↦ arrived none
    | waiting_external ↦
        arrived (some (if stage.is_exception_approved then exception_approved else waiting))
    | blocked ↦ arrived (some (if stage.is_exception_approved then exception_approved else overdue))
    | _ ↦
        if stage.is_exception_approved
        then arrived (some exception_approved)
        else running_state stage (date_only now)
  ]

abbrev pub is_overdue : Option SlaState → Bool
is_overdue (some overdue) = true
is_overdue _ = false

abbrev pub is_blocked : StageStatus → Bool
is_blocked blocked = true
is_blocked _ = false

-- `shouldHardBlock(stage, slaState)`
unfoldable pub should_hard_block : SlaStageInput → Option SlaState → Bool
should_hard_block stage state =
    is_overdue state
    && stage.hard_block
    && not (is_some stage.hard_block_unlocked_at)
    && not (is_blocked stage.status)
