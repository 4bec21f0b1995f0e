-- ===== src/Planning/Sla/HardBlock.antt =====
-- When a stage is to be blocked (src/services/case-sla.compute.ts).
use hpx_eigen_s1_foundation.Common.{
  ℕ, ◌<◌, ◌≡◌, ◌↔◌, Bool, true, false, Option, none, some, Text, arith, ltb, Option-cases,
  Bool-cases, inl, inr,
}
use hpx_eigen_s1_foundation.Fields.Types.{Number}
use hpx_eigen_s1_foundation.Planning.Dates.{
  PlanningCalendar, arrived, date_only, working_days_between,
}
use hpx_eigen_s1_foundation.Planning.Sla.{
  StageStatus, pending, ready, in_progress, SlaState, SlaStageInput, open_state, running_state,
  compute_stage_sla_state, is_overdue, should_hard_block,
}

-- Work on the stage has not ended and does not wait.
abbrev pub is_running : StageStatus → Bool
is_running pending = true
is_running ready = true
is_running in_progress = true
is_running _ = false

module _ (iso : ℕ → Text) (cal : PlanningCalendar) (percent : ℕ → ℕ → ℕ → Number) (fuel : ℕ) where
  open_state-not_overdue :
      (stage : SlaStageInput) (fin today : ℕ) (s : Option SlaState)
      → open_state iso cal percent fuel stage fin today ≡ arrived s
      → is_overdue s ≡ false
  unfolding open_state
  open_state-not_overdue stage fin today s h =
      elim (Option-cases (working_days_between iso cal fuel today fin)) [
        | inl spent ↦ ground arith
        | inr (n, counted) ↦ ground arith
      ]

  running_state-overdue :
      (stage : SlaStageInput) (today : ℕ) (s : Option SlaState)
      → running_state iso cal percent fuel stage today ≡ arrived s
      → (is_overdue s ≡ true) ↔ ((fin : ℕ) × (stage.planned_finish ≡ some fin) × (fin < today))
  unfolding running_state
  running_state-overdue stage today s h = elim (Option-cases stage.planned_finish) [
    | inl unplanned ↦ (λ o. absurd (ground arith), λ (fin, planned, late). ground arith)
    | inr (fin, planned) ↦ elim (Bool-cases (ltb fin today)) [
      | inl late ↦ (λ o. (fin, planned, ground arith), λ _. ground arith)
      | inr early ↦
          let calm = open_state-not_overdue stage fin today s (ground arith) in
          (λ o. absurd (ground arith), λ (other, planned', late). absurd (ground arith))
    ]
  ]

  running_only :
      (stage : SlaStageInput) (now : ℕ) (s : Option SlaState)
      → compute_stage_sla_state iso cal percent fuel stage now ≡ arrived s
      → should_hard_block stage s ≡ true
      → (is_running stage.status ≡ true)
        × (stage.is_exception_approved ≡ false)
        × (running_state iso cal percent fuel stage (date_only now) ≡ arrived s)
  unfolding compute_stage_sla_state should_hard_block
  running_only stage now s h b = ground arith

-- A stage is to be blocked exactly if it runs, its planned finish lies before today, it is set to
-- block, nobody has unlocked it, and no exception was approved for it.
pub should_hard_block_iff :
    (iso : ℕ → Text) (cal : PlanningCalendar) (percent : ℕ → ℕ → ℕ → Number) (fuel now : ℕ)
    (stage : SlaStageInput) (s : Option SlaState)
    → compute_stage_sla_state iso cal percent fuel stage now ≡ arrived s
    → (should_hard_block stage s ≡ true) ↔ (
        (is_running stage.status ≡ true)
        × (stage.is_exception_approved ≡ false)
        × (stage.hard_block ≡ true)
        × (stage.hard_block_unlocked_at ≡ none)
        × ((fin : ℕ) × (stage.planned_finish ≡ some fin) × (fin < date_only now)))
unfolding should_hard_block
should_hard_block_iff iso cal percent fuel now stage s h = (
  λ b.
      let (runs, plain, running) = running_only iso cal percent fuel stage now s h b in
      let late =
        (running_state-overdue iso cal percent fuel stage (date_only now) s running).0
          (ground arith) in
      (runs, plain, ground arith, ground arith, late),
  λ (runs, plain, blocks, locked, late).
      let running : running_state iso cal percent fuel stage (date_only now) ≡ arrived s =
        unfold compute_stage_sla_state in ground arith in
      let over =
        (running_state-overdue iso cal percent fuel stage (date_only now) s running).1 late in
      ground arith,
)
