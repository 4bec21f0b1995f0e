-- ===== src/Planning/Schedule/Sequential.antt =====
-- The order of the stages in a forward plan (src/services/case-planning.service.ts).
use mathlib.Core.Path.{subst}
use hpx_eigen_s1_foundation.Common.{
  ℕ, zero, suc, ◌+◌, ◌≤◌, ◌<◌, ◌≡◌, ◌≢◌, All, refl, Bool, true, false, Option, none, some, List, [],
  ◌∷◌, Text, arith, get_or_else, Option-cases, inl, inr,
}
use hpx_eigen_s1_foundation.Planning.Dates.{
  PlanningCalendar, day_ms, Walked, arrived, no_weekdays, out_of_fuel, walk, add_working_days,
  CivilDates, add_months, date_only,
}
use hpx_eigen_s1_foundation.Planning.WorkingDays.{walk_days-not_before, walk_days-later}
use hpx_eigen_s1_foundation.Planning.Schedule.{
  PlanStageInput, ForwardResult, DurationType, ℤ, pos, negsuc, shift_onward, effective_duration,
  last_day, occupied_end, finish, start_of, forward_from, forward_plan, ◌>>=◌,
}

-- Each stage ends no earlier than it starts, and one that depends on the stage before it, and has not
-- been started, starts after that one has finished.
unfoldable pub IsSequential : Option ℕ → List PlanStageInput → List ForwardResult → Type 0
IsSequential previous [] rs = Unit
IsSequential previous (s ∷ stages) [] = ⊥
IsSequential previous (s ∷ stages) (r ∷ rs) =
    (r.planned_start ≤ r.planned_finish)
    × ((fin : ℕ)
        → previous ≡ some fin
        → s.depends_on_previous ≡ true
        → s.started_at ≡ none
        → fin < r.planned_start)
    × IsSequential (some r.planned_finish) stages rs

-- The effective duration and the buffer of a stage, if it has them, are not negative.
abbrev pub IsForward : PlanStageInput → Type 0
IsForward s =
    ((v : ℕ) → effective_duration s ≢ some (negsuc v)) × ((v : ℕ) → s.buffer_days ≢ some (negsuc v))

-- What a chain that arrived went through.
bind_arrived :
    {A B : Type 0} (m : Walked A) (k : A → Walked B) {b : B}
    → (m >>= k) ≡ arrived b
    → (a : A) × (m ≡ arrived a) × (k a ≡ arrived b)
bind_arrived (arrived a) k h = (a, refl, h)
bind_arrived no_weekdays k h = absurd (ground arith)
bind_arrived out_of_fuel k h = absurd (ground arith)

planned-cons :
    {r : ForwardResult} {rest rs : List ForwardResult}
    → arrived (r ∷ rest) ≡ arrived rs
    → r ∷ rest ≡ rs
planned-cons e = ground arith

shift_onward-not_before :
    (d : ℕ) (buffer : Option ℤ)
    → ((v : ℕ) → buffer ≢ some (negsuc v))
    → d ≤ shift_onward d (get_or_else buffer (pos 0))
shift_onward-not_before d none forward = ground arith
shift_onward-not_before d (some (pos n)) forward = ground arith
shift_onward-not_before d (some (negsuc n)) forward = absurd (forward n refl)

module _ (iso : ℕ → Text) (cal : PlanningCalendar) (civil : CivilDates) (fuel : ℕ)
    (months_pass : (d n : ℕ) → d + day_ms ≤ add_months civil d (suc n)) where
  add_working_days-not_before :
      (d n : ℕ) {r : ℕ} → add_working_days iso cal fuel d n ≡ arrived r → d ≤ r
  unfolding add_working_days walk
  add_working_days-not_before d n {r} h =
      ground (arith, walk_days-not_before iso cal fuel n d {r = r})

  add_working_days-later :
      (d n : ℕ) {r : ℕ} → add_working_days iso cal fuel d (suc n) ≡ arrived r → d < r
  unfolding add_working_days walk
  add_working_days-later d n {r} h = ground (arith, walk_days-later iso cal fuel n d {r = r})

  last_day-not_before :
      (t : Option DurationType) (external : Bool) (start v : ℕ) {r : ℕ}
      → last_day iso cal civil fuel t external start v ≡ arrived r
      → start ≤ r
  unfolding last_day
  last_day-not_before none external start v h = ground arith
  last_day-not_before (some DurationType.days) true start v h = ground arith
  last_day-not_before (some DurationType.days) false start v h =
      add_working_days-not_before start v h
  last_day-not_before (some DurationType.weeks) external start v h = ground arith
  last_day-not_before (some DurationType.months) external start v h =
      ground (arith, months_pass start v)

  occupied_end-not_before :
      (start : ℕ) (s : PlanStageInput) {r : ℕ}
      → IsForward s
      → occupied_end iso cal civil fuel start s ≡ arrived r
      → start ≤ r
  unfolding occupied_end
  occupied_end-not_before start s {r} (lasts, buffers) h =
      elim (Option-cases (effective_duration s)) [
        | inl milestone ↦ ground arith
        | inr (pos zero, e) ↦ ground arith
        | inr (negsuc v, e) ↦ absurd (lasts v e)
        | inr (pos (suc v), e) ↦
            last_day-not_before s.duration_type s.external_waiting start v (ground arith)
      ]

  finish-not_before :
      (start : ℕ) (s : PlanStageInput) {r : ℕ}
      → IsForward s
      → finish iso cal civil fuel start s ≡ arrived r
      → start ≤ r
  unfolding finish
  finish-not_before start s {r} forward h =
      let (o, occupied, buffered) = bind_arrived (occupied_end iso cal civil fuel start s) _ h in
      let before = occupied_end-not_before start s forward occupied in
      let kept = shift_onward-not_before o s.buffer_days forward.1 in
      let same : shift_onward o (get_or_else s.buffer_days (pos 0)) ≡ r = ground arith in
      omega arith

  start_of-later :
      (now fin : ℕ) (s : PlanStageInput) {r : ℕ}
      → start_of iso cal civil fuel now (some fin) s ≡ arrived r
      → s.depends_on_previous ≡ true
      → s.started_at ≡ none
      → fin < r
  unfolding start_of
  start_of-later now fin s {r} h d n = ground (arith, add_working_days-later fin 0 {r = r})

  forward_from-IsSequential :
      (now : ℕ) (previous : Option ℕ) (stages : List PlanStageInput) (rs : List ForwardResult)
      → All IsForward stages
      → forward_from iso cal civil fuel now previous stages ≡ arrived rs
      → IsSequential previous stages rs
  unfolding forward_from IsSequential
  forward_from-IsSequential now previous [] rs forward h = tt
  forward_from-IsSequential now previous (s ∷ stages) rs (forward, after) h =
      let (start, began, later) = bind_arrived (start_of iso cal civil fuel now previous s) _ h in
      let (fin, ended, more) = bind_arrived (finish iso cal civil fuel start s) _ later in
      let (rest, planned, done) =
        bind_arrived (forward_from iso cal civil fuel now (some fin) stages) _ more in
      subst (IsSequential previous (s ∷ stages)) (planned-cons done) (
        finish-not_before start s forward ended,
        λ before e depends fresh.
            start_of-later now before s
              (subst (λ p. start_of iso cal civil fuel now p s ≡ arrived start) e began) depends
              fresh,
        forward_from-IsSequential now (some fin) stages rest after planned,
      )

-- In a forward plan of stages whose durations and buffers are not negative, each stage ends no earlier than it starts, and a stage that depends on the one
-- before it and has not been started begins after that one has finished. That a month is at least a
-- day long is assumed of the calendar.
pub forward_plan-IsSequential :
    (iso : ℕ → Text) (cal : PlanningCalendar) (civil : CivilDates) (fuel now : ℕ)
    (stages : List PlanStageInput) (rs : List ForwardResult)
    → ((d n : ℕ) → d + day_ms ≤ add_months civil d (suc n))
    → All IsForward stages
    → forward_plan iso cal civil fuel now stages ≡ arrived rs
    → IsSequential none stages rs
unfolding forward_plan
forward_plan-IsSequential iso cal civil fuel now stages rs months_pass forward h =
    forward_from-IsSequential iso cal civil fuel months_pass (date_only now) none stages rs forward
      h
