-- ===== src/Planning/WorkingDays.antt =====
-- The walk over working days ends, and counting its days gives them back
-- (src/services/case-planning.dates.ts).
use hpx_eigen_s1_foundation.Common.{
  ℕ, zero, suc, ◌+◌, ◌*◌, ◌≤◌, ◌<◌, ◌≡◌, ◌≢◌, true, none, some, Text, arith, Bool-cases,
  Option-cases, inl, inr,
}
use hpx_eigen_s1_foundation.Planning.Dates.{
  PlanningCalendar, onward, day_ms, is_working_day, walk_days, count_days, arrived, out_of_fuel,
  walk, add_working_days, ahead, working_days_between,
}

module _ (iso : ℕ → Text) (cal : PlanningCalendar) where
  pub walk_days-not_before :
      (fuel left d : ℕ) {r : ℕ} → walk_days iso cal onward fuel left d ≡ some r → d ≤ r
  unfolding walk_days
  walk_days-not_before fuel zero d h = ground arith
  walk_days-not_before zero (suc left) d h = absurd (ground arith)
  walk_days-not_before (suc fuel) (suc left) d {r} h =
      elim (Bool-cases (is_working_day iso cal (d + day_ms))) [
        | inl works ↦
            omega (arith, walk_days-not_before fuel left (d + day_ms) {r = r} (ground arith))
        | inr rests ↦
            omega (arith, walk_days-not_before fuel (suc left) (d + day_ms) {r = r} (ground arith))
      ]

  pub walk_days-later :
      (fuel left d : ℕ) {r : ℕ} → walk_days iso cal onward fuel (suc left) d ≡ some r → d < r
  unfolding walk_days
  walk_days-later zero left d h = absurd (ground arith)
  walk_days-later (suc fuel) left d {r} h =
      elim (Bool-cases (is_working_day iso cal (d + day_ms))) [
        | inl works ↦
            omega (arith, walk_days-not_before fuel left (d + day_ms) {r = r} (ground arith))
        | inr rests ↦ omega (arith, walk_days-later fuel left (d + day_ms) {r = r} (ground arith))
      ]

  -- Counting to the day that a walk reached counts the days that it was to find.
  count_days-walk_days :
      (fuel count left d : ℕ) {r : ℕ}
      → walk_days iso cal onward fuel (suc left) d ≡ some r
      → count_days iso cal onward fuel count (d + day_ms) r ≡ some (count + suc left)
  unfolding walk_days count_days
  count_days-walk_days zero count left d h = absurd (ground arith)
  count_days-walk_days (suc fuel) count zero d {r} h =
      elim (Bool-cases (is_working_day iso cal (d + day_ms))) [
        | inl works ↦ ground arith
        | inr rests ↦
            let later = walk_days-later fuel zero (d + day_ms) {r = r} (ground arith) in
            ground (arith, count_days-walk_days fuel count zero (d + day_ms) {r = r})
      ]
  count_days-walk_days (suc fuel) count (suc left) d {r} h =
      elim (Bool-cases (is_working_day iso cal (d + day_ms))) [
        | inl works ↦
            let later = walk_days-later fuel left (d + day_ms) {r = r} (ground arith) in
            ground (arith, count_days-walk_days fuel (suc count) left (d + day_ms) {r = r})
        | inr rests ↦
            let later = walk_days-later fuel (suc left) (d + day_ms) {r = r} (ground arith) in
            ground (arith, count_days-walk_days fuel count (suc left) (d + day_ms) {r = r})
      ]

  -- The date that lies n working days ahead lies n working days ahead: counting the days up to the
  -- result of the addition gives back n, with the fuel that the addition had.
  pub working_days_between-add_working_days :
      (fuel date n r : ℕ)
      → add_working_days iso cal fuel date n ≡ arrived r
      → working_days_between iso cal fuel date r ≡ some (ahead n)
  unfolding add_working_days walk working_days_between
  working_days_between-add_working_days fuel date zero r h = unfold walk_days in ground arith
  working_days_between-add_working_days fuel date (suc n) r h =
      elim (Option-cases (walk_days iso cal onward fuel (suc n) date)) [
        | inl spent ↦ absurd (ground arith)
        | inr (s, found) ↦
            let counted = count_days-walk_days fuel 0 n date found in
            let later = walk_days-later fuel n date found in
            let same : s ≡ r = ground arith in rw (← same) (ground arith)
      ]

  -- After any date a working day comes within `gap` days.
  unfoldable pub HasWorkWithin : ℕ → Type 0
  HasWorkWithin gap =
      (d : ℕ) → (k : ℕ) × (k < gap) × (is_working_day iso cal (d + suc k * day_ms) ≡ true)

  -- A working day that lies ahead is found, and the walk goes on from a day not after it.
  walk_days-finds :
      (gap left k fuel d : ℕ)
      → ((fuel' d' : ℕ) → left * gap ≤ fuel' → walk_days iso cal onward fuel' left d' ≢ none)
      → is_working_day iso cal (d + suc k * day_ms) ≡ true
      → suc k + left * gap ≤ fuel
      → walk_days iso cal onward fuel (suc left) d ≢ none
  unfolding walk_days
  walk_days-finds gap left k zero d next works h e = omega arith
  walk_days-finds gap left zero (suc fuel) d next works h e =
      let here : d + suc zero * day_ms ≡ d + day_ms = omega arith in
      let now : is_working_day iso cal (d + day_ms) ≡ true = rw here at works in
      next fuel (d + day_ms) (omega arith) (ground arith)
  walk_days-finds gap left (suc k) (suc fuel) d next works h e =
      elim (Bool-cases (is_working_day iso cal (d + day_ms))) [
        | inl now ↦ next fuel (d + day_ms) (omega arith) (ground arith)
        | inr rests ↦
            let there : d + suc (suc k) * day_ms ≡ d + day_ms + suc k * day_ms = omega arith in
            walk_days-finds gap left k fuel (d + day_ms) next (rw there at works) (omega arith)
              (ground arith)
      ]

  walk_days-ends :
      (gap : ℕ)
      → HasWorkWithin gap
      → (left fuel d : ℕ) → left * gap ≤ fuel
      → walk_days iso cal onward fuel left d ≢ none
  unfolding HasWorkWithin
  walk_days-ends gap work zero fuel d h e = unfold walk_days in ground arith
  walk_days-ends gap work (suc left) fuel d h e =
      let (k, near, works) = work d in
      walk_days-finds gap left k fuel d (walk_days-ends gap work left) works (omega arith) e

  -- In a calendar in which a working day comes within `gap` days after any date, the addition of n
  -- working days ends within n * gap rounds.
  pub add_working_days-ends :
      (gap fuel date n : ℕ)
      → HasWorkWithin gap
      → n * gap ≤ fuel
      → add_working_days iso cal fuel date n ≢ out_of_fuel
  unfolding add_working_days walk
  add_working_days-ends gap fuel date n work h e =
      ground (arith, walk_days-ends gap work n fuel date h)
