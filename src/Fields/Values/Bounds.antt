-- ===== src/Fields/Values/Bounds.antt =====
-- The limits that a coerced value obeys (src/services/case-field-value.validation.ts).
use hpx_eigen_s1_foundation.Common.{
  ℕ, ◌≡◌, Bool, true, false, ◌||◌, Option, some, Text, codes, arith, ltb, length, if◌then◌else◌,
  get_or_else,
}
use hpx_eigen_s1_foundation.Store.{ServiceError, Result, ok, err}
use hpx_eigen_s1_foundation.Fields.Types.{FieldType, Number, Json, null, Entries, is_nan, number_of}
use hpx_eigen_s1_foundation.Fields.Checks.{
  is_numeric, is_multi_select, is_single_select, is_boolean_type, is_date_type, is_stringlike,
  is_time_type, is_reference,
}
use hpx_eigen_s1_foundation.Fields.Values.{
  TypedValue, RawEntry, cleared, rules_of, number_rule, text_rule, below, above, is_no_value,
  before_bound, after_bound, coerce_select, coerce_selections, coerce_number, coerce_boolean,
  coerce_date, coerce_text, coerce_value,
}

-- The limits of `validationRules` on each column.
pub record ObeysRules (parse_date : Text → Option ℕ) (vr : Entries) (v : TypedValue) : Type 0 where
  pub numbers :
      (x : Number)
      → v.value_number ≡ some x
      → (is_nan x ≡ false)
        × (below x (number_rule (codes "min") vr) ≡ false)
        × (above x (number_rule (codes "max") vr) ≡ false)
  pub dates :
      (d : ℕ)
      → v.value_date ≡ some d
      → (before_bound parse_date d (text_rule (codes "minDate") vr) ≡ false)
        × (after_bound parse_date d (text_rule (codes "maxDate") vr) ≡ false)
  pub texts :
      (s : Text)
      → v.value_text ≡ some s
      → (below (number_of (length s)) (number_rule (codes "minLength") vr) ≡ false)
        × (above (number_of (length s)) (number_rule (codes "maxLength") vr) ≡ false)
  pub selections :
      (ltb 0 (length v.option_ids) ≡ true)
      → (below (number_of (length v.option_ids)) (number_rule (codes "minSelections") vr) ≡ false)
        × (above (number_of (length v.option_ids)) (number_rule (codes "maxSelections") vr) ≡ false)

ok_injective : {a b : TypedValue} → ok a ≡ ok b → a ≡ b
ok_injective e = ground arith

err-ok : {e : ServiceError} {v : TypedValue} → err e ≡ ok v → ⊥
err-ok h = ground arith

-- A result of a conditional is one of its branches.
either_branch :
    {G : Type 0} (b : Bool) {x y : Result TypedValue} {v : TypedValue}
    → (x ≡ ok v → G)
    → (y ≡ ok v → G)
    → (if b then x else y) ≡ ok v
    → G
either_branch true f g h = f h
either_branch false f g h = g h

module _ (parse_date : Text → Option ℕ) (vr : Entries) (v : TypedValue) where
  coerce_select-ObeysRules : (o : Option Json) → coerce_select o ≡ ok v → ObeysRules parse_date vr v
  unfolding coerce_select
  coerce_select-ObeysRules o h = record {
    numbers = λ x e. ground arith;
    dates = λ d e. ground arith;
    texts = λ s e. ground arith;
    selections = λ e. ground arith;
  }

  coerce_selections-ObeysRules :
      (o : Option Json) → coerce_selections vr o ≡ ok v → ObeysRules parse_date vr v
  unfolding coerce_selections
  coerce_selections-ObeysRules o h = record {
    numbers = λ x e. ground arith;
    dates = λ d e. ground arith;
    texts = λ s e. ground arith;
    selections = λ e. ground arith;
  }

  coerce_number-ObeysRules : (j : Json) → coerce_number vr j ≡ ok v → ObeysRules parse_date vr v
  unfolding coerce_number
  coerce_number-ObeysRules j h = record {
    numbers = λ x e. ground arith;
    dates = λ d e. ground arith;
    texts = λ s e. ground arith;
    selections = λ e. ground arith;
  }

  coerce_boolean-ObeysRules : (j : Json) → coerce_boolean j ≡ ok v → ObeysRules parse_date vr v
  unfolding coerce_boolean
  coerce_boolean-ObeysRules j h = record {
    numbers = λ x e. ground arith;
    dates = λ d e. ground arith;
    texts = λ s e. ground arith;
    selections = λ e. ground arith;
  }

  coerce_date-ObeysRules :
      (j : Json) → coerce_date parse_date vr j ≡ ok v → ObeysRules parse_date vr v
  unfolding coerce_date
  coerce_date-ObeysRules j h = record {
    numbers = λ x e. ground arith;
    dates = λ d e. ground arith;
    texts = λ s e. ground arith;
    selections = λ e. ground arith;
  }

  coerce_text-ObeysRules :
      (matches : Text → Text → Result Bool) (j : Json)
      → coerce_text matches vr j ≡ ok v
      → ObeysRules parse_date vr v
  unfolding coerce_text
  coerce_text-ObeysRules matches j h = record {
    numbers = λ x e. ground arith;
    dates = λ d e. ground arith;
    texts = λ s e. ground arith;
    selections = λ e. ground arith;
  }

  cleared-ObeysRules : cleared ≡ v → ObeysRules parse_date vr v
  cleared-ObeysRules h = record {
    numbers = λ x e. ground arith;
    dates = λ d e. ground arith;
    texts = λ s e. ground arith;
    selections = λ e. ground arith;
  }

-- A value that is accepted obeys every limit that the field's `validationRules` set for it: the
-- numbers, the dates, the length of the texts and the number of selected options.
pub coerce_value-ObeysRules :
    (parse_date : Text → Option ℕ) (matches : Text → Text → Result Bool) (t : FieldType)
    (rules : Json) (entry : RawEntry) {v : TypedValue}
    → coerce_value parse_date matches t rules entry ≡ ok v
    → ObeysRules parse_date (rules_of rules) v
unfolding coerce_value
coerce_value-ObeysRules parse_date matches t rules entry {v} h =
    let vr = rules_of rules in
    let raw = get_or_else entry.value null in
    either_branch (is_single_select t) (coerce_select-ObeysRules parse_date vr v entry.option_id)
      (either_branch (is_multi_select t)
        (coerce_selections-ObeysRules parse_date vr v entry.option_ids)
        (either_branch (is_no_value entry.value)
          (λ e. cleared-ObeysRules parse_date vr v (ok_injective e))
          (either_branch (is_numeric t) (coerce_number-ObeysRules parse_date vr v raw) (
            either_branch (is_boolean_type t) (coerce_boolean-ObeysRules parse_date vr v raw) (
              either_branch (is_date_type t) (coerce_date-ObeysRules parse_date vr v raw) (
                either_branch (is_stringlike t || is_time_type t || is_reference t)
                  (coerce_text-ObeysRules parse_date vr v matches raw)
                  (λ e. absurd (err-ok e))))))))
      h
