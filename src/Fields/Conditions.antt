-- ===== src/Fields/Conditions.antt =====
-- The conditions of the rules: `isPresent` and `conditionMet` of
-- src/services/case-field-value.validation.ts.
use hpx_eigen_s1_foundation.Common.{
  ℕ, Bool, true, false, not, ◌&&◌, ◌||◌, Option, none, some, is_some, List, [], ◌∷◌, Text, text_eq,
  ltb, ◌==◌, length, some_of, if◌then◌else◌,
}
use hpx_eigen_s1_foundation.Fields.Types.{
  FieldType, Operator, equals, not_equals, is_not_empty, greater_than, less_than, among, not_among,
  Number, Json, null, bool, num, str, array, Items, done, item, less, same_number,
}
use hpx_eigen_s1_foundation.Fields.Checks.{is_single_select, is_multi_select}
use hpx_eigen_s1_foundation.Fields.Values.{has_text}

-- `StoredValue`
pub record StoredValue : Type 0 where
  pub field_type : FieldType
  pub value_text : Option Text
  pub value_number : Option Number
  pub value_boolean : Option Bool
  pub value_date : Option ℕ
  pub option_id : Option Text
  pub option_ids : List Text

-- `isPresent`
unfoldable pub is_present : Option StoredValue → Bool
is_present none = false
is_present (some v) =
    if is_multi_select v.field_type
    then ltb 0 (length v.option_ids)
    else if is_single_select v.field_type
    then is_some v.option_id
    else is_some v.value_text
      || is_some v.value_number
      || is_some v.value_boolean
      || is_some v.value_date

abbrev same_text : Option Text → Option Text → Bool
same_text none none = true
same_text (some s) (some t) = text_eq s t
same_text _ _ = false

-- `sv === conditionValue`; a date is an object and equals no parsed value.
unfoldable pub same_scalar : StoredValue → Json → Bool
same_scalar v c = elim v.value_number [
  | some x ↦ elim c [ num y ↦ same_number x y | _ ↦ false ]
  | none ↦ elim v.value_date [
    | some d ↦ false
    | none ↦ elim v.value_boolean [
      | some b ↦ elim c [ bool d ↦ if b then d else not d | _ ↦ false ]
      | none ↦ elim v.value_text [
        | some s ↦ elim c [ str t ↦ text_eq s t | _ ↦ false ]
        | none ↦ elim c [ null ↦ true | _ ↦ false ]
      ]
    ]
  ]
]

-- The strings of an array; nothing else is among the options of a value.
abbrev texts_in : Items → List Text
texts_in done = []
texts_in (item (str s) xs) = s ∷ texts_in xs
texts_in (item _ xs) = texts_in xs

abbrev pub wanted : Json → List Text
wanted (array xs) = texts_in xs
wanted _ = []

unfoldable pub intersects : List Text → List Text → Bool
intersects want have = some_of (λ w. has_text w have) want

module _ (parse_date : Text → Option ℕ) where
  -- `stored.valueDate != null && typeof conditionValue === 'string'`, with both times
  abbrev date_pair : StoredValue → Json → Option (ℕ × Option ℕ)
  date_pair v c = elim v.value_date [
    | none ↦ none
    | some d ↦ elim c [ str s ↦ some (d, parse_date s) | _ ↦ none ]
  ]

  abbrev same_time : ℕ → Option ℕ → Bool
  same_time d none = false
  same_time d (some e) = d == e

  unfoldable pub scalar_equal : StoredValue → Json → Bool
  unfolding same_scalar
  scalar_equal v c = elim (date_pair v c) [ some (d, e) ↦ same_time d e | none ↦ same_scalar v c ]

  -- `cmp > 0` and `cmp < 0`
  abbrev date_greater : Option (ℕ × Option ℕ) → Bool
  date_greater (some (d, some e)) = ltb e d
  date_greater _ = false

  abbrev date_less : Option (ℕ × Option ℕ) → Bool
  date_less (some (d, some e)) = ltb d e
  date_less _ = false

  abbrev number_pair : StoredValue → Json → Option (Number × Number)
  number_pair v c = elim v.value_number [
    | none ↦ none
    | some x ↦ elim c [ num y ↦ some (x, y) | _ ↦ none ]
  ]

  unfoldable pub scalar_greater : StoredValue → Json → Bool
  scalar_greater v c = elim (number_pair v c) [
    | some (x, y) ↦ less y x
    | none ↦ date_greater (date_pair v c)
  ]

  unfoldable pub scalar_less : StoredValue → Json → Bool
  scalar_less v c = elim (number_pair v c) [
    | some (x, y) ↦ less x y
    | none ↦ date_less (date_pair v c)
  ]

  unfoldable pub select_met : Operator → Option Text → StoredValue → Bool
  select_met equals option v = same_text v.option_id option
  select_met not_equals option v = not (same_text v.option_id option)
  select_met _ option v = false

  unfoldable pub selections_met : Operator → Json → StoredValue → Bool
  unfolding intersects
  selections_met among c v = intersects (wanted c) v.option_ids
  selections_met not_among c v = not (intersects (wanted c) v.option_ids)
  selections_met _ c v = false

  unfoldable pub scalar_met : Operator → Json → StoredValue → Bool
  unfolding scalar_equal scalar_greater scalar_less
  scalar_met equals c v = scalar_equal v c
  scalar_met not_equals c v = not (scalar_equal v c)
  scalar_met greater_than c v = scalar_greater v c
  scalar_met less_than c v = scalar_less v c
  scalar_met _ c v = false

  abbrev value_met : Operator → Json → Option Text → Option StoredValue → Bool
  value_met op c option none = false
  value_met op c option (some v) =
      if is_single_select v.field_type
      then select_met op option v
      else if is_multi_select v.field_type
      then selections_met op c v
      else scalar_met op c v

  -- `conditionMet(operator, conditionValue, conditionOptionId, stored)`
  unfoldable pub condition_met : Operator → Json → Option Text → Option StoredValue → Bool
  unfolding is_present select_met selections_met scalar_met
  condition_met Operator.is_empty c option stored = not (is_present stored)
  condition_met is_not_empty c option stored = is_present stored
  condition_met op c option stored = is_present stored && value_met op c option stored
