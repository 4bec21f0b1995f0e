-- ===== src/Fields/Values.antt =====
-- The values of a case's fields: `coerceValue` of
-- src/services/case-field-value.validation.ts. Two parts of the runtime are parameters: `parse_date`
-- gives the time of `new Date(s)`, nothing for an invalid date, in milliseconds from the smallest
-- date; `matches` is `new RegExp(pattern).test(s)`, which may throw.
pub mod Bounds
use hpx_eigen_s1_foundation.Common.{
  ℕ, Bool, true, false, not, ◌&&◌, ◌||◌, Option, none, some, is_some, List, [], ◌∷◌, Text, codes,
  text_eq, ltb, ◌==◌, length, some_of, get_or_else, is_empty, if◌then◌else◌,
}
use hpx_eigen_s1_foundation.Store.{Result, ok, err, validation_error}
use hpx_eigen_s1_foundation.Fields.Types.{
  FieldType, Operator, equals, not_equals, is_not_empty, greater_than, less_than, among, not_among,
  Number, Json, null, bool, num, str, array, object, Items, done, item, Entries, end, get_entry,
  strings_of, less, is_nan, same_number, number_of,
}
use hpx_eigen_s1_foundation.Fields.Checks.{
  is_numeric, is_date_type, is_stringlike, is_reference, is_boolean_type, is_time_type,
  is_single_select, is_multi_select,
}
use hpx_eigen_s1_foundation.Fields.RuleInput.{◌>>=◌, ◌>>◌, throw_if}

-- `TypedValue`; `none` stands for `undefined` and `null`.
pub record TypedValue : Type 0 where
  pub is_clear : Bool
  pub value_text : Option Text
  pub value_number : Option Number
  pub value_boolean : Option Bool
  pub value_date : Option ℕ
  pub option_id : Option Text
  pub option_ids : List Text

abbrev pub cleared : TypedValue
cleared = record {
  is_clear = true;
  value_text = none;
  value_number = none;
  value_boolean = none;
  value_date = none;
  option_id = none;
  option_ids = [];
}

abbrev pub unset : TypedValue
unset = record cleared { is_clear = false }

-- `RawEntry`; `none` stands for `undefined`.
pub record RawEntry : Type 0 where
  pub value : Option Json
  pub option_id : Option Json
  pub option_ids : Option Json

-- `rules(field)`
abbrev pub rules_of : Json → Entries
rules_of (object es) = es
rules_of _ = end

-- `typeof vr.key === 'number'`, with the number
unfoldable pub number_rule : Text → Entries → Option Number
unfolding get_entry
number_rule key es = elim (get_entry key es) [ some (num x) ↦ some x | _ ↦ none ]

unfoldable pub text_rule : Text → Entries → Option Text
unfolding get_entry
text_rule key es = elim (get_entry key es) [ some (str s) ↦ some s | _ ↦ none ]

-- `x < bound` and `x > bound`, when there is a bound
abbrev pub below : Number → Option Number → Bool
below x none = false
below x (some bound) = less x bound

abbrev pub above : Number → Option Number → Bool
above x none = false
above x (some bound) = less bound x

-- `null`, `undefined` or `''`
abbrev pub is_no_value : Option Json → Bool
is_no_value none = true
is_no_value (some null) = true
is_no_value (some (str s)) = is_empty s
is_no_value (some _) = false

-- `null`, `undefined` or `[]`
abbrev is_no_selection : Option Json → Bool
is_no_selection none = true
is_no_selection (some null) = true
is_no_selection (some (array done)) = true
is_no_selection (some _) = false

abbrev pub has_text : Text → List Text → Bool
has_text s xs = some_of (λ x. text_eq x s) xs

-- `[...new Set(xs)]`
unfoldable pub unique_from : List Text → List Text → List Text
unique_from seen [] = []
unique_from seen (x ∷ xs) =
    let skipped = unique_from seen xs in
    let kept = unique_from (x ∷ seen) xs in if has_text x seen then skipped else x ∷ kept

unfoldable pub coerce_select : Option Json → Result TypedValue
coerce_select (some (str s)) =
    if is_empty s then ok cleared else ok (record unset { option_id = some s })
coerce_select none = ok cleared
coerce_select (some null) = ok cleared
coerce_select (some _) = err (validation_error "optionId must be a string for a SELECT field.")

abbrev selected : Option Json → Option (List Text)
selected (some (array xs)) = strings_of xs
selected _ = none

unfoldable pub coerce_selections : Entries → Option Json → Result TypedValue
unfolding unique_from number_rule strings_of
coerce_selections vr ids = if is_no_selection ids then ok cleared else elim (selected ids) [
  | none ↦ err (validation_error "optionIds must be an array of strings for a MULTI_SELECT field.")
  | some texts ↦
      let uniq = unique_from [] texts in
      throw_if (below (number_of (length uniq)) (number_rule (codes "minSelections") vr))
        (validation_error "At least the minimum of selections required.")
      >> throw_if (above (number_of (length uniq)) (number_rule (codes "maxSelections") vr))
          (validation_error "At most the maximum of selections allowed.")
      >> ok (record unset { option_ids = uniq })
]

unfoldable pub coerce_number : Entries → Json → Result TypedValue
unfolding number_rule
coerce_number vr (num x) = do
  throw_if (is_nan x) (validation_error "value must be a number.")
  throw_if (below x (number_rule (codes "min") vr))
      (validation_error "value must be >= the minimum.")
  throw_if (above x (number_rule (codes "max") vr))
      (validation_error "value must be <= the maximum.")
  ok (record unset { value_number = some x })
coerce_number vr _ = err (validation_error "value must be a number.")

unfoldable pub coerce_boolean : Json → Result TypedValue
coerce_boolean (bool b) = ok (record unset { value_boolean = some b })
coerce_boolean _ = err (validation_error "value must be a boolean.")

module _ (parse_date : Text → Option ℕ) where
  -- `d < new Date(s)` and `d > new Date(s)`, when there is a bound; an invalid date compares false.
  abbrev pub before_bound : ℕ → Option Text → Bool
  before_bound d none = false
  before_bound d (some s) = elim (parse_date s) [ none ↦ false | some bound ↦ ltb d bound ]

  abbrev pub after_bound : ℕ → Option Text → Bool
  after_bound d none = false
  after_bound d (some s) = elim (parse_date s) [ none ↦ false | some bound ↦ ltb bound d ]

  unfoldable pub coerce_date : Entries → Json → Result TypedValue
  unfolding text_rule
  coerce_date vr (str s) = elim (parse_date s) [
    | none ↦ err (validation_error "value must be a valid ISO date.")
    | some d ↦
        throw_if (before_bound d (text_rule (codes "minDate") vr))
          (validation_error "value must be on/after the earliest date.")
        >> throw_if (after_bound d (text_rule (codes "maxDate") vr))
            (validation_error "value must be on/before the latest date.")
        >> ok (record unset { value_date = some d })
  ]
  coerce_date vr _ = err (validation_error "value must be an ISO date string.")

module _ (matches : Text → Text → Result Bool) where
  abbrev pub check_pattern : Text → Option Text → Result (Unit {0})
  check_pattern s none = ok tt
  check_pattern s (some pattern) = do
    hit ← matches pattern s
    throw_if (not hit) (validation_error "value does not match the required pattern.")

  unfoldable pub coerce_text : Entries → Json → Result TypedValue
  unfolding number_rule text_rule
  coerce_text vr (str s) = do
    throw_if (below (number_of (length s)) (number_rule (codes "minLength") vr))
        (validation_error "value must have at least the minimum of characters.")
    throw_if (above (number_of (length s)) (number_rule (codes "maxLength") vr))
        (validation_error "value must have at most the maximum of characters.")
    check_pattern s (text_rule (codes "pattern") vr)
    ok (record unset { value_text = some s })
  coerce_text vr _ = err (validation_error "value must be a string.")

module _ (parse_date : Text → Option ℕ) (matches : Text → Text → Result Bool) where
  -- `coerceValue(field, entry)`, of the field's type and its `validationRules`
  unfoldable pub coerce_value : FieldType → Json → RawEntry → Result TypedValue
  unfolding coerce_select coerce_selections coerce_number coerce_boolean coerce_date coerce_text
  coerce_value t rules entry =
      let vr = rules_of rules in
      let raw = get_or_else entry.value null in
      if is_single_select t
      then coerce_select entry.option_id
      else if is_multi_select t
      then coerce_selections vr entry.option_ids
      else if is_no_value entry.value
      then ok cleared
      else if is_numeric t
      then coerce_number vr raw
      else if is_boolean_type t
      then coerce_boolean raw
      else if is_date_type t
      then coerce_date parse_date vr raw
      else if is_stringlike t || is_time_type t || is_reference t
      then coerce_text matches vr raw
      else err (validation_error "Unsupported field type.")
