-- ===== src/Fields/Scalars.antt =====
-- The values that a rule compares with or sets (src/services/case-field.validation.ts). A regular
-- expression is a chain of steps on the text that is left.
use hpx_eigen_s1_foundation.Common.{
  ℕ, zero, suc, Bool, false, not, ◌&&◌, ◌||◌, Option, none, some, is_some, get_or_else, List, [],
  ◌∷◌, String, Text, codes, leb, ◌==◌, is_digit, if◌then◌else◌, is_empty,
}
use hpx_eigen_s1_foundation.Fields.Types.{
  FieldType, Json, null, str, array, object, done, get_entry, strings_of,
}
use hpx_eigen_s1_foundation.Fields.Checks.{
  is_numeric, is_date_type, is_stringlike, is_reference, is_boolean_type, is_time_type,
  is_single_select, is_multi_select, has_kind, number_kind, string_kind, boolean_kind, invalid_if,
  ◌or_else◌,
}

abbrev pub Pattern : Type 0
Pattern = Text → Option Text

-- One code unit of a class.
abbrev one : (ℕ → Bool) → Pattern
one p [] = none
one p (c ∷ s) = if p c then some s else none

abbrev exactly : ℕ → Pattern
exactly d = one (λ c. c == d)

-- `{n}`
abbrev times : ℕ → (ℕ → Bool) → Pattern
times zero p s = some s
times (suc n) p [] = none
times (suc n) p (c ∷ s) = if p c then times n p s else none

-- `*`
abbrev pub many : (ℕ → Bool) → Text → Text
many p [] = []
many p (c ∷ s) = if p c then many p s else c ∷ s

infixr 5 ◌then◌
abbrev ◌then◌ : Pattern → Pattern → Pattern
◌then◌ p q s = elim (p s) [ none ↦ none | some rest ↦ q rest ]

-- `(...)?`
abbrev optional : Pattern → Pattern
optional p s = some (get_or_else (p s) s)

-- `+`
abbrev several : (ℕ → Bool) → Pattern
several p [] = none
several p (c ∷ s) = if p c then some (many p s) else none

-- `$`
abbrev at_end : Option Text → Bool
at_end none = false
at_end (some rest) = is_empty rest

abbrev two_digits : Pattern
two_digits = times 2 is_digit

abbrev is_sign : ℕ → Bool
is_sign c = c == b'+' || c == b'-'

abbrev is_hex : ℕ → Bool
is_hex c = is_digit c || (leb b'a' c && leb c b'f') || (leb b'A' c && leb c b'F')

-- `Z|[+-]\d{2}:\d{2}`
abbrev zone : Pattern
zone s = elim (exactly b'Z' s) [
  | some rest ↦ some rest
  | none ↦ (one is_sign then two_digits then exactly b':' then two_digits) s
]

abbrev clock_time : Pattern
clock_time = two_digits then exactly b':' then two_digits

abbrev seconds : Pattern
seconds = optional (exactly b':' then two_digits)

-- `ISO_DATE_RE`
unfoldable pub is_iso_date : Text → Bool
is_iso_date s = at_end (
    (times 4 is_digit
        then exactly b'-'
        then two_digits
        then exactly b'-'
        then two_digits
        then optional (
            exactly b'T'
            then clock_time
            then seconds
            then optional (exactly b'.' then several is_digit)
            then optional zone))
      s)

-- `ISO_TIME_RE`
unfoldable pub is_iso_time : Text → Bool
is_iso_time s = at_end ((clock_time then seconds) s)

-- `UUID_RE`
unfoldable pub is_uuid : Text → Bool
is_uuid s = at_end (
    (times 8 is_hex
        then exactly b'-'
        then times 4 is_hex
        then exactly b'-'
        then times 4 is_hex
        then exactly b'-'
        then times 4 is_hex
        then exactly b'-'
        then times 12 is_hex)
      s)

-- `typeof value === 'string' && p.test(value)`
abbrev is_text_of : (Text → Bool) → Json → Bool
is_text_of p (str s) = p s
is_text_of p _ = false

-- The value may be missing; `undefined` has none of the kinds.
unfoldable pub validate_scalar_condition_value : FieldType → Option Json → Option String
unfolding is_iso_date is_iso_time is_uuid
validate_scalar_condition_value t value =
    let v = get_or_else value null in
    if is_numeric t
    then invalid_if (not (has_kind number_kind v))
        "conditionValue must be a number for this field type."
    else if is_boolean_type t
    then invalid_if (not (has_kind boolean_kind v)) "conditionValue must be a boolean."
    else if is_date_type t
    then invalid_if (not (is_text_of is_iso_date v)) "conditionValue must be an ISO date string."
    else if is_time_type t
    then invalid_if (not (is_text_of is_iso_time v)) "conditionValue must be an ISO time string."
    else if is_reference t
    then invalid_if (not (is_text_of is_uuid v)) "conditionValue must be a uuid string."
    else if is_stringlike t
    then invalid_if (not (has_kind string_kind v)) "conditionValue must be a string."
    else some "Unsupported field type for a scalar condition value."

-- `Array.isArray(v) && v.length > 0 && v.every((x) => typeof x === 'string')`, with the strings
unfoldable pub nonempty_strings : Option Json → Option (List Text)
unfolding strings_of
nonempty_strings (some (array done)) = none
nonempty_strings (some (array xs)) = strings_of xs
nonempty_strings _ = none

abbrev pub is_text : Option Json → Bool
is_text (some v) = has_kind string_kind v
is_text none = false

unfoldable pub validate_default_payload : FieldType → Option Json → Option String
unfolding validate_scalar_condition_value nonempty_strings get_entry
validate_default_payload t (some (object p)) =
    if is_single_select t
    then invalid_if (not (is_text (get_entry (codes "optionId") p)))
        "defaultPayload.optionId must be a string for a SELECT field."
    else if is_multi_select t
    then invalid_if (not (is_some (nonempty_strings (get_entry (codes "optionIds") p))))
        "defaultPayload.optionIds must be a non-empty array of strings for a MULTI_SELECT field."
    else invalid_if (not (is_some (get_entry (codes "value") p)))
        "defaultPayload.value is required."
      or_else validate_scalar_condition_value t (get_entry (codes "value") p)
validate_default_payload t _ = some "defaultPayload must be an object."
