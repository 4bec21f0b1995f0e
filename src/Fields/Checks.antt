-- ===== src/Fields/Checks.antt =====
-- The checks of a field's configuration (src/services/case-field.validation.ts). A check gives the
-- message of the `ValidationError` that it throws, with the interpolated words left out.
use hpx_eigen_s1_foundation.Common.{
  Bool, true, false, not, ◌&&◌, ◌||◌, Option, none, some, is_some, List, [], ◌∷◌, String, Text,
  codes, text_eq, if◌then◌else◌,
}
use hpx_eigen_s1_foundation.Fields.Types.{
  FieldType, text, textarea, number, decimal, currency, percentage, date, datetime, time, boolean,
  select, multi_select, email, phone, url, user_reference, department_reference, case_reference,
  document_reference, Operator, equals, not_equals, is_not_empty, greater_than, less_than, among,
  not_among, Json, null, bool, num, str, array, object, Entries, end, entry, get_entry, strings_of,
  less,
}

abbrev pub is_numeric : FieldType → Bool
is_numeric number = true
is_numeric decimal = true
is_numeric currency = true
is_numeric percentage = true
is_numeric _ = false

abbrev pub is_date_type : FieldType → Bool
is_date_type date = true
is_date_type datetime = true
is_date_type _ = false

abbrev pub is_stringlike : FieldType → Bool
is_stringlike text = true
is_stringlike textarea = true
is_stringlike email = true
is_stringlike phone = true
is_stringlike url = true
is_stringlike _ = false

abbrev pub is_reference : FieldType → Bool
is_reference user_reference = true
is_reference department_reference = true
is_reference case_reference = true
is_reference document_reference = true
is_reference _ = false

abbrev pub is_boolean_type : FieldType → Bool
is_boolean_type boolean = true
is_boolean_type _ = false

abbrev pub is_time_type : FieldType → Bool
is_time_type time = true
is_time_type _ = false

abbrev pub is_single_select : FieldType → Bool
is_single_select select = true
is_single_select _ = false

abbrev pub is_multi_select : FieldType → Bool
is_multi_select multi_select = true
is_multi_select _ = false

unfoldable pub is_select_type : FieldType → Bool
is_select_type t = is_single_select t || is_multi_select t

-- The values of `typeof` that a rule asks for.
pub data Kind : Type 0 where
  number_kind string_kind boolean_kind : Kind

abbrev pub has_kind : Kind → Json → Bool
has_kind number_kind (num x) = true
has_kind string_kind (str s) = true
has_kind boolean_kind (bool b) = true
has_kind _ _ = false

abbrev length_rules : List (Text × Kind)
length_rules =
    (codes "minLength", number_kind)
    ∷ (codes "maxLength", number_kind)
    ∷ (codes "pattern", string_kind)
    ∷ []

abbrev numeric_rules : List (Text × Kind)
numeric_rules = (codes "min", number_kind) ∷ (codes "max", number_kind) ∷ []

abbrev date_rules : List (Text × Kind)
date_rules = (codes "minDate", string_kind) ∷ (codes "maxDate", string_kind) ∷ []

abbrev selection_rules : List (Text × Kind)
selection_rules = (codes "minSelections", number_kind) ∷ (codes "maxSelections", number_kind) ∷ []

-- `ruleSpecFor`
unfoldable pub rule_spec_for : FieldType → List (Text × Kind)
rule_spec_for text = length_rules
rule_spec_for textarea = length_rules
rule_spec_for number = numeric_rules
rule_spec_for decimal = numeric_rules
rule_spec_for currency = numeric_rules
rule_spec_for percentage = numeric_rules
rule_spec_for date = date_rules
rule_spec_for datetime = date_rules
rule_spec_for multi_select = selection_rules
rule_spec_for _ = []

unfoldable pub kind_for : Text → List (Text × Kind) → Option Kind
kind_for key [] = none
kind_for key ((k, kind) ∷ rest) = if text_eq k key then some kind else kind_for key rest

-- What a check throws first.
infixr 4 ◌or_else◌
abbrev pub ◌or_else◌ : Option String → Option String → Option String
none or_else next = next
some message or_else next = some message

-- `if (c) throw new ValidationError(message)`
abbrev pub invalid_if : Bool → String → Option String
invalid_if true message = some message
invalid_if false message = none

-- `for (const [key, val] of Object.entries(obj))`
unfoldable pub check_entries : List (Text × Kind) → Entries → Option String
unfolding kind_for
check_entries spec end = none
check_entries spec (entry key val rest) = elim (kind_for key spec) [
  | none ↦ some "validationRules key is not allowed for this type."
  | some kind ↦
      invalid_if (not (has_kind kind val)) "validationRules entry has the wrong type."
      or_else check_entries spec rest
]

-- `typeof lo === 'number' && typeof hi === 'number' && lo > hi`
unfoldable pub crossed : Text → Text → Entries → Bool
unfolding get_entry
crossed low high rules = elim (get_entry low rules) [
  | some (num lo) ↦ elim (get_entry high rules) [ some (num hi) ↦ less hi lo | _ ↦ false ]
  | _ ↦ false
]

unfoldable pub validate_validation_rules : FieldType → Option Json → Option String
unfolding check_entries crossed rule_spec_for
validate_validation_rules t none = none
validate_validation_rules t (some null) = none
validate_validation_rules t (some (object rules)) =
    check_entries (rule_spec_for t) rules
    or_else invalid_if (crossed (codes "minLength") (codes "maxLength") rules)
        "validationRules.minLength must be <= maxLength."
    or_else invalid_if (crossed (codes "min") (codes "max") rules)
        "validationRules.min must be <= max."
    or_else invalid_if (crossed (codes "minSelections") (codes "maxSelections") rules)
        "validationRules.minSelections must be <= maxSelections."
validate_validation_rules t (some _) = some "validationRules must be an object."

unfoldable pub visibility_keys_allowed : Entries → Bool
visibility_keys_allowed end = true
visibility_keys_allowed (entry key val rest) =
    (text_eq key (codes "hidden")
      || text_eq key (codes "departmentIds")
      || text_eq key (codes "roles"))
    && visibility_keys_allowed rest

-- `arrKey in obj`, and then not an array of strings
unfoldable pub has_bad_strings : Text → Entries → Bool
unfolding get_entry strings_of
has_bad_strings key es = elim (get_entry key es) [
  | none ↦ false
  | some (array xs) ↦ not (is_some (strings_of xs))
  | some _ ↦ true
]

unfoldable pub has_bad_hidden : Entries → Bool
unfolding get_entry
has_bad_hidden es = elim (get_entry (codes "hidden") es) [
  | none ↦ false
  | some v ↦ not (has_kind boolean_kind v)
]

unfoldable pub validate_visibility : Option Json → Option String
unfolding visibility_keys_allowed has_bad_strings has_bad_hidden
validate_visibility none = none
validate_visibility (some null) = none
validate_visibility (some (object es)) =
    invalid_if (not (visibility_keys_allowed es)) "visibility key is not allowed."
    or_else invalid_if (has_bad_hidden es) "visibility.hidden must be a boolean."
    or_else invalid_if (has_bad_strings (codes "departmentIds") es)
        "visibility.departmentIds must be an array of strings."
    or_else invalid_if (has_bad_strings (codes "roles") es)
        "visibility.roles must be an array of strings."
validate_visibility (some _) = some "visibility must be an object."

abbrev pub is_presence : Operator → Bool
is_presence Operator.is_empty = true
is_presence is_not_empty = true
is_presence _ = false

abbrev is_equality : Operator → Bool
is_equality equals = true
is_equality not_equals = true
is_equality _ = false

abbrev is_order : Operator → Bool
is_order greater_than = true
is_order less_than = true
is_order _ = false

abbrev is_membership : Operator → Bool
is_membership among = true
is_membership not_among = true
is_membership _ = false

unfoldable pub operator_allowed_for_type : FieldType → Operator → Bool
operator_allowed_for_type t op =
    if is_multi_select t
    then is_membership op || is_presence op
    else if is_boolean_type t || is_single_select t
    then is_equality op || is_presence op
    else if is_numeric t || is_date_type t
    then is_equality op || is_order op || is_presence op
    else if is_time_type t || is_stringlike t || is_reference t
    then is_equality op || is_presence op
    else false
