-- ===== src/Tests/Fields.antt =====
-- The case fields on concrete rows.
use hpx_eigen_s1_foundation.Common.{
  keep, ℕ, ◌≡◌, ◌≢◌, ◌↔◌, refl, Bool, true, Option, none, some, List, [], ◌∷◌, ◌++◌, Text, codes,
  map, arith, text_eq, ◌==◌, if◌then◌else◌,
}
use hpx_eigen_s1_foundation.Store.{Result, ok}
use hpx_eigen_s1_foundation.Fields.Types.{
  EffectType, number, is_not_empty, require_field, hide_field, set_default, Json, null, num, object,
  entry, end, number_of, text, is_nan, less,
}
use hpx_eigen_s1_foundation.Fields.Rows.{FieldsDb}
use hpx_eigen_s1_foundation.Fields.Graph.{Edge, has, targets, Walk, IsAcyclic}
use hpx_eigen_s1_foundation.Fields.Search.{
  no_cycle, cycle_found, out_of_fuel, push_all, search, assert_no_rule_cycle,
  assert_no_rule_cycle_iff, assert_no_rule_cycle-ends,
}
use hpx_eigen_s1_foundation.Fields.Options.{
  OptionLink, parent_of, Above, self, up, IsForest, assert_no_option_cycle,
  assert_no_option_cycle_iff,
}
use hpx_eigen_s1_foundation.Fields.Definitions.{FieldInput}
use hpx_eigen_s1_foundation.Fields.RuleInput.{RuleInput}
use hpx_eigen_s1_foundation.Fields.RuleOps.{RuleTexts}
use hpx_eigen_s1_foundation.Fields.RuleOps.Acyclic.{active_edges}
use hpx_eigen_s1_foundation.Fields.Calls.{
  FieldsCall, creating_field, creating_rule, Request, run_calls, run_calls-IsAcyclic,
}
use hpx_eigen_s1_foundation.Fields.Values.{
  RawEntry, rules_of, number_rule, coerce_number, coerce_value, unset,
}
use hpx_eigen_s1_foundation.Fields.Conditions.{StoredValue}
use hpx_eigen_s1_foundation.Fields.Conditions.{is_present}
use hpx_eigen_s1_foundation.Fields.Validation.{RuleRow, is_in_scope, validate_values}
use hpx_eigen_s1_foundation.Fields.Validation.Required.{validate_values-valid_iff}
use hpx_eigen_s1_foundation.Fields.Values.Bounds.{ObeysRules, coerce_value-ObeysRules}
use hpx_eigen_s1_foundation.Fields.Runtime.{RuntimeRule, compute_field_runtime}
use hpx_eigen_s1_foundation.Fields.Runtime.Reference.{
  reference_runtime, compute_field_runtime-reference_runtime,
}

abbrev chain : List Edge
chain = record { from = 1; to = 2 } ∷ record { from = 2; to = 3 } ∷ []

abbrev back : Edge
back = record { from = 3; to = 1 }

abbrev ahead : Edge
ahead = record { from = 1; to = 3 }

cycle_is_found :
    (assert_no_rule_cycle chain back ≡ cycle_found) × (assert_no_rule_cycle chain ahead ≡ no_cycle)
unfolding assert_no_rule_cycle search push_all targets has
cycle_is_found = (refl, refl)

assert_no_rule_cycle_iff_example :
    (assert_no_rule_cycle chain ahead ≡ no_cycle) ↔ (¬ Walk (chain ++ ahead ∷ []) 3 1)
assert_no_rule_cycle_iff_example = assert_no_rule_cycle_iff chain ahead

assert_no_rule_cycle-ends_example : assert_no_rule_cycle chain back ≢ out_of_fuel
assert_no_rule_cycle-ends_example = assert_no_rule_cycle-ends chain back

-- Option 2 stands under option 1.
abbrev family : List OptionLink
family = record { id = 1; parent = none } ∷ record { id = 2; parent = some 1 } ∷ []

top_alone : {w : ℕ} → Above family 1 w → w ≡ 1
unfolding parent_of
top_alone self = refl
top_alone (up e p) = absurd (ground arith)

family-IsForest : IsForest family
unfolding IsForest parent_of
family-IsForest u v e p =
    let (at_two, at_one) : (u ≡ 2) × (v ≡ 1) = ground arith in
    ground (arith, top_alone {w = u} (rw at_one at p))

assert_no_option_cycle_iff_example :
    (assert_no_option_cycle (some 1) (some 2) family ≡ no_cycle) ↔ (¬ Above family 2 1)
assert_no_option_cycle_iff_example = assert_no_option_cycle_iff 1 2 family family-IsForest

abbrev no_dates : Text → Option ℕ
no_dates s = none

abbrev any_pattern : Text → Text → Result Bool
any_pattern p s = ok true

-- At most 3.
abbrev limits : Json
limits = object (entry (codes "max") (num (number_of 3)) end)

abbrev two : RawEntry
two = record { value = some (num (number_of 2)); option_id = none; option_ids = none }

two_is_accepted :
    coerce_value no_dates any_pattern number limits two
    ≡ ok (record unset { value_number = some (number_of 2) })
unfolding coerce_value coerce_number number_rule is_nan number_of text_eq less
two_is_accepted = refl

coerce_value-ObeysRules_example :
    ObeysRules no_dates (rules_of limits) (record unset { value_number = some (number_of 2) })
coerce_value-ObeysRules_example =
    coerce_value-ObeysRules no_dates any_pattern number limits two two_is_accepted

abbrev filled : ℕ → Option StoredValue
filled id =
    if id == 1
    then some record {
      field_type = text;
      value_text = some (codes "x");
      value_number = none;
      value_boolean = none;
      value_date = none;
      option_id = none;
      option_ids = [];
    }
    else none

-- A filled field 1 gives the effect on the target field.
abbrev when_filled : ℕ → EffectType → ℕ → Option Json → RuntimeRule
when_filled priority effect target payload = record {
  priority = number_of priority;
  created_at = 0;
  effect_type = effect;
  condition_field_id = 1;
  condition_operator = is_not_empty;
  condition_value = null;
  condition_option_id = none;
  target_field_id = target;
  default_payload = payload;
}

abbrev three_rules : List RuntimeRule
three_rules =
    when_filled 2 require_field 2 none
    ∷ when_filled 1 hide_field 3 none
    ∷ when_filled 0 set_default 2 (some null)
    ∷ []

compute_field_runtime-reference_runtime_example :
    compute_field_runtime no_dates filled (1 ∷ 2 ∷ 3 ∷ []) [] three_rules
    ≡ map (reference_runtime no_dates filled three_rules []) (1 ∷ 2 ∷ 3 ∷ [])
compute_field_runtime-reference_runtime_example =
    compute_field_runtime-reference_runtime no_dates filled (1 ∷ 2 ∷ 3 ∷ []) [] three_rules

abbrev named_field : Text → FieldInput
named_field key = record {
  key = some key;
  name = some key;
  description = none;
  type = text;
  owning_department_id = 5;
  validation_rules = none;
  visibility = none;
  reportable = none;
  filterable = none;
  sortable = none;
  display_order = none;
}

abbrev named_rule : RuleTexts
named_rule = record {
  name = some (codes "rule");
  description = none;
  is_active = none;
  priority = none;
}

abbrev requires : ℕ → ℕ → RuleInput
requires condition target = record {
  condition_field_id = some condition;
  condition_operator = some is_not_empty;
  condition_value = none;
  condition_option_id = none;
  effect_type = none;
  target_field_id = some target;
  default_payload = none;
}

abbrev asks : FieldsCall → Request
asks call = record { user_id = 7; now = 0; call = call }

-- Two fields, a rule from the first to the second, and one back, which is refused.
abbrev requests : List Request
requests =
    asks (creating_field 11 (named_field (codes "a")))
    ∷ asks (creating_field 12 (named_field (codes "b")))
    ∷ asks (creating_rule 21 named_rule (requires 11 12))
    ∷ asks (creating_rule 22 named_rule (requires 12 11))
    ∷ []

abbrev new_tenant : FieldsDb
new_tenant = record {
  departments = record { id = 5; tenant_id = 1 } ∷ [];
  fields = [];
  options = [];
  rules = [];
  journal = [];
}

new_tenant-IsAcyclic : IsAcyclic (active_edges 1 new_tenant)
unfolding IsAcyclic active_edges targets has
new_tenant-IsAcyclic u v e p = ground arith

run_calls-IsAcyclic_example : IsAcyclic (active_edges 1 (run_calls 1 requests new_tenant))
run_calls-IsAcyclic_example = run_calls-IsAcyclic 1 requests new_tenant new_tenant-IsAcyclic

abbrev three_rows : List RuleRow
three_rows =
    record { id = 1; rule = when_filled 2 require_field 2 none }
    ∷ record { id = 2; rule = when_filled 1 hide_field 3 none }
    ∷ record { id = 3; rule = when_filled 2 require_field 3 none }
    ∷ []

validate_values-valid_iff_example :
    ((validate_values no_dates filled (1 ∷ 2 ∷ 3 ∷ []) [] three_rows).valid ≡ true) ↔ (
      (id : ℕ)
      → has id (1 ∷ 2 ∷ 3 ∷ []) ≡ true
      → (reference_runtime no_dates filled
          (map RuleRow.rule (keep (is_in_scope (1 ∷ 2 ∷ 3 ∷ [])) three_rows))
          []
          id).is_required
        ≡ true
      → is_present (filled id) ≡ true)
validate_values-valid_iff_example =
    validate_values-valid_iff no_dates filled (1 ∷ 2 ∷ 3 ∷ []) [] three_rows
