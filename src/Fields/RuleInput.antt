-- ===== src/Fields/RuleInput.antt =====
-- The checks of a rule against the fields and options of the tenant: `validateRuleInput` and
-- `assertOptionBelongs` of src/services/case-field.service.ts.
use hpx_eigen_s1_foundation.Common.{
  ℕ, Bool, true, false, not, ◌&&◌, Option, none, some, List, [], ◌∷◌, String, Text, codes, ◌==◌,
  some_of, get_or_else, if◌then◌else◌,
}
use hpx_eigen_s1_foundation.Store.{
  Result, ok, err, ServiceError, validation_error, business_rule_violation, resource_not_found,
}
use hpx_eigen_s1_foundation.Fields.Types.{
  Operator, EffectType, require_field, set_default, Json, null, str, object, get_entry,
}
use hpx_eigen_s1_foundation.Fields.Checks.{
  is_presence, is_single_select, is_multi_select, operator_allowed_for_type,
}
use hpx_eigen_s1_foundation.Fields.Scalars.{
  validate_scalar_condition_value, validate_default_payload, nonempty_strings,
}
use hpx_eigen_s1_foundation.Fields.Graph.{Edge}
use hpx_eigen_s1_foundation.Fields.Search.{assert_no_rule_cycle}
use hpx_eigen_s1_foundation.Fields.OptionOps.{passes}
use hpx_eigen_s1_foundation.Fields.Rows.{
  FieldDefinition, FieldRule, FieldsDb, find_field, is_live, is_frozen, id_of,
}

infixl 5 ◌>>=◌ ◌>>◌
abbrev pub ◌>>=◌ : {A B : Type 0} → Result A → (A → Result B) → Result B
ok a >>= f = f a
err e >>= f = err e

abbrev pub ◌>>◌ : {A B : Type 0} → Result A → Result B → Result B
ok a >> r = r
err e >> r = err e

abbrev pub throw_if : Bool → ServiceError → Result (Unit {0})
throw_if true e = err e
throw_if false e = ok tt

abbrev require : {A : Type 0} → Option A → ServiceError → Result A
require none e = err e
require (some a) e = ok a

abbrev reject : Option String → Result (Unit {0})
reject none = ok tt
reject (some message) = err (validation_error message)

-- The input of a rule; a word that is no operator is `none`.
pub record RuleInput : Type 0 where
  pub condition_field_id : Option ℕ
  pub condition_operator : Option Operator
  pub condition_value : Option Json
  pub condition_option_id : Option ℕ
  pub effect_type : Option EffectType
  pub target_field_id : Option ℕ
  pub default_payload : Option Json

-- What `validateRuleInput` returns.
pub record ResolvedRule : Type 0 where
  pub condition_field_id : ℕ
  pub condition_operator : Operator
  pub condition_value : Json
  pub condition_option_id : Option ℕ
  pub target_field_id : ℕ
  pub effect_type : EffectType
  pub default_payload : Option Json

abbrev is_set_default : EffectType → Bool
is_set_default set_default = true
is_set_default _ = false

-- `x != null`, for a JSON value
abbrev is_given : Option Json → Bool
is_given none = false
is_given (some null) = false
is_given (some v) = true

abbrev text_at : Text → Option Json → Text
text_at key (some (object p)) = elim (get_entry key p) [ some (str s) ↦ s | _ ↦ [] ]
text_at key _ = []

abbrev texts_at : Text → Option Json → List Text
texts_at key (some (object p)) = get_or_else (nonempty_strings (get_entry key p)) []
texts_at key _ = []

module _ (tenant : ℕ) (db : FieldsDb) where
  unfoldable pub assert_option_belongs : ℕ → Option ℕ → Result (Unit {0})
  assert_option_belongs field_id none =
      err (
        validation_error
          "conditionOptionId must reference an active option on the condition field.")
  assert_option_belongs field_id (some id) =
      throw_if
        (not (
          some_of
            (λ o.
              o.id == id && o.tenant_id == tenant && o.field_id == field_id && is_live o.deleted_at)
            db.options))
        (validation_error
          "conditionOptionId must reference an active option on the condition field.")

  -- `for (const optId of ids) await this.assertOptionBelongs(...)`
  unfoldable pub assert_options_belong : ℕ → List Text → Result (Unit {0})
  unfolding assert_option_belongs
  assert_options_belong field_id [] = ok tt
  assert_options_belong field_id (s ∷ ids) = do
    assert_option_belongs field_id (id_of s)
    assert_options_belong field_id ids

  -- The value and the option of the condition.
  unfoldable pub resolve_condition :
      FieldDefinition → Operator → RuleInput → Result (Json × Option ℕ)
  unfolding assert_option_belongs assert_options_belong
  resolve_condition field op input =
      if is_presence op
      then ok (null, none)
      else if is_single_select field.type
      then (do
        id ←
            require input.condition_option_id
              (validation_error "conditionOptionId is required for a SELECT equality condition.")
        assert_option_belongs field.id (some id)
        ok (null, some id))
      else if is_multi_select field.type
      then (do
        ids ← require (nonempty_strings input.condition_value) (
            validation_error
              "conditionValue must be a non-empty array of option ids for a MULTI_SELECT condition.")
        assert_options_belong field.id ids
        ok (get_or_else input.condition_value null, none))
      else (do
        reject (validate_scalar_condition_value field.type input.condition_value)
        ok (get_or_else input.condition_value null, none))

  unfoldable pub resolve_payload : FieldDefinition → EffectType → RuleInput → Result (Option Json)
  unfolding assert_option_belongs assert_options_belong
  resolve_payload field effect input =
      if is_set_default effect
      then (do
        reject (validate_default_payload field.type input.default_payload)
        (if is_single_select field.type
            then assert_option_belongs field.id
                (id_of (text_at (codes "optionId") input.default_payload))
            else if is_multi_select field.type
            then assert_options_belong field.id (texts_at (codes "optionIds") input.default_payload)
            else ok tt)
        ok input.default_payload)
      else (do
        throw_if (is_given input.default_payload)
            (validation_error "defaultPayload is only allowed for a SET_DEFAULT rule.")
        ok none)

  -- All checks but the last.
  unfoldable pub resolve_rule : RuleInput → Result ResolvedRule
  unfolding resolve_condition resolve_payload find_field
  resolve_rule input = do
    let effect = get_or_else input.effect_type require_field
    condition_id ←
        require input.condition_field_id
          (validation_error "conditionFieldId and targetFieldId are required.")
    target_id ←
        require input.target_field_id
          (validation_error "conditionFieldId and targetFieldId are required.")
    throw_if (condition_id == target_id) (
        business_rule_violation
          "A rule cannot reference the same field as both condition and target.")
    op ←
        require input.condition_operator
          (validation_error "conditionOperator is not a valid operator.")
    condition_field ← require (find_field tenant condition_id db) resource_not_found
    target_field ← require (find_field tenant target_id db) resource_not_found
    throw_if (is_frozen condition_field.status)
        (business_rule_violation "The condition field is frozen and cannot be used in a rule.")
    throw_if (is_frozen target_field.status)
        (business_rule_violation "The target field is frozen and cannot be used in a rule.")
    throw_if (not (operator_allowed_for_type condition_field.type op))
        (validation_error "Operator is not compatible with the field.")
    (value, option) ← resolve_condition condition_field op input
    payload ← resolve_payload target_field effect input
    ok record {
      condition_field_id = condition_field.id;
      condition_operator = op;
      condition_value = value;
      condition_option_id = option;
      target_field_id = target_field.id;
      effect_type = effect;
      default_payload = payload;
    }

-- `findMany({ where: { tenantId, deletedAt: null, isActive: true, id: { not: excludeRuleId } } })`
unfoldable pub is_counted : ℕ → Option ℕ → FieldRule → Bool
is_counted tenant none r = r.tenant_id == tenant && is_live r.deleted_at && r.is_active
is_counted tenant (some id) r =
    r.tenant_id == tenant && is_live r.deleted_at && r.is_active && not (r.id == id)

abbrev pub edge_of : FieldRule → Edge
edge_of r = record { from = r.condition_field_id; to = r.target_field_id }

-- The edges of the rules that pass a test.
unfoldable pub edges_where : (FieldRule → Bool) → List FieldRule → List Edge
edges_where p [] = []
edges_where p (r ∷ rs) = let rest = edges_where p rs in if p r then edge_of r ∷ rest else rest

abbrev pub resolved_edge : ResolvedRule → Edge
resolved_edge r = record { from = r.condition_field_id; to = r.target_field_id }

-- The last check: the new edge closes no cycle with the others.
unfoldable pub check_cycle : List Edge → ResolvedRule → Result ResolvedRule
check_cycle others resolved = do
  throw_if (not (passes (assert_no_rule_cycle others (resolved_edge resolved))))
      (business_rule_violation "Rule dependency cycle detected.")
  ok resolved

-- `validateRuleInput(tx, tenantId, input, excludeRuleId)`
unfoldable pub validate_rule_input : ℕ → RuleInput → Option ℕ → FieldsDb → Result ResolvedRule
unfolding is_counted edges_where resolve_rule check_cycle
validate_rule_input tenant input exclude db =
    resolve_rule tenant db input >>= check_cycle (edges_where (is_counted tenant exclude) db.rules)
