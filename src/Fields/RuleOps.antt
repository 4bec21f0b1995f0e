-- ===== src/Fields/RuleOps.antt =====
-- The conditional rules: `createRule`, `updateRule` and `archiveRule` of
-- src/services/case-field.service.ts.
pub mod Acyclic
use hpx_eigen_s1_foundation.Common.{
  ℕ, Bool, true, false, Option, none, some, is_some, List, [], ◌∷◌, Text, trim, get_or_else,
}
use hpx_eigen_s1_foundation.Store.{
  Action, Result, pure, or_raise, raise_if, modify, transaction, ◌>>=◌, ◌>>◌, Ctx, validation_error,
  business_rule_violation, resource_not_found,
}
use hpx_eigen_s1_foundation.Fields.Types.{Number, Json}
use hpx_eigen_s1_foundation.Fields.Definitions.{is_bad_name, opt_text, trimmed_or, bad_name_message}
use hpx_eigen_s1_foundation.Fields.RuleInput.{RuleInput, ResolvedRule, validate_rule_input}
use hpx_eigen_s1_foundation.Fields.Rows.{FieldRule, FieldsDb, record_audit, find_rule, write_rule}

-- `await this.validateRuleInput(tx, ctx.tenantId, input, excludeRuleId)`
unfoldable pub validated : Ctx → RuleInput → Option ℕ → Action FieldsDb ResolvedRule
unfolding validate_rule_input
validated ctx input exclude db = (validate_rule_input ctx.tenant_id input exclude db, db)

-- The columns of a rule that are not checked against the tables.
pub record RuleTexts : Type 0 where
  pub name : Option Text
  pub description : Option (Option Text)
  pub is_active : Option Bool
  pub priority : Option Number

unfoldable pub new_rule : Ctx → ℕ → RuleTexts → ResolvedRule → FieldRule
new_rule ctx new_id texts resolved = record {
  id = new_id;
  tenant_id = ctx.tenant_id;
  name = trim (get_or_else texts.name []);
  description = get_or_else texts.description none;
  is_active = true;
  priority = get_or_else texts.priority 0;
  condition_field_id = resolved.condition_field_id;
  condition_operator = resolved.condition_operator;
  condition_value = resolved.condition_value;
  condition_option_id = resolved.condition_option_id;
  effect_type = resolved.effect_type;
  target_field_id = resolved.target_field_id;
  default_payload = resolved.default_payload;
  created_at = ctx.now;
  deleted_at = none;
}

unfoldable pub create_rule : Ctx → ℕ → RuleTexts → RuleInput → Action FieldsDb FieldRule
unfolding validated new_rule record_audit is_bad_name
create_rule ctx new_id texts input = do
  raise_if (is_bad_name (get_or_else texts.name [])) (validation_error bad_name_message)
  transaction do
    resolved ← validated ctx input none
    let rule = new_rule ctx new_id texts resolved
    modify λ db. record db { rules = rule ∷ db.rules }
    record_audit ctx "CASE_FIELD_RULE_CREATED" "CaseFieldRule" new_id
    pure rule

-- The input of `updateRule`; `none` stands for `undefined`.
pub record RulePatch : Type 0 where
  pub texts : RuleTexts
  pub input : RuleInput
  pub condition_option_id : Option (Option ℕ)

abbrev or_keep : {A : Type 0} → Option A → A → Option A
or_keep none a = some a
or_keep (some b) a = some b

abbrev or_else : {A : Type 0} → Option A → Option A → Option A
or_else none o = o
or_else (some b) o = some b

-- `merged`
unfoldable pub merged_input : RulePatch → FieldRule → RuleInput
merged_input patch rule = record {
  condition_field_id = or_keep patch.input.condition_field_id rule.condition_field_id;
  condition_operator = or_keep patch.input.condition_operator rule.condition_operator;
  condition_value = or_keep patch.input.condition_value rule.condition_value;
  condition_option_id = get_or_else patch.condition_option_id rule.condition_option_id;
  effect_type = or_keep patch.input.effect_type rule.effect_type;
  target_field_id = or_keep patch.input.target_field_id rule.target_field_id;
  default_payload = or_else patch.input.default_payload rule.default_payload;
}

unfoldable pub patched_rule : RuleTexts → ResolvedRule → FieldRule → FieldRule
patched_rule texts resolved row = record row {
  name = trimmed_or texts.name row.name;
  description = get_or_else texts.description row.description;
  is_active = get_or_else texts.is_active row.is_active;
  priority = get_or_else texts.priority row.priority;
  condition_field_id = resolved.condition_field_id;
  condition_operator = resolved.condition_operator;
  condition_value = resolved.condition_value;
  condition_option_id = resolved.condition_option_id;
  effect_type = resolved.effect_type;
  target_field_id = resolved.target_field_id;
  default_payload = resolved.default_payload;
}

unfoldable pub update_rule : Ctx → ℕ → RulePatch → Action FieldsDb (Unit {0})
unfolding validated find_rule patched_rule merged_input write_rule record_audit is_bad_name
update_rule ctx id patch = transaction do
  rule ← λ db. or_raise (find_rule ctx.tenant_id id db) resource_not_found db
  raise_if (opt_text is_bad_name patch.texts.name) (validation_error bad_name_message)
  resolved ← validated ctx (merged_input patch rule) (some id)
  write_rule id (patched_rule patch.texts resolved)
  record_audit ctx "CASE_FIELD_RULE_UPDATED" "CaseFieldRule" id

unfoldable pub archived_rule : Ctx → FieldRule → FieldRule
archived_rule ctx row = record row { is_active = false; deleted_at = some ctx.now }

unfoldable pub archive_rule : Ctx → ℕ → Action FieldsDb (Unit {0})
unfolding find_rule archived_rule write_rule record_audit
archive_rule ctx id = transaction do
  rule ← λ db. or_raise (find_rule ctx.tenant_id id db) resource_not_found db
  raise_if (is_some rule.deleted_at) (business_rule_violation "Rule is already archived.")
  write_rule id (archived_rule ctx)
  record_audit ctx "CASE_FIELD_RULE_ARCHIVED" "CaseFieldRule" id
