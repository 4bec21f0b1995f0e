-- ===== src/Fields/OptionOps.antt =====
-- The options of a select field: `createOption`, `updateOption`, `archiveOption` and
-- `assertValidParent` of src/services/case-field.service.ts.
use hpx_eigen_s1_foundation.Common.{
  ℕ, Bool, true, false, not, ◌&&◌, Option, none, some, is_some, List, [], ◌∷◌, Text, ◌==◌, text_eq,
  trim, ltb, some_of, count_where, get_or_else, if◌then◌else◌,
}
use hpx_eigen_s1_foundation.Store.{
  Action, pure, gets, or_raise, raise_if, modify, transaction, ◌>>=◌, ◌>>◌, Ctx, validation_error,
  business_rule_violation, duplicate_resource, resource_not_found,
}
use hpx_eigen_s1_foundation.Fields.Types.{Number}
use hpx_eigen_s1_foundation.Fields.Checks.{is_select_type}
use hpx_eigen_s1_foundation.Fields.Search.{Verdict, no_cycle}
use hpx_eigen_s1_foundation.Fields.Options.{OptionLink, is_option, assert_no_option_cycle}
use hpx_eigen_s1_foundation.Fields.Definitions.{
  is_valid_key, is_bad_name, opt_text, trimmed_or, bad_key_message,
}
use hpx_eigen_s1_foundation.Fields.Rows.{
  FieldOption, FieldsDb, record_audit, load_field, find_option, write_option, is_live, is_frozen,
}

-- `findMany({ where: { tenantId, fieldId } })`, as the map `parents`
unfoldable pub links_of : ℕ → ℕ → List FieldOption → List OptionLink
links_of tenant field_id [] = []
links_of tenant field_id (o ∷ os) =
    let rest = links_of tenant field_id os in
    if o.tenant_id == tenant && o.field_id == field_id
    then record { id = o.id; parent = o.parent_option_id } ∷ rest
    else rest

abbrev pub passes : Verdict → Bool
passes no_cycle = true
passes _ = false

-- `assertValidParent`
unfoldable pub assert_valid_parent : Ctx → ℕ → Option ℕ → ℕ → Action FieldsDb (Unit {0})
unfolding links_of
assert_valid_parent ctx field_id option parent = do
  known ← gets λ db.
      some_of
        (λ o.
          o.id == parent
          && o.tenant_id == ctx.tenant_id
          && o.field_id == field_id
          && is_live o.deleted_at)
        db.options
  raise_if (not known)
      (validation_error "parentOptionId must reference an active option on the same field.")
  links ← gets λ db. links_of ctx.tenant_id field_id db.options
  raise_if (not (passes (assert_no_option_cycle option (some parent) links)))
      (validation_error "Option parent relationship would create a cycle.")

abbrev pub check_parent : Ctx → ℕ → Option ℕ → Option ℕ → Action FieldsDb (Unit {0})
check_parent ctx field_id option none = pure tt
check_parent ctx field_id option (some parent) = assert_valid_parent ctx field_id option parent

pub record OptionInput : Type 0 where
  pub key : Option Text
  pub label : Option Text
  pub display_order : Option Number
  pub parent_option_id : Option ℕ

unfoldable pub new_option : Ctx → ℕ → ℕ → OptionInput → FieldOption
new_option ctx new_id field_id input = record {
  id = new_id;
  tenant_id = ctx.tenant_id;
  field_id = field_id;
  key = trim (get_or_else input.key []);
  label = trim (get_or_else input.label []);
  display_order = get_or_else input.display_order 0;
  is_active = true;
  parent_option_id = input.parent_option_id;
  deleted_at = none;
}

-- The unique index on `tenantId`, `fieldId` and `key` refuses a second option with the key.
unfoldable pub create_option : Ctx → ℕ → ℕ → OptionInput → Action FieldsDb FieldOption
unfolding new_option
create_option ctx new_id field_id input = do
  let created = new_option ctx new_id field_id input
  raise_if (not (is_valid_key created.key)) (validation_error bad_key_message)
  raise_if (is_bad_name (get_or_else input.label []))
      (validation_error "label is required and must be 200 characters or fewer.")
  transaction do
    field ← load_field ctx field_id
    raise_if (is_frozen field.status)
        (business_rule_violation "Options cannot be added to a frozen field.")
    raise_if (not (is_select_type field.type))
        (business_rule_violation "Options are only allowed on SELECT and MULTI_SELECT fields.")
    check_parent ctx field_id none input.parent_option_id
    taken ← gets λ db.
        some_of
          (λ o. o.tenant_id == ctx.tenant_id && o.field_id == field_id && text_eq o.key created.key)
          db.options
    raise_if taken (duplicate_resource "An option with this key already exists on this field.")
    modify λ db. record db { options = created ∷ db.options }
    record_audit ctx "CASE_FIELD_OPTION_CREATED" "CaseFieldOption" new_id
    pure created

-- The input of `updateOption`; `none` stands for `undefined`, and a parent of `some none` for `null`.
pub record OptionPatch : Type 0 where
  pub key : Option Text
  pub label : Option Text
  pub display_order : Option Number
  pub is_active : Option Bool
  pub parent_option_id : Option (Option ℕ)

unfoldable pub patched_option : OptionPatch → FieldOption → FieldOption
patched_option input row = record row {
  label = trimmed_or input.label row.label;
  display_order = get_or_else input.display_order row.display_order;
  is_active = get_or_else input.is_active row.is_active;
  parent_option_id = get_or_else input.parent_option_id row.parent_option_id;
}

unfoldable pub update_option : Ctx → ℕ → ℕ → OptionPatch → Action FieldsDb (Unit {0})
unfolding find_option patched_option
update_option ctx field_id id input = transaction do
  field ← load_field ctx field_id
  raise_if (is_frozen field.status)
      (business_rule_violation "Options cannot be edited on a frozen field.")
  row ← λ db. or_raise (find_option ctx.tenant_id field_id id db) resource_not_found db
  raise_if (opt_text (λ k. not (text_eq (trim k) row.key)) input.key)
      (validation_error "option key is immutable and cannot be changed.")
  raise_if (opt_text is_bad_name input.label)
      (validation_error "label is required and must be 200 characters or fewer.")
  check_parent ctx field_id (some id) (get_or_else input.parent_option_id none)
  write_option id (patched_option input)
  record_audit ctx "CASE_FIELD_OPTION_UPDATED" "CaseFieldOption" id

unfoldable pub archived_option : Ctx → FieldOption → FieldOption
archived_option ctx row = record row { is_active = false; deleted_at = some ctx.now }

unfoldable pub archive_option : Ctx → ℕ → ℕ → Action FieldsDb (Unit {0})
unfolding find_option archived_option
archive_option ctx field_id id = transaction do
  load_field ctx field_id
  row ← λ db. or_raise (find_option ctx.tenant_id field_id id db) resource_not_found db
  raise_if (is_some row.deleted_at) (business_rule_violation "Option is already archived.")
  rule_refs ← gets λ db.
      count_where
        (λ r.
          r.tenant_id == ctx.tenant_id
          && is_live r.deleted_at
          && is_option r.condition_option_id id)
        db.rules
  raise_if (ltb 0 rule_refs) (
      business_rule_violation
        "Option is referenced by an active rule; archive or remove those rules first.")
  write_option id (archived_option ctx)
  record_audit ctx "CASE_FIELD_OPTION_ARCHIVED" "CaseFieldOption" id
