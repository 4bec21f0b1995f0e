-- ===== src/Fields/Definitions.antt =====
-- The life of a field definition: `createField`, `updateField`, `activateField`,
-- `setFieldReadOnly`, `archiveField` and `hardDeleteField` of src/services/case-field.service.ts.
use mathlib.Core.Logic.{ite}
use hpx_eigen_s1_foundation.Common.{
  ℕ, Bool, true, false, not, ◌&&◌, ◌||◌, Option, none, some, [], ◌∷◌, String, Text, ◌==◌, text_eq,
  trim, length, ltb, leb, is_empty, is_digit, some_of, every, count_where, keep, get_or_else,
  is_digit,
}
use hpx_eigen_s1_foundation.Store.{
  Action, pure, gets, raise_if, modify, transaction, ◌>>=◌, ◌>>◌, Ctx, validation_error,
  business_rule_violation, duplicate_resource,
}
use hpx_eigen_s1_foundation.Fields.Types.{FieldType, FieldStatus, Number, Json, object, end}
use hpx_eigen_s1_foundation.Fields.Checks.{validate_validation_rules, validate_visibility}
use hpx_eigen_s1_foundation.Fields.Rows.{
  FieldDefinition, FieldRule, FieldsDb, record_audit, load_field, write_field, refuse, is_live,
  is_frozen,
}

abbrev is_key_start : ℕ → Bool
is_key_start c = leb b'a' c && leb c b'z'

abbrev is_key_unit : ℕ → Bool
is_key_unit c = is_key_start c || is_digit c || c == b'_'

-- `KEY_RE.test(key) && key.length <= 64`
unfoldable pub is_valid_key : Text → Bool
is_valid_key [] = false
is_valid_key (c ∷ s) = is_key_start c && every is_key_unit s && leb (length (c ∷ s)) 64

-- A name or a label, trimmed: neither empty nor longer than 200.
unfoldable pub is_bad_name : Text → Bool
is_bad_name s = is_empty (trim s) || ltb 200 (length (trim s))

abbrev pub is_draft : FieldStatus → Bool
is_draft FieldStatus.draft = true
is_draft _ = false

abbrev pub is_active_status : FieldStatus → Bool
is_active_status FieldStatus.active = true
is_active_status _ = false

abbrev pub is_archived : FieldStatus → Bool
is_archived FieldStatus.archived = true
is_archived _ = false

abbrev pub bad_key_message : String
bad_key_message = "key must be lowercase snake_case (start with a letter), 64 chars max."

abbrev pub bad_name_message : String
bad_name_message = "name is required and must be 200 characters or fewer."

-- The input of `createField`; `type` has passed the test against the enumeration.
pub record FieldInput : Type 0 where
  pub key : Option Text
  pub name : Option Text
  pub description : Option Text
  pub type : FieldType
  pub owning_department_id : ℕ
  pub validation_rules : Option Json
  pub visibility : Option Json
  pub reportable : Option Bool
  pub filterable : Option Bool
  pub sortable : Option Bool
  pub display_order : Option Number

unfoldable pub new_field : Ctx → ℕ → FieldInput → FieldDefinition
new_field ctx new_id input = record {
  id = new_id;
  tenant_id = ctx.tenant_id;
  key = trim (get_or_else input.key []);
  name = trim (get_or_else input.name []);
  description = input.description;
  type = input.type;
  status = FieldStatus.draft;
  owning_department_id = input.owning_department_id;
  validation_rules = get_or_else input.validation_rules (object end);
  visibility = get_or_else input.visibility (object end);
  reportable = get_or_else input.reportable false;
  filterable = get_or_else input.filterable false;
  sortable = get_or_else input.sortable false;
  is_active = true;
  display_order = get_or_else input.display_order 0;
  deleted_at = none;
}

unfoldable pub create_field : Ctx → ℕ → FieldInput → Action FieldsDb FieldDefinition
unfolding new_field is_valid_key is_bad_name record_audit
create_field ctx new_id input = do
  let field = new_field ctx new_id input
  raise_if (not (is_valid_key field.key)) (validation_error bad_key_message)
  raise_if (is_bad_name (get_or_else input.name [])) (validation_error bad_name_message)
  refuse (validate_validation_rules input.type (some field.validation_rules))
  refuse (validate_visibility (some field.visibility))
  known ← gets λ db.
      some_of (λ d. d.id == input.owning_department_id && d.tenant_id == ctx.tenant_id)
        db.departments
  raise_if (not known)
      (validation_error "owningDepartmentId does not reference a department in this organization.")
  taken ←
      gets λ db. some_of (λ f. f.tenant_id == ctx.tenant_id && text_eq f.key field.key) db.fields
  raise_if taken (duplicate_resource "A case field with this key already exists.")
  transaction do
    modify λ db. record db { fields = field ∷ db.fields }
    record_audit ctx "CASE_FIELD_CREATED" "CaseFieldDefinition" new_id
    pure field

-- The input of `updateField`; `none` stands for `undefined`.
pub record FieldPatch : Type 0 where
  pub key : Option Text
  pub type : Option FieldType
  pub name : Option Text
  pub description : Option (Option Text)
  pub validation_rules : Option Json
  pub visibility : Option Json
  pub reportable : Option Bool
  pub filterable : Option Bool
  pub sortable : Option Bool
  pub is_active : Option Bool
  pub display_order : Option Number

abbrev pub opt_text : (Text → Bool) → Option Text → Bool
opt_text p none = false
opt_text p (some s) = p s

abbrev pub trimmed_or : Option Text → Text → Text
trimmed_or none s = s
trimmed_or (some t) s = trim t

FieldType-discrete : Discrete FieldType
FieldType-discrete = hlevel

-- `a === b`
unfoldable pub same_type : FieldType → FieldType → Bool
unfolding FieldType-discrete
same_type a b = ite (FieldType-discrete a b) true false

-- `input.type !== undefined && input.type !== field.type`
abbrev other_type : Option FieldType → FieldType → Bool
other_type none t = false
other_type (some u) t = not (same_type u t)

unfoldable pub patched_field : FieldPatch → FieldDefinition → FieldDefinition
patched_field input row = record row {
  name = trimmed_or input.name row.name;
  description = get_or_else input.description row.description;
  validation_rules = get_or_else input.validation_rules row.validation_rules;
  visibility = get_or_else input.visibility row.visibility;
  reportable = get_or_else input.reportable row.reportable;
  filterable = get_or_else input.filterable row.filterable;
  sortable = get_or_else input.sortable row.sortable;
  is_active = get_or_else input.is_active row.is_active;
  display_order = get_or_else input.display_order row.display_order;
}

unfoldable pub update_field : Ctx → ℕ → FieldPatch → Action FieldsDb (Unit {0})
unfolding load_field patched_field is_frozen is_bad_name same_type record_audit write_field
update_field ctx id input = transaction do
  field ← load_field ctx id
  raise_if (is_frozen field.status) (business_rule_violation "A frozen field cannot be edited.")
  raise_if (opt_text (λ k. not (text_eq (trim k) field.key)) input.key)
      (validation_error "key is immutable and cannot be changed.")
  raise_if (other_type input.type field.type)
      (validation_error "type is immutable and cannot be changed.")
  raise_if (opt_text is_bad_name input.name) (validation_error bad_name_message)
  refuse (validate_validation_rules field.type input.validation_rules)
  refuse (validate_visibility input.visibility)
  write_field id (patched_field input)
  record_audit ctx "CASE_FIELD_UPDATED" "CaseFieldDefinition" id

-- `transitionField`
unfoldable pub transition_field :
    Ctx
    → ℕ
    → (FieldStatus → Bool)
    → (FieldDefinition → FieldDefinition)
    → String
    → String
    → Action FieldsDb (Unit {0})
unfolding load_field record_audit write_field
transition_field ctx id from data_of event illegal = transaction do
  field ← load_field ctx id
  raise_if (not (from field.status)) (business_rule_violation illegal)
  write_field id data_of
  record_audit ctx event "CaseFieldDefinition" id

unfoldable pub activate_field : Ctx → ℕ → Action FieldsDb (Unit {0})
unfolding transition_field
activate_field ctx id =
    transition_field ctx id is_draft
      (λ row. record row { status = FieldStatus.active; is_active = true }) "CASE_FIELD_ACTIVATED"
      "Only a DRAFT field can be activated."

unfoldable pub set_field_read_only : Ctx → ℕ → Action FieldsDb (Unit {0})
unfolding transition_field
set_field_read_only ctx id =
    transition_field ctx id is_active_status (λ row. record row { status = FieldStatus.read_only })
      "CASE_FIELD_SET_READ_ONLY" "Only an ACTIVE field can be set read-only."

-- `OR: [{ conditionFieldId: id }, { targetFieldId: id }]`
abbrev pub rule_mentions : ℕ → FieldRule → Bool
rule_mentions id r = r.condition_field_id == id || r.target_field_id == id

unfoldable pub archived_field : Ctx → FieldDefinition → FieldDefinition
archived_field ctx row = record row {
  status = FieldStatus.archived;
  is_active = false;
  deleted_at = some ctx.now;
}

unfoldable pub archive_field : Ctx → ℕ → Action FieldsDb (Unit {0})
unfolding load_field archived_field record_audit write_field
archive_field ctx id = transaction do
  field ← load_field ctx id
  raise_if (is_archived field.status) (business_rule_violation "Field is already archived.")
  rule_refs ← gets λ db.
      count_where (λ r. r.tenant_id == ctx.tenant_id && is_live r.deleted_at && rule_mentions id r)
        db.rules
  raise_if (ltb 0 rule_refs) (
      business_rule_violation
        "Field is referenced by an active rule; archive or remove those rules first.")
  write_field id (archived_field ctx)
  record_audit ctx "CASE_FIELD_ARCHIVED" "CaseFieldDefinition" id

unfoldable pub hard_delete_field : Ctx → ℕ → Action FieldsDb (Unit {0})
unfolding load_field record_audit
hard_delete_field ctx id = transaction do
  field ← load_field ctx id
  raise_if (not (is_draft field.status))
      (business_rule_violation "Only a DRAFT field can be hard-deleted; archive it instead.")
  option_count ← gets λ db. count_where (λ o. o.field_id == id) db.options
  rule_count ← gets λ db. count_where (rule_mentions id) db.rules
  raise_if (ltb 0 option_count || ltb 0 rule_count)
      (business_rule_violation "Field is in use (options or rules exist); archive it instead.")
  modify λ db. record db { fields = keep (λ f. not (f.id == id)) db.fields }
  record_audit ctx "CASE_FIELD_DELETED" "CaseFieldDefinition" id
