-- ===== src/Fields/Patch.antt =====
-- The writing of field values: `patchValues` of src/services/case-field-value.service.ts.
pub mod Locking
pub mod Tracking
pub mod Batches
use hpx_eigen_s1_foundation.Common.{
  ℕ, zero, suc, ◌+◌, Bool, true, false, not, ◌&&◌, ◌||◌, Option, none, some, is_some, List, [], ◌∷◌,
  ◌++◌, String, Text, ◌==◌, find_first, update_many, keep, some_of, map, if◌then◌else◌,
}
use hpx_eigen_s1_foundation.Store.{
  Action, Result, ok, err, pure, raise, gets, or_raise, raise_if, modify, transaction, ◌>>=◌, ◌>>◌,
  Ctx, AuditEntry, validation_error, business_rule_violation, resource_not_found, optimistic_lock,
}
use hpx_eigen_s1_foundation.Fields.Types.{FieldType, Number}
use hpx_eigen_s1_foundation.Fields.Checks.{is_single_select, is_multi_select}
use hpx_eigen_s1_foundation.Fields.Definitions.{is_archived}
use hpx_eigen_s1_foundation.Fields.Rows.{FieldDefinition, FieldOption, id_of, is_live}
use hpx_eigen_s1_foundation.Fields.Values.{TypedValue, RawEntry, coerce_value}

-- A row of DocCase, by what `loadCase` reads.
pub record CaseKey : Type 0 where
  pub id : ℕ
  pub tenant_id : ℕ
  pub deleted_at : Option ℕ

pub record FieldValue : Type 0 where
  pub id : ℕ
  pub tenant_id : ℕ
  pub case_id : ℕ
  pub field_id : ℕ
  pub value_text : Option Text
  pub value_number : Option Number
  pub value_boolean : Option Bool
  pub value_date : Option ℕ
  pub option_id : Option Text
  pub version : ℕ
  pub deleted_at : Option ℕ

pub record Selection : Type 0 where
  pub value_id : ℕ
  pub option_id : Text

pub data ValueOperation : Type 0 where
  clearing updating setting : ValueOperation

-- A row of CaseFieldValueHistory, without the two snapshots.
pub record ValueHistory : Type 0 where
  pub tenant_id : ℕ
  pub case_id : ℕ
  pub field_id : ℕ
  pub value_id : ℕ
  pub operation : ValueOperation
  pub actor_user_id : ℕ

pub record ValuesDb : Type 0 where
  pub cases : List CaseKey
  pub fields : List FieldDefinition
  pub options : List FieldOption
  pub values : List FieldValue
  pub selections : List Selection
  pub history : List ValueHistory
  pub journal : List AuditEntry

-- `PatchEntry`, with the id that a new row gets.
pub record PatchEntry : Type 0 where
  pub field_id : ℕ
  pub raw : RawEntry
  pub version : Option ℕ
  pub new_id : ℕ

unfoldable pub find_value : ℕ → ℕ → ℕ → ValuesDb → Option FieldValue
find_value tenant case_id field_id db =
    find_first (λ v. v.tenant_id == tenant && v.case_id == case_id && v.field_id == field_id)
      db.values

-- `assertSelectable`
unfoldable pub is_selectable : ℕ → ℕ → List FieldOption → Text → Bool
is_selectable tenant field_id options s = elim (id_of s) [
  | none ↦ false
  | some id ↦
      some_of
        (λ o.
          o.id == id
          && o.tenant_id == tenant
          && o.field_id == field_id
          && is_live o.deleted_at
          && o.is_active)
        options
]

-- `for (const oid of ids) await this.assertSelectable(...)`
unfoldable pub all_selectable : ℕ → ℕ → List FieldOption → List Text → Bool
unfolding is_selectable
all_selectable tenant field_id options [] = true
all_selectable tenant field_id options (s ∷ ids) =
    is_selectable tenant field_id options s && all_selectable tenant field_id options ids

-- The options that a value selects.
unfoldable pub selected_options : FieldType → TypedValue → List Text
selected_options t typed =
    if typed.is_clear
    then []
    else if is_single_select t
    then elim typed.option_id [ none ↦ [] | some s ↦ s ∷ [] ]
    else if is_multi_select t
    then typed.option_ids
    else []

-- `existing && entry.version !== undefined && entry.version !== existing.version`
abbrev pub is_stale : Option FieldValue → Option ℕ → Bool
is_stale (some v) (some version) = not (version == v.version)
is_stale _ _ = false

unfoldable pub rewritten_value : TypedValue → ℕ → FieldValue → FieldValue
rewritten_value typed version row = record row {
  value_text = typed.value_text;
  value_number = typed.value_number;
  value_boolean = typed.value_boolean;
  value_date = typed.value_date;
  option_id = typed.option_id;
  version = suc version;
  deleted_at = none;
}

unfoldable pub new_value : Ctx → ℕ → ℕ → ℕ → TypedValue → FieldValue
new_value ctx case_id field_id new_id typed = record {
  id = new_id;
  tenant_id = ctx.tenant_id;
  case_id = case_id;
  field_id = field_id;
  value_text = typed.value_text;
  value_number = typed.value_number;
  value_boolean = typed.value_boolean;
  value_date = typed.value_date;
  option_id = typed.option_id;
  version = 1;
  deleted_at = none;
}

-- The row is written over, or created; its id is returned.
unfoldable pub write_value : Ctx → ℕ → ℕ → ℕ → TypedValue → Option FieldValue → Action ValuesDb ℕ
unfolding rewritten_value new_value
write_value ctx case_id field_id new_id typed (some v) db = (
  ok v.id,
  record db {
    values = update_many (λ x. x.id == v.id) (rewritten_value typed v.version) db.values;
  },
)
write_value ctx case_id field_id new_id typed none db =
    (ok new_id, record db { values = new_value ctx case_id field_id new_id typed ∷ db.values })

-- The child rows are replaced wholesale.
unfoldable pub replaced_selections : FieldType → ℕ → TypedValue → ValuesDb → ValuesDb
replaced_selections t value_id typed db =
    if is_multi_select t
    then record db {
      selections =
          map (λ s. record { value_id = value_id; option_id = s })
            (if typed.is_clear then [] else typed.option_ids)
          ++ keep (λ s. not (s.value_id == value_id)) db.selections;
    }
    else db

abbrev pub write_selections : FieldType → ℕ → TypedValue → Action ValuesDb (Unit {0})
write_selections t value_id typed = modify (replaced_selections t value_id typed)

abbrev operation_of : TypedValue → Option FieldValue → ValueOperation
operation_of typed existing =
    if typed.is_clear then clearing else if is_some existing then updating else setting

unfoldable pub add_history : Ctx → ℕ → ℕ → ℕ → ValueOperation → Action ValuesDb (Unit {0})
add_history ctx case_id field_id value_id operation = modify λ db. record db {
  history =
      record {
        tenant_id = ctx.tenant_id;
        case_id = case_id;
        field_id = field_id;
        value_id = value_id;
        operation = operation;
        actor_user_id = ctx.user_id;
      }
      ∷ db.history;
}

module _ (parse_date : Text → Option ℕ) (matches : Text → Text → Result Bool) where
  abbrev pub coerced : FieldDefinition → RawEntry → Action ValuesDb TypedValue
  coerced field raw db = (coerce_value parse_date matches field.type field.validation_rules raw, db)

  -- One round of the loop over the entries.
  unfoldable pub patch_entry : Ctx → ℕ → PatchEntry → Action ValuesDb (Unit {0})
  unfolding all_selectable selected_options find_value write_value add_history
  patch_entry ctx case_id e = do
    field ← λ db.
        or_raise (find_first (λ f. f.id == e.field_id && f.tenant_id == ctx.tenant_id) db.fields)
          (validation_error "Unknown field.") db
    raise_if (is_archived field.status)
        (business_rule_violation "The field is archived and cannot accept new values.")
    typed ← coerced field e.raw
    options ← gets ValuesDb.options
    raise_if
        (not (all_selectable ctx.tenant_id field.id options (selected_options field.type typed)))
        (business_rule_violation "Selected option is not an active option on this field.")
    existing ← gets (find_value ctx.tenant_id case_id field.id)
    raise_if (is_stale existing e.version) optimistic_lock
    value_id ← write_value ctx case_id field.id e.new_id typed existing
    write_selections field.type value_id typed
    add_history ctx case_id field.id value_id (operation_of typed existing)

  unfoldable pub patch_entries : Ctx → ℕ → List PatchEntry → Action ValuesDb (Unit {0})
  unfolding patch_entry
  patch_entries ctx case_id [] = pure tt
  patch_entries ctx case_id (e ∷ es) = do patch_entry ctx case_id e; patch_entries ctx case_id es

  -- `seen.has(e.fieldId)`, over the batch
  unfoldable pub has_duplicates : List PatchEntry → Bool
  has_duplicates [] = false
  has_duplicates (e ∷ es) = some_of (λ x. x.field_id == e.field_id) es || has_duplicates es

  abbrev is_nothing : List PatchEntry → Bool
  is_nothing [] = true
  is_nothing (e ∷ es) = false

  -- `patchValues(ctx, caseId, entries)`
  unfoldable pub patch_values : Ctx → ℕ → List PatchEntry → Action ValuesDb (Unit {0})
  unfolding patch_entries has_duplicates
  patch_values ctx case_id entries = do
    raise_if (is_nothing entries) (validation_error "values must be a non-empty array.")
    raise_if (has_duplicates entries) (validation_error "duplicate fieldId in batch")
    transaction do
      known ← gets λ db.
          some_of (λ c. c.id == case_id && c.tenant_id == ctx.tenant_id && is_live c.deleted_at)
            db.cases
      raise_if (not known) resource_not_found
      patch_entries ctx case_id entries
      modify λ db. record db {
        journal =
            record {
              tenant_id = ctx.tenant_id;
              event_type = "CASE_FIELD_VALUES_UPDATED";
              entity_type = "CaseFieldValue";
              entity_id = case_id;
              actor_user_id = ctx.user_id;
            }
            ∷ db.journal;
      }
