-- ===== src/Fields/Rows.antt =====
-- The tables of the case fields (prisma/schema.prisma) and their queries
-- (src/services/case-field.service.ts).
use hpx_eigen_s1_foundation.Common.{
  ℕ, Bool, true, false, not, ◌&&◌, Option, none, some, is_some, List, ◌∷◌, String, Text, ◌==◌,
  find_first, update_many, ◌+◌, ◌-◌, ◌*◌, is_digit, leb, if◌then◌else◌, [],
}
use hpx_eigen_s1_foundation.Store.{
  Action, or_raise, modify, resource_not_found, Ctx, AuditEntry, raise, pure, validation_error,
}
use hpx_eigen_s1_foundation.Fields.Types.{
  FieldType, FieldStatus, Operator, EffectType, Number, Json,
}
use hpx_eigen_s1_foundation.Fields.Scalars.{is_uuid}

pub record Department : Type 0 where
  pub id : ℕ
  pub tenant_id : ℕ

pub record FieldDefinition : Type 0 where
  pub id : ℕ
  pub tenant_id : ℕ
  pub key : Text
  pub name : Text
  pub description : Option Text
  pub type : FieldType
  pub status : FieldStatus
  pub owning_department_id : ℕ
  pub validation_rules : Json
  pub visibility : Json
  pub reportable : Bool
  pub filterable : Bool
  pub sortable : Bool
  pub is_active : Bool
  pub display_order : Number
  pub deleted_at : Option ℕ

pub record FieldOption : Type 0 where
  pub id : ℕ
  pub tenant_id : ℕ
  pub field_id : ℕ
  pub key : Text
  pub label : Text
  pub display_order : Number
  pub is_active : Bool
  pub parent_option_id : Option ℕ
  pub deleted_at : Option ℕ

pub record FieldRule : Type 0 where
  pub id : ℕ
  pub tenant_id : ℕ
  pub name : Text
  pub description : Option Text
  pub is_active : Bool
  pub priority : Number
  pub condition_field_id : ℕ
  pub condition_operator : Operator
  pub condition_value : Json
  pub condition_option_id : Option ℕ
  pub effect_type : EffectType
  pub target_field_id : ℕ
  pub default_payload : Option Json
  pub created_at : ℕ
  pub deleted_at : Option ℕ

pub record FieldsDb : Type 0 where
  pub departments : List Department
  pub fields : List FieldDefinition
  pub options : List FieldOption
  pub rules : List FieldRule
  pub journal : List AuditEntry

-- `this.audit.appendInTx(tx, ...)`
unfoldable pub record_audit : Ctx → String → String → ℕ → Action FieldsDb (Unit {0})
record_audit ctx event entity id = modify λ db. record db {
  journal =
      record {
        tenant_id = ctx.tenant_id;
        event_type = event;
        entity_type = entity;
        entity_id = id;
        actor_user_id = ctx.user_id;
      }
      ∷ db.journal;
}

unfoldable pub find_field : ℕ → ℕ → FieldsDb → Option FieldDefinition
find_field tenant id db = find_first (λ f. f.id == id && f.tenant_id == tenant) db.fields

-- `loadField`
unfoldable pub load_field : Ctx → ℕ → Action FieldsDb FieldDefinition
unfolding find_field
load_field ctx id db = or_raise (find_field ctx.tenant_id id db) resource_not_found db

unfoldable pub find_option : ℕ → ℕ → ℕ → FieldsDb → Option FieldOption
find_option tenant field_id id db =
    find_first (λ o. o.id == id && o.tenant_id == tenant && o.field_id == field_id) db.options

unfoldable pub find_rule : ℕ → ℕ → FieldsDb → Option FieldRule
find_rule tenant id db = find_first (λ r. r.id == id && r.tenant_id == tenant) db.rules

unfoldable pub write_field : ℕ → (FieldDefinition → FieldDefinition) → Action FieldsDb (Unit {0})
write_field id f = modify λ db. record db { fields = update_many (λ x. x.id == id) f db.fields }

unfoldable pub write_option : ℕ → (FieldOption → FieldOption) → Action FieldsDb (Unit {0})
write_option id f = modify λ db. record db { options = update_many (λ x. x.id == id) f db.options }

unfoldable pub write_rule : ℕ → (FieldRule → FieldRule) → Action FieldsDb (Unit {0})
write_rule id f = modify λ db. record db { rules = update_many (λ x. x.id == id) f db.rules }

-- `if (check throws) ...`, for the checks that throw a `ValidationError`
abbrev pub refuse : {S : Type 0} → Option String → Action S (Unit {0})
refuse none = pure tt
refuse (some message) = raise (validation_error message)

-- `deletedAt: null`
abbrev pub is_live : Option ℕ → Bool
is_live at = not (is_some at)

-- `isFrozen`
unfoldable pub is_frozen : FieldStatus → Bool
is_frozen FieldStatus.read_only = true
is_frozen FieldStatus.archived = true
is_frozen _ = false

abbrev hex_digit : ℕ → ℕ
hex_digit c = if is_digit c then c - b'0' else if leb b'a' c then c - b'a' + 10 else c - b'A' + 10

abbrev hex_value : ℕ → Text → ℕ
hex_value acc [] = acc
hex_value acc (c ∷ s) = hex_value (if c == b'-' then acc else acc * 16 + hex_digit c) s

-- The identifier that a text names; a text that is no uuid names no row.
unfoldable pub id_of : Text → Option ℕ
id_of s = if is_uuid s then some (hex_value 0 s) else none
