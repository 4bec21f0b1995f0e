-- ===== src/Fields/Validation.antt =====
-- The check that the required fields of a case have values: `validateValues` of
-- src/services/case-field-value.service.ts, on the fields that apply to the case, the stored values
-- and the active rules of the tenant.
pub mod Required
use hpx_eigen_s1_foundation.Common.{
  ℕ, Bool, true, false, not, ◌&&◌, Option, none, some, List, [], ◌∷◌, Text, ◌==◌, keep, map,
  find_first, if◌then◌else◌,
}
use hpx_eigen_s1_foundation.Fields.Graph.{has}
use hpx_eigen_s1_foundation.Fields.Conditions.{StoredValue, is_present}
use hpx_eigen_s1_foundation.Fields.Runtime.{
  RuntimeRule, FieldRuntime, is_require, fires, compute_field_runtime,
}

-- A row of CaseFieldRule, by its id and what the runtime reads.
pub record RuleRow : Type 0 where
  pub id : ℕ
  pub rule : RuntimeRule

pub record MissingValue : Type 0 where
  pub rule_id : ℕ
  pub target_field_id : ℕ

pub record ValidationResult : Type 0 where
  pub valid : Bool
  pub missing : List MissingValue

-- `fieldIds.has(r.conditionFieldId) && fieldIds.has(r.targetFieldId)`
unfoldable pub is_in_scope : List ℕ → RuleRow → Bool
unfolding has
is_in_scope field_ids r =
    has r.rule.condition_field_id field_ids && has r.rule.target_field_id field_ids

-- `runtime.get(id)?.isHidden`
unfoldable pub is_hidden_in : List FieldRuntime → ℕ → Bool
is_hidden_in runtime id = elim (find_first (λ rt. rt.field_id == id) runtime) [
  | none ↦ false
  | some rt ↦ rt.is_hidden
]

abbrev pub no_values : List MissingValue → Bool
no_values [] = true
no_values (v ∷ vs) = false

module _ (parse_date : Text → Option ℕ) (stored : ℕ → Option StoredValue) where
  -- A rule that requires a value of a field that is not hidden and has none.
  unfoldable pub is_unmet : List FieldRuntime → RuleRow → Bool
  unfolding is_hidden_in
  is_unmet runtime r =
      is_require r.rule.effect_type
      && not (is_hidden_in runtime r.rule.target_field_id)
      && fires parse_date stored r.rule
      && not (is_present (stored r.rule.target_field_id))

  -- The loop over `inScope`
  unfoldable pub missing_values : List FieldRuntime → List RuleRow → List MissingValue
  unfolding is_unmet
  missing_values runtime [] = []
  missing_values runtime (r ∷ rs) =
      let rest = missing_values runtime rs in
      if is_unmet runtime r
      then record { rule_id = r.id; target_field_id = r.rule.target_field_id } ∷ rest
      else rest

  unfoldable pub validate_values : List ℕ → List ℕ → List RuleRow → ValidationResult
  unfolding missing_values is_in_scope
  validate_values field_ids static_hidden rows =
      let in_scope = keep (is_in_scope field_ids) rows in
      let runtime =
        compute_field_runtime parse_date stored field_ids static_hidden
          (map RuleRow.rule in_scope) in
      let missing = missing_values runtime in_scope in
      record { valid = no_values missing; missing = missing }
