-- ===== src/Fields/Runtime.antt =====
-- The state of the fields that the rules give: `computeFieldRuntime` of
-- src/services/case-field-value.validation.ts.
pub mod Reference
use hpx_eigen_s1_foundation.Common.{
  ℕ, Bool, true, false, not, ◌&&◌, ◌||◌, Option, none, some, List, [], ◌∷◌, Text, ◌==◌, ltb, map,
  update_many, if◌then◌else◌,
}
use hpx_eigen_s1_foundation.Fields.Types.{
  Operator, EffectType, require_field, hide_field, set_default, Number, Json, less,
}
use hpx_eigen_s1_foundation.Fields.Graph.{has}
use hpx_eigen_s1_foundation.Fields.Conditions.{StoredValue, is_present, condition_met}

pub record RuntimeRule : Type 0 where
  pub priority : Number
  pub created_at : ℕ
  pub effect_type : EffectType
  pub condition_field_id : ℕ
  pub condition_operator : Operator
  pub condition_value : Json
  pub condition_option_id : Option Text
  pub target_field_id : ℕ
  pub default_payload : Option Json

-- `FieldRuntime`, an entry of the map `out`
pub record FieldRuntime : Type 0 where
  pub field_id : ℕ
  pub is_hidden : Bool
  pub is_required : Bool
  pub default_payload : Option Json

-- `a.priority - b.priority || a.createdAt - b.createdAt`, below 0
unfoldable pub sorts_before : RuntimeRule → RuntimeRule → Bool
sorts_before a b =
    less a.priority b.priority
    || (not (less b.priority a.priority) && ltb a.created_at b.created_at)

unfoldable pub insert_rule : RuntimeRule → List RuntimeRule → List RuntimeRule
insert_rule r [] = r ∷ []
insert_rule r (q ∷ qs) =
    let rest = insert_rule r qs in if sorts_before q r then q ∷ rest else r ∷ q ∷ qs

-- `[...rules].sort(...)`, a stable sort
unfoldable pub sort_rules : List RuntimeRule → List RuntimeRule
sort_rules [] = []
sort_rules (r ∷ rs) = insert_rule r (sort_rules rs)

abbrev pub is_hide : EffectType → Bool
is_hide hide_field = true
is_hide _ = false

abbrev pub is_require : EffectType → Bool
is_require require_field = true
is_require _ = false

abbrev pub is_default : EffectType → Bool
is_default set_default = true
is_default _ = false

module _ (parse_date : Text → Option ℕ) (stored : ℕ → Option StoredValue) where
  unfoldable pub fires : RuntimeRule → Bool
  unfolding condition_met
  fires r =
      condition_met parse_date r.condition_operator r.condition_value r.condition_option_id
        (stored r.condition_field_id)

  -- `hidden`, after a rule and after all
  unfoldable pub hide_by : RuntimeRule → List ℕ → List ℕ
  unfolding has
  hide_by r hidden =
      if is_hide r.effect_type && not (has r.condition_field_id hidden) && fires r
      then r.target_field_id ∷ hidden
      else hidden

  unfoldable pub hide_all : List RuntimeRule → List ℕ → List ℕ
  unfolding hide_by
  hide_all [] hidden = hidden
  hide_all (r ∷ rs) hidden = hide_all rs (hide_by r hidden)

  -- The effect of a rule on the entry of its target.
  unfoldable pub effect : RuntimeRule → FieldRuntime → FieldRuntime
  unfolding is_present
  effect r rt = elim r.effect_type [
    | require_field ↦ if fires r then record rt { is_required = true } else rt
    | set_default ↦
        if not (is_present (stored r.target_field_id)) && fires r
        then record rt { default_payload = r.default_payload }
        else rt
    | hide_field ↦ rt
  ]

  -- `if (!rt || rt.isHidden) continue;`
  unfoldable pub apply_rule : RuntimeRule → List FieldRuntime → List FieldRuntime
  unfolding effect
  apply_rule r out =
      update_many (λ rt. rt.field_id == r.target_field_id && not rt.is_hidden) (effect r) out

  unfoldable pub apply_all : List RuntimeRule → List FieldRuntime → List FieldRuntime
  unfolding apply_rule
  apply_all [] out = out
  apply_all (r ∷ rs) out = apply_all rs (apply_rule r out)

  unfoldable pub blank_runtime : List ℕ → ℕ → FieldRuntime
  unfolding has
  blank_runtime hidden id = record {
    field_id = id;
    is_hidden = has id hidden;
    is_required = false;
    default_payload = none;
  }

  -- `computeFieldRuntime(fieldIds, staticHidden, stored, rules)`
  unfoldable pub compute_field_runtime : List ℕ → List ℕ → List RuntimeRule → List FieldRuntime
  unfolding hide_all apply_all blank_runtime sort_rules
  compute_field_runtime field_ids static_hidden rules =
      let sorted = sort_rules rules in
      let hidden = hide_all sorted static_hidden in
      apply_all sorted (map (blank_runtime hidden) field_ids)
