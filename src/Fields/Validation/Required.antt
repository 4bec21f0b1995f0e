-- ===== src/Fields/Validation/Required.antt =====
-- Validation and the runtime state of the fields agree (src/services/case-field-value.service.ts).
use mathlib.Core.Path.{subst}
use hpx_eigen_s1_foundation.Common.{
  ℕ, ◌≡◌, ◌↔◌, inl, inr, refl, ap, ◌∙◌, sym, Bool, true, false, not, ◌&&◌, Option, List, [], ◌∷◌,
  Text, arith, keep, map, some_of, find_first, Bool-cases,
}
use hpx_eigen_s1_foundation.Fields.Graph.{has, has_cases}
use hpx_eigen_s1_foundation.Fields.Conditions.{StoredValue, is_present}
use hpx_eigen_s1_foundation.Fields.Runtime.{
  RuntimeRule, FieldRuntime, is_require, fires, hide_all, sort_rules,
}
use hpx_eigen_s1_foundation.Fields.Runtime.Reference.{
  demands, reference_runtime, compute_field_runtime-reference_runtime,
}
use hpx_eigen_s1_foundation.Fields.Validation.{
  RuleRow, is_in_scope, is_hidden_in, no_values, is_unmet, missing_values, validate_values,
}

head_found :
    (rt : FieldRuntime) (rest : List FieldRuntime) (id : ℕ)
    → rt.field_id ≡ id
    → is_hidden_in (rt ∷ rest) id ≡ rt.is_hidden
unfolding is_hidden_in find_first
head_found rt rest id h = ground arith

module _ (parse_date : Text → Option ℕ) (stored : ℕ → Option StoredValue)
    (field_ids static_hidden : List ℕ) (rows : List RuleRow) where
  abbrev in_scope : List RuleRow
  in_scope = keep (is_in_scope field_ids) rows

  abbrev rules : List RuntimeRule
  rules = map RuleRow.rule in_scope

  abbrev hidden : ℕ → Bool
  hidden id = has id (hide_all parse_date stored (sort_rules rules) static_hidden)

  -- The state of a field of the case, found in the map of states.
  is_hidden_in-reference :
      (ids : List ℕ) (id : ℕ)
      → has id ids ≡ true
      → is_hidden_in (map (reference_runtime parse_date stored rules static_hidden) ids) id
        ≡ hidden id
  unfolding is_hidden_in find_first reference_runtime has
  is_hidden_in-reference [] id h = absurd (ground arith)
  is_hidden_in-reference (x ∷ ids) id h = elim (has_cases id x ids h) [
    | inl here ↦
        head_found (reference_runtime parse_date stored rules static_hidden x) _ id here
        ∙ ap hidden here
    | inr there ↦ ground (arith, is_hidden_in-reference ids id there)
  ]

  no_missing :
      (runtime : List FieldRuntime) (rs : List RuleRow)
      → (no_values (missing_values parse_date stored runtime rs) ≡ true)
        ↔ (some_of (is_unmet parse_date stored runtime) rs ≡ false)
  unfolding missing_values
  no_missing runtime [] = (λ h. refl, λ h. refl)
  no_missing runtime (r ∷ rs) = ground (arith, no_missing runtime rs)

  abbrev reference : List FieldRuntime
  reference = map (reference_runtime parse_date stored rules static_hidden) field_ids

  -- An unmet rule in scope, told by its target.
  unmet_iff :
      (r : RuleRow)
      → has r.rule.target_field_id field_ids ≡ true
      → is_unmet parse_date stored reference r ≡ (
          is_require r.rule.effect_type
          && not (hidden r.rule.target_field_id)
          && fires parse_date stored r.rule
          && not (is_present (stored r.rule.target_field_id)))
  unfolding is_unmet
  unmet_iff r inside = rw (is_hidden_in-reference field_ids r.rule.target_field_id inside) refl

  demands-here :
      (r : RuleRow) (id : ℕ)
      → demands parse_date stored id r.rule ≡ true
      → (r.rule.target_field_id ≡ id)
        × (is_require r.rule.effect_type ≡ true)
        × (fires parse_date stored r.rule ≡ true)
  unfolding demands
  demands-here r id h = ground arith

  demanded_unmet :
      (rs : List RuleRow) (id : ℕ)
      → some_of (demands parse_date stored id) (map RuleRow.rule (keep (is_in_scope field_ids) rs))
        ≡ true
      → hidden id ≡ false
      → is_present (stored id) ≡ false
      → some_of (is_unmet parse_date stored reference) (keep (is_in_scope field_ids) rs) ≡ true
  demanded_unmet [] id h shown absent = absurd (ground arith)
  demanded_unmet (r ∷ rs) id h shown absent = elim (Bool-cases (is_in_scope field_ids r)) [
    | inr out ↦ rw out (demanded_unmet rs id (rw out at h) shown absent)
    | inl scope ↦
        let inside : has r.rule.target_field_id field_ids ≡ true =
          unfold is_in_scope in ground arith in
        elim (Bool-cases (demands parse_date stored id r.rule)) [
          | inl asked ↦
              let (same, require, fired) = demands-here r id asked in
              let unmet = unmet_iff r inside in
              let shown' : hidden r.rule.target_field_id ≡ false = rw same shown in
              let absent' : is_present (stored r.rule.target_field_id) ≡ false = rw same absent in
              let yes : is_unmet parse_date stored reference r ≡ true =
                unmet ∙ rw (require, shown', fired, absent') refl in
              rw (scope, yes) refl
          | inr quiet ↦
              let later : some_of (demands parse_date stored id)
                    (map RuleRow.rule (keep (is_in_scope field_ids) rs))
                  ≡ true =
                rw (scope, quiet) at h in
              let rest = demanded_unmet rs id later shown absent in rw scope (ground (arith, rest))
        ]
  ]

  demands-target :
      (r : RuleRow)
      → is_require r.rule.effect_type ≡ true
      → fires parse_date stored r.rule ≡ true
      → demands parse_date stored r.rule.target_field_id r.rule ≡ true
  unfolding demands
  demands-target r require fired = ground arith

  unmet_demanded :
      (rs : List RuleRow)
      → some_of (is_unmet parse_date stored reference) (keep (is_in_scope field_ids) rs) ≡ true
      → (id : ℕ) × (has id field_ids ≡ true)
        × (hidden id ≡ false)
        × (is_present (stored id) ≡ false)
        × (some_of
              (demands parse_date stored id)
              (map RuleRow.rule (keep (is_in_scope field_ids) rs))
            ≡ true)
  unmet_demanded [] h = absurd (ground arith)
  unmet_demanded (r ∷ rs) h = elim (Bool-cases (is_in_scope field_ids r)) [
    | inr out ↦
        let (id, inside, shown, absent, asked) = unmet_demanded rs (rw out at h) in
        (id, inside, shown, absent, rw out asked)
    | inl scope ↦ elim (Bool-cases (is_unmet parse_date stored reference r)) [
      | inl unmet ↦
          let inside : has r.rule.target_field_id field_ids ≡ true =
            unfold is_in_scope in ground arith in
          let told = sym (unmet_iff r inside) ∙ unmet in
          let (require, shown, fired, absent) = parts _ _ _ _ told in
          let asked = demands-target r require fired in
          (r.rule.target_field_id, inside, shown, absent, rw (scope, asked) refl)
      | inr met ↦
          let later : some_of (is_unmet parse_date stored reference)
                (keep (is_in_scope field_ids) rs)
              ≡ true =
            rw (scope, met) at h in
          let (id, inside, shown, absent, asked) = unmet_demanded rs later in
          (id, inside, shown, absent, rw scope (ground (arith, asked)))
    ]
  ]
    where
      parts :
          (a b c d : Bool)
          → (a && not b && c && not d) ≡ true
          → (a ≡ true) × (b ≡ false) × (c ≡ true) × (d ≡ false)
      parts a b c d h = ground arith

  required-parts :
      (id : ℕ)
      → (reference_runtime parse_date stored rules static_hidden id).is_required ≡ true
      → (hidden id ≡ false) × (some_of (demands parse_date stored id) rules ≡ true)
  unfolding reference_runtime
  required-parts id h = ground arith

  parts-required :
      (id : ℕ)
      → hidden id ≡ false
      → some_of (demands parse_date stored id) rules ≡ true
      → (reference_runtime parse_date stored rules static_hidden id).is_required ≡ true
  unfolding reference_runtime
  parts-required id shown asked = rw (shown, asked) refl

  no_missing_iff : (no_values (missing_values parse_date stored reference in_scope) ≡ true) ↔ (
      (id : ℕ)
      → has id field_ids ≡ true
      → (reference_runtime parse_date stored rules static_hidden id).is_required ≡ true
      → is_present (stored id) ≡ true)
  no_missing_iff = (
    λ h id inside required. elim (Bool-cases (is_present (stored id))) [
      | inl present ↦ present
      | inr absent ↦
          let (shown, asked) = required-parts id required in
          let unmet = demanded_unmet rows id asked shown absent in
          let clean = (no_missing reference in_scope).0 h in absurd (ground arith)
    ],
    λ f. elim (Bool-cases (some_of (is_unmet parse_date stored reference) in_scope)) [
      | inr clean ↦ (no_missing reference in_scope).1 clean
      | inl unmet ↦
          let (id, inside, shown, absent, asked) = unmet_demanded rows unmet in
          let present = f id inside (parts-required id shown asked) in absurd (ground arith)
    ],
  )

-- The validation of a case says that it is valid exactly if every field of the case that the runtime
-- state shows as required has a value.
pub validate_values-valid_iff :
    (parse_date : Text → Option ℕ) (stored : ℕ → Option StoredValue)
    (field_ids static_hidden : List ℕ) (rows : List RuleRow)
    → ((validate_values parse_date stored field_ids static_hidden rows).valid ≡ true) ↔ (
        (id : ℕ)
        → has id field_ids ≡ true
        → (reference_runtime parse_date stored
            (map RuleRow.rule (keep (is_in_scope field_ids) rows))
            static_hidden
            id).is_required
          ≡ true
        → is_present (stored id) ≡ true)
unfolding validate_values
validate_values-valid_iff parse_date stored field_ids static_hidden rows =
    subst
      (λ runtime.
        (no_values (missing_values parse_date stored runtime (keep (is_in_scope field_ids) rows))
          ≡ true)
        ↔ ((id : ℕ)
            → has id field_ids ≡ true
            → (reference_runtime parse_date stored
                (map RuleRow.rule (keep (is_in_scope field_ids) rows)) static_hidden id).is_required
              ≡ true
            → is_present (stored id) ≡ true))
      (sym (
        compute_field_runtime-reference_runtime parse_date stored field_ids static_hidden
          (map RuleRow.rule (keep (is_in_scope field_ids) rows))))
      (no_missing_iff parse_date stored field_ids static_hidden rows)
