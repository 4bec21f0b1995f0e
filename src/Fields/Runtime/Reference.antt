-- ===== src/Fields/Runtime/Reference.antt =====
-- What the runtime state of one field is, field by field, for
-- src/services/case-field-value.validation.ts.
use hpx_eigen_s1_foundation.Common.{
  ℕ, ◌≡◌, refl, sym, ap, ◌∙◌, Bool, true, false, not, ◌&&◌, ◌||◌, Option, none, List, [], ◌∷◌, Text,
  ◌==◌, map, some_of, arith, update_many, if◌then◌else◌, Bool-cases, inl, inr, ◌⊎◌,
}
use hpx_eigen_s1_foundation.Fields.Types.{Json, EffectType, require_field, hide_field, set_default}
use hpx_eigen_s1_foundation.Fields.Graph.{has}
use hpx_eigen_s1_foundation.Fields.Conditions.{StoredValue, is_present}
use hpx_eigen_s1_foundation.Fields.Runtime.{
  RuntimeRule, FieldRuntime, insert_rule, sort_rules, is_require, is_default, fires, effect,
  apply_rule, apply_all, blank_runtime, hide_all, compute_field_runtime,
}

EffectType-cases : (e : EffectType) → (e ≡ require_field) ⊎ ((e ≡ hide_field) ⊎ (e ≡ set_default))
EffectType-cases require_field = inl refl
EffectType-cases hide_field = inr (inl refl)
EffectType-cases set_default = inr (inr refl)

module _ (parse_date : Text → Option ℕ) (stored : ℕ → Option StoredValue) where
  -- A rule that demands the field.
  unfoldable pub demands : ℕ → RuntimeRule → Bool
  demands id r = r.target_field_id == id && is_require r.effect_type && fires parse_date stored r

  -- A rule that offers a default for the field.
  unfoldable pub offers : ℕ → RuntimeRule → Bool
  offers id r =
      r.target_field_id == id
      && is_default r.effect_type
      && not (is_present (stored id))
      && fires parse_date stored r

  -- The payload of the last rule that offers one.
  unfoldable pub last_offer : ℕ → List RuntimeRule → Option Json → Option Json
  last_offer id [] before = before
  last_offer id (r ∷ rs) before =
      last_offer id rs (if offers id r then r.default_payload else before)

  -- The state of one field: hidden or not, demanded by some rule, and the last default offered.
  unfoldable pub reference_runtime : List RuntimeRule → List ℕ → ℕ → FieldRuntime
  reference_runtime rules static_hidden id =
      let hidden = has id (hide_all parse_date stored (sort_rules rules) static_hidden) in
      record {
        field_id = id;
        is_hidden = hidden;
        is_required = not hidden && some_of (demands id) rules;
        default_payload = if hidden then none else last_offer id (sort_rules rules) none;
      }

  some_of-insert_rule :
      (p : RuntimeRule → Bool) (r : RuntimeRule) (rs : List RuntimeRule)
      → some_of p (insert_rule r rs) ≡ (p r || some_of p rs)
  unfolding insert_rule
  some_of-insert_rule p r [] = refl
  some_of-insert_rule p r (q ∷ qs) = ground (arith, some_of-insert_rule p r qs)

  some_of-sort_rules :
      (p : RuntimeRule → Bool) (rs : List RuntimeRule) → some_of p (sort_rules rs) ≡ some_of p rs
  unfolding sort_rules
  some_of-sort_rules p [] = refl
  some_of-sort_rules p (r ∷ rs) =
      some_of-insert_rule p r (sort_rules rs) ∙ ap (λ b. p r || b) (some_of-sort_rules p rs)

  entry : Bool → ℕ → Bool → Option Json → FieldRuntime
  entry hidden id required payload = record {
    field_id = id;
    is_hidden = hidden;
    is_required = required;
    default_payload = payload;
  }

  -- One rule on one entry.
  one_rule : RuntimeRule → FieldRuntime → FieldRuntime
  one_rule r rt =
      if rt.field_id == r.target_field_id && not rt.is_hidden
      then effect parse_date stored r rt
      else rt

  all_rules : List RuntimeRule → FieldRuntime → FieldRuntime
  unfolding one_rule
  all_rules [] rt = rt
  all_rules (r ∷ rs) rt = all_rules rs (one_rule r rt)

  apply_rule-map :
      (r : RuntimeRule) (out : List FieldRuntime)
      → apply_rule parse_date stored r out ≡ map (one_rule r) out
  unfolding apply_rule one_rule update_many
  apply_rule-map r [] = refl
  apply_rule-map r (rt ∷ out) = ap (λ xs. one_rule r rt ∷ xs) (apply_rule-map r out)

  map-map :
      (f g : FieldRuntime → FieldRuntime) (out : List FieldRuntime)
      → map f (map g out) ≡ map (λ rt. f (g rt)) out
  map-map f g [] = refl
  map-map f g (rt ∷ out) = ap (λ xs. f (g rt) ∷ xs) (map-map f g out)

  map_id :
      (f : FieldRuntime → FieldRuntime)
      → ((rt : FieldRuntime) → f rt ≡ rt)
      → (out : List FieldRuntime) → map f out ≡ out
  map_id f h [] = refl
  map_id f h (rt ∷ out) = ground (arith, h rt, map_id f h out)

  apply_all-map :
      (rs : List RuntimeRule) (out : List FieldRuntime)
      → apply_all parse_date stored rs out ≡ map (all_rules rs) out
  unfolding apply_all all_rules
  apply_all-map [] out = sym (map_id (λ rt. rt) (λ rt. refl) out)
  apply_all-map (r ∷ rs) out =
      ap (apply_all parse_date stored rs) (apply_rule-map r out)
      ∙ apply_all-map rs (map (one_rule r) out)
      ∙ map-map (all_rules rs) (one_rule r) out

  target_entry :
      (r : RuntimeRule) (required : Bool) (payload : Option Json)
      → one_rule r (entry false r.target_field_id required payload)
        ≡ entry false r.target_field_id
            (required || demands r.target_field_id r)
            (if offers r.target_field_id r then r.default_payload else payload)
  unfolding one_rule entry demands offers effect
  target_entry r required payload =
      let here : (r.target_field_id == r.target_field_id) ≡ true = ground arith in
      elim (EffectType-cases r.effect_type) [
        | inl e ↦ rw (here, e) (ground arith)
        | inr (inl e) ↦ rw (here, e) (ground arith)
        | inr (inr e) ↦ rw (here, e) (ground arith)
      ]

  one_rule-entry :
      (r : RuntimeRule) (hidden : Bool) (id : ℕ) (required : Bool) (payload : Option Json)
      → one_rule r (entry hidden id required payload)
        ≡ entry hidden id
            (required || (not hidden && demands id r))
            (if hidden then payload else if offers id r then r.default_payload else payload)
  unfolding one_rule entry demands offers effect
  one_rule-entry r true id required payload = ground arith
  one_rule-entry r false id required payload = elim (Bool-cases (id == r.target_field_id)) [
    | inl on ↦
        let here : id ≡ r.target_field_id = ground arith in
        rw here (target_entry r required payload)
    | inr off ↦
        let away : (r.target_field_id == id) ≡ false = ground arith in
        rw (off, away) (unfold entry in ground arith)
  ]

  merge :
      (id : ℕ) (rs : List RuntimeRule) (hidden required now later : Bool) (first next : Option Json)
      → entry hidden id ((required || (not hidden && now)) || (not hidden && later)) (
          if hidden
          then (if hidden then first else next)
          else last_offer id rs (if hidden then first else next))
        ≡ entry hidden id
            (required || (not hidden && (now || later)))
            (if hidden then first else last_offer id rs next)
  merge id rs true true now later first next = refl
  merge id rs true false now later first next = refl
  merge id rs false true now later first next = refl
  merge id rs false false now later first next = refl

  all_rules-entry :
      (rs : List RuntimeRule) (hidden : Bool) (id : ℕ) (required : Bool) (payload : Option Json)
      → all_rules rs (entry hidden id required payload)
        ≡ entry hidden id
            (required || (not hidden && some_of (demands id) rs))
            (if hidden then payload else last_offer id rs payload)
  unfolding all_rules last_offer
  all_rules-entry [] hidden id required payload = unfold entry in ground arith
  all_rules-entry (r ∷ rs) hidden id required payload =
      ap (all_rules rs) (one_rule-entry r hidden id required payload)
      ∙ all_rules-entry rs hidden id _ _
      ∙ merge id rs hidden required (demands id r) (some_of (demands id) rs) payload _

  map_same :
      (f g : ℕ → FieldRuntime) → ((id : ℕ) → f id ≡ g id) → (ids : List ℕ) → map f ids ≡ map g ids
  map_same f g same [] = refl
  map_same f g same (id ∷ ids) = ground (arith, same id, map_same f g same ids)

  map_blank :
      (f : FieldRuntime → FieldRuntime) (hidden ids : List ℕ)
      → map f (map (blank_runtime parse_date stored hidden) ids)
        ≡ map (λ id. f (blank_runtime parse_date stored hidden id)) ids
  map_blank f hidden [] = refl
  map_blank f hidden (id ∷ ids) =
      ap (λ xs. f (blank_runtime parse_date stored hidden id) ∷ xs) (map_blank f hidden ids)

  one_field :
      (rules : List RuntimeRule) (static_hidden : List ℕ) (id : ℕ)
      → all_rules (sort_rules rules) (
          blank_runtime parse_date stored
            (hide_all parse_date stored (sort_rules rules) static_hidden)
            id)
        ≡ reference_runtime rules static_hidden id
  unfolding blank_runtime reference_runtime entry
  one_field rules static_hidden id =
      let hidden = has id (hide_all parse_date stored (sort_rules rules) static_hidden) in
      all_rules-entry (sort_rules rules) hidden id false none
      ∙ ap
          (λ b.
            entry hidden id (not hidden && b)
              (if hidden then none else last_offer id (sort_rules rules) none))
          (some_of-sort_rules (demands id) rules)

-- The loop over the sorted rules gives each field the state that it has by itself: it is required if
-- it is not hidden and some rule demands it, in whatever order, and its default is the last one
-- offered in the sorted order; a hidden field is not required and has no default.
pub compute_field_runtime-reference_runtime :
    (parse_date : Text → Option ℕ) (stored : ℕ → Option StoredValue)
    (field_ids static_hidden : List ℕ) (rules : List RuntimeRule)
    → compute_field_runtime parse_date stored field_ids static_hidden rules
      ≡ map (reference_runtime parse_date stored rules static_hidden) field_ids
unfolding compute_field_runtime
compute_field_runtime-reference_runtime parse_date stored field_ids static_hidden rules =
    let hidden = hide_all parse_date stored (sort_rules rules) static_hidden in
    apply_all-map parse_date stored (sort_rules rules)
      (map (blank_runtime parse_date stored hidden) field_ids)
    ∙ map_blank parse_date stored (all_rules parse_date stored (sort_rules rules)) hidden field_ids
    ∙ map_same parse_date stored _ _ (one_field parse_date stored rules static_hidden) field_ids
