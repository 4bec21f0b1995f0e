-- ===== src/Fields/RuleOps/Acyclic.antt =====
-- The graph of the active rules of a tenant over the calls of src/services/case-field.service.ts.
use hpx_eigen_s1_foundation.Common.{
  ℕ, ◌≡◌, ◌⊎◌, inl, inr, true, ◌&&◌, ◌||◌, Option, none, some, List, [], ◌∷◌, ◌++◌, ◌∙◌, arith,
  ◌==◌, update_many, Bool-cases, Option-cases, get_or_else,
}
use hpx_eigen_s1_foundation.Store.{ok, Ctx, Result-cases}
use hpx_eigen_s1_foundation.Fields.Graph.{
  Edge, has, targets, Walk, here, step, IsAcyclic, has-targets_snoc,
}
use hpx_eigen_s1_foundation.Fields.Search.{
  assert_no_rule_cycle, no_cycle, assert_no_rule_cycle-IsAcyclic,
}
use hpx_eigen_s1_foundation.Fields.Definitions.{is_bad_name, opt_text}
use hpx_eigen_s1_foundation.Fields.Rows.{FieldRule, FieldsDb, find_rule, write_rule, record_audit}
use hpx_eigen_s1_foundation.Fields.RuleInput.{
  RuleInput, ResolvedRule, is_counted, edges_where, resolved_edge, resolve_rule, check_cycle,
  validate_rule_input,
}
use hpx_eigen_s1_foundation.Fields.RuleOps.{
  RuleTexts, RulePatch, validated, new_rule, create_rule, merged_input, patched_rule, update_rule,
  archived_rule, archive_rule,
}

-- The edges of the rules of a tenant that are neither archived nor switched off.
unfoldable pub active_edges : ℕ → FieldsDb → List Edge
unfolding is_counted edges_where
active_edges tenant db = edges_where (is_counted tenant none) db.rules

-- Fewer edges, fewer walks.
map-Walk :
    {es es' : List Edge}
    → ((u v : ℕ) → has v (targets es u) ≡ true → has v (targets es' u) ≡ true)
    → {u v : ℕ} → Walk es u v
    → Walk es' u v
map-Walk within here = here
map-Walk within (step e p) = step (within _ _ e) (map-Walk within p)

within-IsAcyclic :
    (es es' : List Edge)
    → ((u v : ℕ) → has v (targets es u) ≡ true → has v (targets es' u) ≡ true)
    → IsAcyclic es'
    → IsAcyclic es
unfolding IsAcyclic
within-IsAcyclic es es' within acyclic u v e p = acyclic u v (within u v e) (map-Walk within p)

check_cycle-no_cycle :
    (others : List Edge) (q r : ResolvedRule)
    → check_cycle others q ≡ ok r
    → assert_no_rule_cycle others (resolved_edge r) ≡ no_cycle
unfolding check_cycle
check_cycle-no_cycle others q r h = ground arith

-- A rule that passed the check closes no cycle with the other rules.
validate_rule_input-no_cycle :
    (tenant : ℕ) (input : RuleInput) (exclude : Option ℕ) (db : FieldsDb) (r : ResolvedRule)
    → validate_rule_input tenant input exclude db ≡ ok r
    → assert_no_rule_cycle (edges_where (is_counted tenant exclude) db.rules) (resolved_edge r)
      ≡ no_cycle
unfolding validate_rule_input
validate_rule_input-no_cycle tenant input exclude db r h =
    elim (Result-cases (resolve_rule tenant db input)) [
      | inl (q, passed) ↦ check_cycle-no_cycle _ q r (ground arith)
      | inr (e, refused) ↦ absurd (ground arith)
    ]

-- The other rules are among the active ones.
others_within :
    (tenant id : ℕ) (rules : List FieldRule) (u v : ℕ)
    → has v (targets (edges_where (is_counted tenant (some id)) rules) u) ≡ true
    → has v (targets (edges_where (is_counted tenant none) rules) u) ≡ true
unfolding is_counted edges_where targets has
others_within tenant id [] u v h = h
others_within tenant id (r ∷ rs) u v h = ground (arith, others_within tenant id rs u v)

-- After the write of a rule, every active edge is one of another rule or the one written.
patched_within :
    (tenant id : ℕ) (texts : RuleTexts) (resolved : ResolvedRule) (rules : List FieldRule) (u v : ℕ)
    → has v (
        targets
          (edges_where
            (is_counted tenant none)
            (update_many (λ x. x.id == id) (patched_rule texts resolved) rules))
          u)
      ≡ true
    → (has v (targets (edges_where (is_counted tenant (some id)) rules) u)
        || (resolved.condition_field_id == u && resolved.target_field_id == v))
      ≡ true
unfolding is_counted edges_where targets has update_many patched_rule
patched_within tenant id texts resolved [] u v h = absurd (ground arith)
patched_within tenant id texts resolved (r ∷ rs) u v h =
    ground (arith, patched_within tenant id texts resolved rs u v)

archived_within :
    (tenant id : ℕ) (ctx : Ctx) (rules : List FieldRule) (u v : ℕ)
    → has v (
        targets
          (edges_where
            (is_counted tenant none)
            (update_many (λ x. x.id == id) (archived_rule ctx) rules))
          u)
      ≡ true
    → has v (targets (edges_where (is_counted tenant none) rules) u) ≡ true
unfolding is_counted edges_where targets has update_many archived_rule
archived_within tenant id ctx [] u v h = absurd (ground arith)
archived_within tenant id ctx (r ∷ rs) u v h = ground (arith, archived_within tenant id ctx rs u v)

module _ (ctx : Ctx) (db : FieldsDb) where
  -- What a call did to the rules: nothing, or it put the checked rule in front, or over its row.
  Creates : ℕ → RuleTexts → RuleInput → FieldsDb → Type 0
  Creates new_id texts input after =
      (r : ResolvedRule) × (validate_rule_input ctx.tenant_id input none db ≡ ok r)
      × (after.rules ≡ new_rule ctx new_id texts r ∷ db.rules)

  create_rule-cases :
      (new_id : ℕ) (texts : RuleTexts) (input : RuleInput)
      → ((create_rule ctx new_id texts input db).1 ≡ db)
        ⊎ Creates new_id texts input (create_rule ctx new_id texts input db).1
  unfolding create_rule validated Creates record_audit
  create_rule-cases new_id texts input =
      elim (Bool-cases (is_bad_name (get_or_else texts.name []))) [
        | inl bad ↦ inl (ground arith)
        | inr fine ↦ elim (Result-cases (validate_rule_input ctx.tenant_id input none db)) [
          | inl (r, passed) ↦ inr (r, passed, ground arith)
          | inr (e, refused) ↦ inl (ground arith)
        ]
      ]

  Updates : ℕ → RulePatch → FieldsDb → Type 0
  Updates id patch after =
      (rule : FieldRule) × (r : ResolvedRule) × (validate_rule_input ctx.tenant_id
          (merged_input patch rule) (some id) db
        ≡ ok r)
      × (after.rules ≡ update_many (λ x. x.id == id) (patched_rule patch.texts r) db.rules)

  update_rule-cases :
      (id : ℕ) (patch : RulePatch)
      → ((update_rule ctx id patch db).1 ≡ db) ⊎ Updates id patch (update_rule ctx id patch db).1
  unfolding update_rule validated Updates record_audit write_rule
  update_rule-cases id patch = elim (Option-cases (find_rule ctx.tenant_id id db)) [
    | inl gone ↦ inl (ground arith)
    | inr (rule, found) ↦ elim (Bool-cases (opt_text is_bad_name patch.texts.name)) [
      | inl bad ↦ inl (ground arith)
      | inr fine ↦
          elim (Result-cases
            (validate_rule_input ctx.tenant_id (merged_input patch rule) (some id) db)) [
              | inl (r, passed) ↦ inr (rule, r, passed, ground arith)
              | inr (e, refused) ↦ inl (ground arith)
            ]
    ]
  ]

  archive_rule-cases :
      (id : ℕ)
      → ((archive_rule ctx id db).1 ≡ db)
        ⊎ ((archive_rule ctx id db).1.rules
            ≡ update_many (λ x. x.id == id) (archived_rule ctx) db.rules)
  unfolding archive_rule record_audit write_rule
  archive_rule-cases id = elim (Option-cases (find_rule ctx.tenant_id id db)) [
    | inl gone ↦ inl (ground arith)
    | inr (rule, found) ↦ ground arith
  ]

created_within :
    (ctx : Ctx) (new_id : ℕ) (texts : RuleTexts) (resolved : ResolvedRule) (rules : List FieldRule)
    (u v : ℕ)
    → has v (
        targets
          (edges_where (is_counted ctx.tenant_id none) (new_rule ctx new_id texts resolved ∷ rules))
          u)
      ≡ true
    → (has v (targets (edges_where (is_counted ctx.tenant_id none) rules) u)
        || (resolved.condition_field_id == u && resolved.target_field_id == v))
      ≡ true
unfolding is_counted edges_where targets has new_rule
created_within ctx new_id texts resolved rules u v h = ground arith

-- Whatever edges the calls leave, one more that passed the check among them.
checked-IsAcyclic :
    (others edges : List Edge) (r : ResolvedRule)
    → ((u v : ℕ)
        → has v (targets edges u) ≡ true
        → (has v (targets others u) || (r.condition_field_id == u && r.target_field_id == v))
          ≡ true)
    → IsAcyclic others
    → assert_no_rule_cycle others (resolved_edge r) ≡ no_cycle
    → IsAcyclic edges
checked-IsAcyclic others edges r within acyclic passed =
    within-IsAcyclic edges (others ++ resolved_edge r ∷ [])
      (λ u v h. has-targets_snoc others (resolved_edge r) u v ∙ within u v h)
      (assert_no_rule_cycle-IsAcyclic others (resolved_edge r) acyclic passed)

module _ (ctx : Ctx) (db : FieldsDb) (acyclic : IsAcyclic (active_edges ctx.tenant_id db)) where
  -- A new rule keeps the active rules of the tenant acyclic.
  pub create_rule-IsAcyclic :
      (new_id : ℕ) (texts : RuleTexts) (input : RuleInput)
      → IsAcyclic (active_edges ctx.tenant_id (create_rule ctx new_id texts input db).1)
  unfolding active_edges Creates
  create_rule-IsAcyclic new_id texts input = elim (create_rule-cases ctx db new_id texts input) [
    | inl same ↦ rw same acyclic
    | inr (r, passed, rules) ↦ rw rules (
        checked-IsAcyclic _ _ r (created_within ctx new_id texts r db.rules) acyclic
          (validate_rule_input-no_cycle ctx.tenant_id input none db r passed))
  ]

  -- So does an edited rule, also one that is switched on again.
  pub update_rule-IsAcyclic :
      (id : ℕ) (patch : RulePatch)
      → IsAcyclic (active_edges ctx.tenant_id (update_rule ctx id patch db).1)
  unfolding active_edges Updates
  update_rule-IsAcyclic id patch = elim (update_rule-cases ctx db id patch) [
    | inl same ↦ rw same acyclic
    | inr (rule, r, passed, rules) ↦ rw rules (
        checked-IsAcyclic _ _ r (patched_within ctx.tenant_id id patch.texts r db.rules)
          (within-IsAcyclic _ _ (others_within ctx.tenant_id id db.rules) acyclic)
          (validate_rule_input-no_cycle ctx.tenant_id (merged_input patch rule) (some id) db r
            passed))
  ]

  -- So does an archived one.
  pub archive_rule-IsAcyclic :
      (id : ℕ) → IsAcyclic (active_edges ctx.tenant_id (archive_rule ctx id db).1)
  unfolding active_edges
  archive_rule-IsAcyclic id = elim (archive_rule-cases ctx db id) [
    | inl same ↦ rw same acyclic
    | inr rules ↦
        rw rules (within-IsAcyclic _ _ (archived_within ctx.tenant_id id ctx db.rules) acyclic)
  ]
