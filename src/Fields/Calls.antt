-- ===== src/Fields/Calls.antt =====
-- The calls of the case field service, one after the other (src/services/case-field.service.ts).
use hpx_eigen_s1_foundation.Common.{ℕ, ◌≡◌, List, [], ◌∷◌, arith}
use hpx_eigen_s1_foundation.Store.{Ctx}
use hpx_eigen_s1_foundation.Fields.Graph.{IsAcyclic}
use hpx_eigen_s1_foundation.Fields.Rows.{
  FieldsDb, load_field, record_audit, write_field, write_option,
}
use hpx_eigen_s1_foundation.Fields.Definitions.{
  FieldInput, FieldPatch, create_field, update_field, activate_field, set_field_read_only,
  transition_field, archive_field, hard_delete_field,
}
use hpx_eigen_s1_foundation.Fields.OptionOps.{
  OptionInput, OptionPatch, create_option, update_option, archive_option, assert_valid_parent,
}
use hpx_eigen_s1_foundation.Fields.RuleInput.{RuleInput}
use hpx_eigen_s1_foundation.Fields.RuleOps.{
  RuleTexts, RulePatch, create_rule, update_rule, archive_rule,
}
use hpx_eigen_s1_foundation.Fields.RuleOps.Acyclic.{
  active_edges, create_rule-IsAcyclic, update_rule-IsAcyclic, archive_rule-IsAcyclic,
}

-- A call that changes state, with the identifier that a new row gets.
pub data FieldsCall : Type 0 where
  creating_field : ℕ → FieldInput → FieldsCall
  updating_field : ℕ → FieldPatch → FieldsCall
  activating_field setting_field_read_only archiving_field hard_deleting_field : ℕ → FieldsCall
  creating_option : (new_id field_id : ℕ) → OptionInput → FieldsCall
  updating_option : (field_id id : ℕ) → OptionPatch → FieldsCall
  archiving_option : (field_id id : ℕ) → FieldsCall
  creating_rule : ℕ → RuleTexts → RuleInput → FieldsCall
  updating_rule : ℕ → RulePatch → FieldsCall
  archiving_rule : ℕ → FieldsCall

-- The state after a call, whether it returned or threw.
unfoldable pub run_call : Ctx → FieldsCall → FieldsDb → FieldsDb
run_call ctx (creating_field new_id input) db = (create_field ctx new_id input db).1
run_call ctx (updating_field id input) db = (update_field ctx id input db).1
run_call ctx (activating_field id) db = (activate_field ctx id db).1
run_call ctx (setting_field_read_only id) db = (set_field_read_only ctx id db).1
run_call ctx (archiving_field id) db = (archive_field ctx id db).1
run_call ctx (hard_deleting_field id) db = (hard_delete_field ctx id db).1
run_call ctx (creating_option new_id field_id input) db =
    (create_option ctx new_id field_id input db).1
run_call ctx (updating_option field_id id input) db = (update_option ctx field_id id input db).1
run_call ctx (archiving_option field_id id) db = (archive_option ctx field_id id db).1
run_call ctx (creating_rule new_id texts input) db = (create_rule ctx new_id texts input db).1
run_call ctx (updating_rule id patch) db = (update_rule ctx id patch db).1
run_call ctx (archiving_rule id) db = (archive_rule ctx id db).1

-- Who calls, and when; the tenant is the same for all.
pub record Request : Type 0 where
  pub user_id : ℕ
  pub now : ℕ
  pub call : FieldsCall

abbrev ctx_of : ℕ → Request → Ctx
ctx_of tenant r = record { tenant_id = tenant; user_id = r.user_id; now = r.now }

unfoldable pub run_calls : ℕ → List Request → FieldsDb → FieldsDb
unfolding run_call
run_calls tenant [] db = db
run_calls tenant (r ∷ rs) db = run_calls tenant rs (run_call (ctx_of tenant r) r.call db)

active_edges-rules :
    (tenant : ℕ) (db db' : FieldsDb)
    → db'.rules ≡ db.rules
    → IsAcyclic (active_edges tenant db)
    → IsAcyclic (active_edges tenant db')
unfolding active_edges
active_edges-rules tenant db db' same acyclic = rw same acyclic

-- The calls on fields and options leave the rules alone.
module _ (ctx : Ctx) (db : FieldsDb) where
  create_field-rules :
      (new_id : ℕ) (input : FieldInput) → (create_field ctx new_id input db).1.rules ≡ db.rules
  unfolding create_field record_audit
  create_field-rules new_id input = ground arith

  update_field-rules :
      (id : ℕ) (input : FieldPatch) → (update_field ctx id input db).1.rules ≡ db.rules
  unfolding update_field load_field record_audit write_field
  update_field-rules id input = ground arith

  activate_field-rules : (id : ℕ) → (activate_field ctx id db).1.rules ≡ db.rules
  unfolding activate_field transition_field load_field record_audit write_field
  activate_field-rules id = ground arith

  set_field_read_only-rules : (id : ℕ) → (set_field_read_only ctx id db).1.rules ≡ db.rules
  unfolding set_field_read_only transition_field load_field record_audit write_field
  set_field_read_only-rules id = ground arith

  archive_field-rules : (id : ℕ) → (archive_field ctx id db).1.rules ≡ db.rules
  unfolding archive_field load_field record_audit write_field
  archive_field-rules id = ground arith

  hard_delete_field-rules : (id : ℕ) → (hard_delete_field ctx id db).1.rules ≡ db.rules
  unfolding hard_delete_field load_field record_audit
  hard_delete_field-rules id = ground arith

  create_option-rules :
      (new_id field_id : ℕ) (input : OptionInput)
      → (create_option ctx new_id field_id input db).1.rules ≡ db.rules
  unfolding create_option load_field record_audit assert_valid_parent
  create_option-rules new_id field_id input = ground arith

  update_option-rules :
      (field_id id : ℕ) (input : OptionPatch)
      → (update_option ctx field_id id input db).1.rules ≡ db.rules
  unfolding update_option load_field record_audit write_option assert_valid_parent
  update_option-rules field_id id input = ground arith

  archive_option-rules : (field_id id : ℕ) → (archive_option ctx field_id id db).1.rules ≡ db.rules
  unfolding archive_option load_field record_audit write_option
  archive_option-rules field_id id = ground arith

run_call-IsAcyclic :
    (ctx : Ctx) (call : FieldsCall) (db : FieldsDb)
    → IsAcyclic (active_edges ctx.tenant_id db)
    → IsAcyclic (active_edges ctx.tenant_id (run_call ctx call db))
unfolding run_call
run_call-IsAcyclic ctx (creating_field new_id input) db acyclic =
    active_edges-rules ctx.tenant_id db _ (create_field-rules ctx db new_id input) acyclic
run_call-IsAcyclic ctx (updating_field id input) db acyclic =
    active_edges-rules ctx.tenant_id db _ (update_field-rules ctx db id input) acyclic
run_call-IsAcyclic ctx (activating_field id) db acyclic =
    active_edges-rules ctx.tenant_id db _ (activate_field-rules ctx db id) acyclic
run_call-IsAcyclic ctx (setting_field_read_only id) db acyclic =
    active_edges-rules ctx.tenant_id db _ (set_field_read_only-rules ctx db id) acyclic
run_call-IsAcyclic ctx (archiving_field id) db acyclic =
    active_edges-rules ctx.tenant_id db _ (archive_field-rules ctx db id) acyclic
run_call-IsAcyclic ctx (hard_deleting_field id) db acyclic =
    active_edges-rules ctx.tenant_id db _ (hard_delete_field-rules ctx db id) acyclic
run_call-IsAcyclic ctx (creating_option new_id field_id input) db acyclic =
    active_edges-rules ctx.tenant_id db _ (create_option-rules ctx db new_id field_id input) acyclic
run_call-IsAcyclic ctx (updating_option field_id id input) db acyclic =
    active_edges-rules ctx.tenant_id db _ (update_option-rules ctx db field_id id input) acyclic
run_call-IsAcyclic ctx (archiving_option field_id id) db acyclic =
    active_edges-rules ctx.tenant_id db _ (archive_option-rules ctx db field_id id) acyclic
run_call-IsAcyclic ctx (creating_rule new_id texts input) db acyclic =
    create_rule-IsAcyclic ctx db acyclic new_id texts input
run_call-IsAcyclic ctx (updating_rule id patch) db acyclic =
    update_rule-IsAcyclic ctx db acyclic id patch
run_call-IsAcyclic ctx (archiving_rule id) db acyclic = archive_rule-IsAcyclic ctx db acyclic id

-- If the active rules of a tenant are acyclic, they are so after any sequence of the tenant's calls
-- that create, edit, switch or archive fields, options and rules.
pub run_calls-IsAcyclic :
    (tenant : ℕ) (requests : List Request) (db : FieldsDb)
    → IsAcyclic (active_edges tenant db)
    → IsAcyclic (active_edges tenant (run_calls tenant requests db))
unfolding run_calls
run_calls-IsAcyclic tenant [] db acyclic = acyclic
run_calls-IsAcyclic tenant (r ∷ rs) db acyclic =
    run_calls-IsAcyclic tenant rs (run_call (ctx_of tenant r) r.call db)
      (run_call-IsAcyclic (ctx_of tenant r) r.call db acyclic)
