-- ===== src/Handoff/Confirm.antt =====
-- The mint of a case number and the hand-off of a lead: `confirmHandoff`
-- (src/services/handoff.service.ts).
pub mod Laws
use hpx_eigen_s1_foundation.Common.{
  ℕ, Bool, true, false, not, ◌&&◌, Option, none, some, [], ◌∷◌, ◌++◌, Text, ◌==◌, is_empty, is_some,
  text_eq, if◌then◌else◌, find_first, some_of,
}
use hpx_eigen_s1_foundation.Case.{
  DocCase, DocCaseStatus, HandoffState, ProcessHandoffState, incoming, active, handed_off,
  lead_snapshot,
}
use hpx_eigen_s1_foundation.CaseNumber.{phone_last4}
use hpx_eigen_s1_foundation.CaseNumber.Mint.{mint_case_number}
use hpx_eigen_s1_foundation.Handoff.Rules.{can_transition, confirm}
use hpx_eigen_s1_foundation.Store.{
  Action, pure, gets, or_raise, raise_if, modify, transaction, ◌>>=◌, ◌>>◌, Db, Ctx, LeadStage,
  qualified, update_case, add_event, append_audit, business_rule_violation, resource_not_found,
}
use hpx_eigen_s1_foundation.Handoff.Service.{find_lead, assert_allowed}

-- `docCase.findUnique({ where: { caseNumber } })`, over every tenant
unfoldable pub is_case_number_taken : Db → Text → Bool
is_case_number_taken db n =
    some_of (λ c. elim c.case_number [ none ↦ false | some m ↦ text_eq m n ]) db.cases

-- `docCase.findFirst({ where: { tenantId, leadId, deletedAt: null } })`
unfoldable pub find_case_of_lead : ℕ → ℕ → Db → Option DocCase
find_case_of_lead tenant lead_id db =
    find_first (λ c. c.tenant_id == tenant && c.lead_id == lead_id && not (is_some c.deleted_at))
      db.cases

abbrev pub is_qualified : LeadStage → Bool
is_qualified qualified = true
is_qualified _ = false

-- `phone ? phoneLast4(phone) : null`
unfoldable pub last4_of : Option Text → Option Text
last4_of none = none
last4_of (some phone) = if is_empty phone then none else some (phone_last4 phone)

-- The columns `data` of `confirmHandoff`, written over a row.
unfoldable pub handed_off_case : Ctx → Option Text → Option ℕ → Text → DocCase → DocCase
unfolding last4_of
handed_off_case ctx phone preset_id number row = record row {
  case_number = some number;
  status = incoming;
  handoff_state = handed_off;
  handoff_at = some ctx.now;
  handoff_by = some ctx.user_id;
  handoff_phone_snapshot = phone;
  handoff_preset_snapshot = preset_id;
  portal_phone_snapshot = phone;
  portal_phone_last4 = last4_of phone;
  last_internal_change_at = some ctx.now;
}

-- A new row with the defaults of the schema, before `data` is written over it.
unfoldable pub blank_case : Ctx → ℕ → ℕ → Option ℕ → DocCase
blank_case ctx new_id lead_id preset_id = record {
  id = new_id;
  tenant_id = ctx.tenant_id;
  lead_id = lead_id;
  case_number = none;
  preset_id = preset_id;
  assigned_to = none;
  status = active;
  is_ready = false;
  transferred_at = none;
  transferred_by = none;
  closed_at = none;
  closed_reason = none;
  closed_by_user_id = none;
  reopened_at = none;
  reopened_by_user_id = none;
  created_by = ctx.user_id;
  deleted_at = none;
  handoff_state = HandoffState.none_yet;
  handoff_at = none;
  handoff_by = none;
  accepted_at = none;
  accepted_by = none;
  returned_at = none;
  return_count = 0;
  return_reason_code = none;
  return_reason_note = none;
  manager_review_required = false;
  auto_drop_at = none;
  handoff_phone_snapshot = none;
  handoff_preset_snapshot = none;
  process_handoff_state = ProcessHandoffState.none_yet;
  process_handoff_at = none;
  process_handoff_by = none;
  process_assigned_to = none;
  process_accepted_at = none;
  process_accepted_by = none;
  process_returned_at = none;
  process_return_count = 0;
  process_return_reason_code = none;
  process_return_reason_note = none;
  handover_remarks = none;
  portal_enabled_at = none;
  portal_phone_source = lead_snapshot;
  portal_phone_snapshot = none;
  portal_phone_last4 = none;
  last_client_visible_publish_at = none;
  last_internal_change_at = none;
}

abbrev status_of : Option DocCase → DocCaseStatus
status_of none = incoming
status_of (some c) = c.status

abbrev state_of : Option DocCase → HandoffState
state_of none = HandoffState.none_yet
state_of (some c) = c.handoff_state

-- `existing?.caseNumber`
abbrev has_case_number : Option DocCase → Bool
has_case_number none = false
has_case_number (some c) = elim c.case_number [ none ↦ false | some n ↦ not (is_empty n) ]

abbrev case_id_of : Option DocCase → ℕ → ℕ
case_id_of none new_id = new_id
case_id_of (some c) new_id = c.id

-- `existing ? update : create`
unfoldable pub write_handoff :
    Ctx → Option DocCase → ℕ → ℕ → Option ℕ → Option Text → Text → Action Db (Unit {0})
unfolding handed_off_case blank_case
write_handoff ctx (some c) new_id lead_id preset_id phone number =
    update_case c.id (handed_off_case ctx phone preset_id number)
write_handoff ctx none new_id lead_id preset_id phone number = modify λ db. record db {
  cases =
      db.cases
      ++ handed_off_case ctx phone preset_id number (blank_case ctx new_id lead_id preset_id) ∷ [];
}

-- `draw` gives the random numbers of the candidates, `new_id` the uuid of a created row.
unfoldable pub confirm_handoff : Ctx → (ℕ → ℕ) → ℕ → ℕ → Option ℕ → Action Db (Unit {0})
unfolding assert_allowed write_handoff
confirm_handoff ctx draw new_id lead_id preset_id = transaction do
  lead ← λ db. or_raise (find_lead ctx.tenant_id lead_id db) resource_not_found db
  raise_if (not (is_qualified lead.stage))
      (business_rule_violation "Only a qualified lead can be handed off.")
  existing ← gets (find_case_of_lead ctx.tenant_id lead_id)
  if has_case_number existing then pure tt else do
    assert_allowed (can_transition confirm (status_of existing) (state_of existing) false)
    number ← λ db.
        or_raise (mint_case_number (is_case_number_taken db) draw)
          (business_rule_violation "Could not allocate a case number. Please retry.") db
    write_handoff ctx existing new_id lead_id preset_id lead.phone number
    add_event ctx (case_id_of existing new_id) "HANDOFF_CREATED"
    append_audit ctx "HANDOFF_CREATED" "DocCase" (case_id_of existing new_id)
