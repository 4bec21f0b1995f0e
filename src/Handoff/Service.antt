-- ===== src/Handoff/Service.antt =====
-- The handoff service, method by method (src/services/handoff.service.ts). A method that returns the
-- updated row leaves it in the table, where `find_case` finds it. The columns that an `update`
-- writes stand in a function of their own.
use hpx_eigen_s1_foundation.Common.{
  ℕ, ◌+◌, Bool, true, false, not, ◌&&◌, Option, none, some, Text, ◌==◌, is_empty, is_some, trim,
  get_or_else, find_first, some_of,
}
use hpx_eigen_s1_foundation.Case.{
  DocCase, DocCaseStatus, HandoffState, HandoffReturnReason, incoming, active, resent,
  manager_review_required,
}
use hpx_eigen_s1_foundation.Handoff.Rules.{
  TransitionCheck, allow, deny, can_transition, accept, reject, return_case, resend,
  check_resend_allowed, ResendContext, compute_auto_drop_at, requires_manager_review_after_return,
}
use hpx_eigen_s1_foundation.Store.{
  Action, pure, raise, gets, or_raise, raise_if, transaction, ◌>>=◌, ◌>>◌, Db, Ctx, Lead,
  ContactChangeStatus, approved, load_case, update_case, add_event, append_audit, validation_error,
  business_rule_violation, resource_not_found,
}

-- `assertAllowed`
unfoldable pub assert_allowed : TransitionCheck → Action Db (Unit {0})
assert_allowed allow = pure tt
assert_allowed (deny reason) = raise (business_rule_violation reason)

-- `!note?.trim()`
abbrev pub is_blank : Text → Bool
is_blank s = is_empty (trim s)

abbrev pub after_return : Bool → HandoffState
after_return true = manager_review_required
after_return false = HandoffState.returned

unfoldable pub accepted_case : Ctx → DocCase → DocCase → DocCase
accepted_case ctx loaded row = record row {
  status = active;
  handoff_state = HandoffState.accepted;
  accepted_at = some ctx.now;
  accepted_by = some ctx.user_id;
  assigned_to = some (get_or_else loaded.assigned_to ctx.user_id);
  auto_drop_at = none;
  last_internal_change_at = some ctx.now;
}

unfoldable pub accept_handoff : Ctx → ℕ → Action Db (Unit {0})
unfolding assert_allowed accepted_case
accept_handoff ctx id = transaction do
  c ← load_case ctx id
  assert_allowed (can_transition accept c.status c.handoff_state c.manager_review_required)
  update_case id (accepted_case ctx c)
  add_event ctx id "HANDOFF_ACCEPTED"
  append_audit ctx "HANDOFF_ACCEPTED" "DocCase" id

-- The columns that a rejection and a return both write.
unfoldable pub sent_back_case :
    Ctx → DocCaseStatus → HandoffReturnReason → Text → DocCase → DocCase → DocCase
sent_back_case ctx status reason remark loaded row =
    let count = loaded.return_count + 1 in
    let review = requires_manager_review_after_return count (some reason) in
    record row {
      status = status;
      handoff_state = after_return review;
      return_count = count;
      return_reason_code = some reason;
      return_reason_note = some (trim remark);
      returned_at = some ctx.now;
      manager_review_required = review;
      auto_drop_at = some (compute_auto_drop_at ctx.now);
      last_internal_change_at = some ctx.now;
    }

-- The transaction of `reject`.
unfoldable pub write_rejection : Ctx → ℕ → HandoffReturnReason → Text → Action Db (Unit {0})
unfolding assert_allowed sent_back_case
write_rejection ctx id reason remark = transaction do
  c ← load_case ctx id
  assert_allowed (can_transition reject c.status c.handoff_state c.manager_review_required)
  update_case id (sent_back_case ctx incoming reason remark c)
  add_event ctx id "HANDOFF_REJECTED"
  append_audit ctx "HANDOFF_REJECTED" "DocCase" id

unfoldable pub reject_handoff : Ctx → ℕ → HandoffReturnReason → Text → Action Db (Unit {0})
unfolding write_rejection
reject_handoff ctx id reason remark =
    raise_if (is_blank remark) (validation_error "A rejection reason note is required.")
    >> write_rejection ctx id reason remark

-- The transaction of `returnAfterAcceptance`.
unfoldable pub write_return : Ctx → ℕ → HandoffReturnReason → Text → Action Db (Unit {0})
unfolding assert_allowed sent_back_case
write_return ctx id reason remark = transaction do
  c ← load_case ctx id
  assert_allowed (can_transition return_case c.status c.handoff_state c.manager_review_required)
  update_case id (sent_back_case ctx DocCaseStatus.returned reason remark c)
  add_event ctx id "CASE_RETURNED"
  append_audit ctx "CASE_RETURNED" "DocCase" id

unfoldable pub return_after_acceptance : Ctx → ℕ → HandoffReturnReason → Text → Action Db (Unit {0})
unfolding write_return
return_after_acceptance ctx id reason remark =
    raise_if (is_blank remark) (validation_error "A return reason note is required.")
    >> write_return ctx id reason remark

-- `lead.findFirst({ where: { id, tenantId, deletedAt: null } })`
unfoldable pub find_lead : ℕ → ℕ → Db → Option Lead
find_lead tenant id db =
    find_first (λ l. l.id == id && l.tenant_id == tenant && not (is_some l.deleted_at)) db.leads

abbrev pub is_approved : ContactChangeStatus → Bool
is_approved approved = true
is_approved _ = false

-- `!!approvedOverride`
unfoldable pub has_approved_override : ℕ → Db → Bool
has_approved_override id db =
    some_of (λ r. r.case_id == id && is_approved r.status) db.contact_requests

unfoldable pub resent_case : Ctx → Lead → DocCase → DocCase → DocCase
resent_case ctx lead loaded row = record row {
  status = incoming;
  handoff_state = resent;
  handoff_at = some ctx.now;
  handoff_by = some ctx.user_id;
  handoff_phone_snapshot = lead.phone;
  handoff_preset_snapshot = loaded.preset_id;
  return_reason_code = none;
  return_reason_note = none;
  auto_drop_at = none;
  last_internal_change_at = some ctx.now;
}

-- The context that `resend` builds for `checkResendAllowed`.
unfoldable pub resend_context : DocCase → Lead → Text → Bool → ResendContext
resend_context c lead resolution approved_override = record {
  return_reason_code = c.return_reason_code;
  resolution_note = resolution;
  phone_at_handoff = c.handoff_phone_snapshot;
  current_phone = lead.phone;
  has_approved_contact_override = approved_override;
  preset_at_handoff = c.handoff_preset_snapshot;
  current_preset = c.preset_id;
}

unfoldable pub resend_handoff : Ctx → ℕ → Text → Action Db (Unit {0})
unfolding assert_allowed
resend_handoff ctx id resolution = transaction do
  c ← load_case ctx id
  assert_allowed (can_transition resend c.status c.handoff_state c.manager_review_required)
  lead ← λ db. or_raise (find_lead ctx.tenant_id c.lead_id db) resource_not_found db
  approved_override ← gets (has_approved_override id)
  assert_allowed (check_resend_allowed (resend_context c lead resolution approved_override))
  update_case id (resent_case ctx lead c)
  add_event ctx id "HANDOFF_RESENT"
  append_audit ctx "HANDOFF_RESENT" "DocCase" id

unfoldable pub reviewed_case : Ctx → DocCase → DocCase
reviewed_case ctx row = record row {
  manager_review_required = false;
  handoff_state = HandoffState.returned;
  last_internal_change_at = some ctx.now;
}

-- The transaction of `clearManagerReview`.
unfoldable pub write_review : Ctx → ℕ → Action Db (Unit {0})
unfolding reviewed_case
write_review ctx id = transaction do
  c ← load_case ctx id
  raise_if (not c.manager_review_required)
      (business_rule_violation "This case is not awaiting manager review.")
  update_case id (reviewed_case ctx)
  add_event ctx id "MANAGER_REVIEW_COMPLETED"
  append_audit ctx "MANAGER_REVIEW_COMPLETED" "DocCase" id

unfoldable pub clear_manager_review : Ctx → ℕ → Text → Action Db (Unit {0})
unfolding write_review
clear_manager_review ctx id remark =
    raise_if (is_blank remark) (validation_error "A manager review note is required.")
    >> write_review ctx id
