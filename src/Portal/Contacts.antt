-- ===== src/Portal/Contacts.antt =====
-- The change of the portal's phone, which a manager approves: `requestContactChange`,
-- `approveContactChange`, `rejectContactChange` and `revokeSessions` of
-- src/services/portal.service.ts.
pub mod Revocation
use hpx_eigen_s1_foundation.Common.{
  ℕ, Bool, true, false, not, ◌&&◌, Option, none, some, List, [], ◌∷◌, Text, ◌==◌, ltb, is_empty,
  is_some, trim, length, find_first, some_of, update_many,
}
use hpx_eigen_s1_foundation.Case.{DocCase, nominated_override}
use hpx_eigen_s1_foundation.CaseNumber.{normalise_phone, phone_last4}
use hpx_eigen_s1_foundation.Portal.Activation.{revoke_case_sessions}
use hpx_eigen_s1_foundation.Store.{
  Action, Result, ok, err, pure, raise, gets, or_raise, raise_if, modify, transaction, ◌>>=◌, ◌>>◌,
  Db, Ctx, ContactChangeRequest, ContactChangeStatus, load_case, update_case, add_event,
  append_audit, resource_not_found, business_rule_violation, validation_error,
}

abbrev pub is_pending : ContactChangeStatus → Bool
is_pending ContactChangeStatus.pending = true
is_pending _ = false

unfoldable pub new_request : Ctx → ℕ → ℕ → Text → Text → ContactChangeRequest
new_request ctx new_id case_id phone reason = record {
  id = new_id;
  tenant_id = ctx.tenant_id;
  case_id = case_id;
  new_phone = trim phone;
  reason = trim reason;
  status = ContactChangeStatus.pending;
  requested_by = ctx.user_id;
  approved_by = none;
  resolved_at = none;
}

unfoldable pub request_contact_change : Ctx → ℕ → ℕ → Text → Text → Action Db ContactChangeRequest
unfolding new_request
request_contact_change ctx new_id case_id phone reason = do
  raise_if (ltb (length (normalise_phone phone)) 10)
      (validation_error "A valid phone number is required.")
  raise_if (is_empty (trim reason)) (validation_error "A reason is required.")
  load_case ctx case_id
  waiting ←
      gets λ db. some_of (λ r. r.case_id == case_id && is_pending r.status) db.contact_requests
  raise_if waiting
      (business_rule_violation "A contact change request is already pending for this case.")
  modify λ db. record db {
    contact_requests = new_request ctx new_id case_id phone reason ∷ db.contact_requests;
  }
  append_audit ctx "PORTAL_CONTACT_CHANGE_REQUESTED" "PortalContactChangeRequest" new_id
  pure (new_request ctx new_id case_id phone reason)

unfoldable pub find_request : Ctx → ℕ → Db → Option ContactChangeRequest
find_request ctx id db =
    find_first (λ r. r.id == id && r.tenant_id == ctx.tenant_id) db.contact_requests

unfoldable pub resolved_request :
    Ctx → ContactChangeStatus → ContactChangeRequest → ContactChangeRequest
resolved_request ctx status r = record r {
  status = status;
  approved_by = some ctx.user_id;
  resolved_at = some ctx.now;
}

unfoldable pub resolve_request : Ctx → ℕ → ContactChangeStatus → Action Db (Unit {0})
unfolding resolved_request
resolve_request ctx id status = modify λ db. record db {
  contact_requests =
      update_many (λ r. r.id == id) (resolved_request ctx status) db.contact_requests;
}

unfoldable pub contact_case : Ctx → Text → DocCase → DocCase
contact_case ctx phone row = record row {
  portal_phone_snapshot = some phone;
  portal_phone_last4 = some (phone_last4 phone);
  portal_phone_source = nominated_override;
  last_internal_change_at = some ctx.now;
}

unfoldable pub approve_contact_change : Ctx → ℕ → Action Db ℕ
unfolding resolve_request contact_case revoke_case_sessions
approve_contact_change ctx id = transaction do
  r ← λ db. or_raise (find_request ctx id db) resource_not_found db
  raise_if (not (is_pending r.status))
      (business_rule_violation "This request has already been resolved.")
  raise_if (r.requested_by == ctx.user_id)
      (business_rule_violation "A contact change cannot be approved by its requester.")
  resolve_request ctx id ContactChangeStatus.approved
  update_case r.case_id (contact_case ctx r.new_phone)
  revoked ← revoke_case_sessions ctx r.case_id
  add_event ctx r.case_id "PORTAL_CONTACT_CHANGE_APPROVED"
  append_audit ctx "PORTAL_CONTACT_CHANGE_APPROVED" "PortalContactChangeRequest" id
  pure revoked

unfoldable pub reject_contact_change : Ctx → ℕ → Action Db (Unit {0})
unfolding resolve_request
reject_contact_change ctx id = do
  r ← λ db. or_raise (find_request ctx id db) resource_not_found db
  raise_if (not (is_pending r.status))
      (business_rule_violation "This request has already been resolved.")
  resolve_request ctx id ContactChangeStatus.rejected

unfoldable pub revoke_sessions : Ctx → ℕ → Action Db ℕ
unfolding revoke_case_sessions
revoke_sessions ctx id = do
  load_case ctx id
  revoked ← revoke_case_sessions ctx id
  append_audit ctx "PORTAL_SESSION_REVOKED" "DocCase" id
  pure revoked
