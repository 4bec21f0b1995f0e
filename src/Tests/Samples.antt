-- ===== src/Tests/Samples.antt =====
-- Concrete rows for the tests.
use hpx_eigen_s1_foundation.Common.{true, false, none, some, [], ◌∷◌, codes}
use hpx_eigen_s1_foundation.Case.{
  DocCase, HandoffState, ProcessHandoffState, incoming, active, pending_process_review, handed_off,
  pending_review, lead_snapshot, incomplete_information, DocCaseStatus,
}
use hpx_eigen_s1_foundation.Portal.Access.{VerifyInput}
use hpx_eigen_s1_foundation.Store.{
  Db, Ctx, Lead, qualified, ContactChangeRequest, ContactChangeStatus, PortalSession,
  MandateRequest, pending_upload,
}

-- The first user, and another of the same tenant.
abbrev pub alice : Ctx
alice = record { tenant_id = 1; user_id = 5; now = 1000 }

abbrev pub bob : Ctx
bob = record { tenant_id = 1; user_id = 6; now = 1200 }

abbrev pub incoming_case : DocCase
incoming_case = record {
  id = 1;
  tenant_id = 1;
  lead_id = 7;
  case_number = some (codes "HPX-ABCD-EFGH");
  preset_id = some 3;
  assigned_to = none;
  status = incoming;
  is_ready = false;
  transferred_at = none;
  transferred_by = none;
  closed_at = none;
  closed_reason = none;
  closed_by_user_id = none;
  reopened_at = none;
  reopened_by_user_id = none;
  created_by = 5;
  deleted_at = none;
  handoff_state = handed_off;
  handoff_at = none;
  handoff_by = none;
  accepted_at = none;
  accepted_by = none;
  returned_at = none;
  return_count = 0;
  return_reason_code = none;
  return_reason_note = none;
  manager_review_required = false;
  auto_drop_at = none;
  handoff_phone_snapshot = some (codes "9876500000");
  handoff_preset_snapshot = none;
  process_handoff_state = ProcessHandoffState.none_yet;
  process_handoff_at = none;
  process_handoff_by = none;
  process_assigned_to = none;
  process_accepted_at = none;
  process_accepted_by = none;
  process_returned_at = none;
  process_return_count = 0;
  process_return_reason_code = none;
  process_return_reason_note = none;
  handover_remarks = none;
  portal_enabled_at = none;
  portal_phone_source = lead_snapshot;
  portal_phone_snapshot = none;
  portal_phone_last4 = some (codes "1234");
  last_client_visible_publish_at = none;
  last_internal_change_at = none;
}

abbrev pub active_case : DocCase
active_case = record incoming_case {
  status = active;
  handoff_state = HandoffState.accepted;
  is_ready = true;
  portal_enabled_at = some 900;
}

abbrev pub pending_case : DocCase
pending_case = record active_case {
  status = pending_process_review;
  process_handoff_state = pending_review;
}

abbrev pub returned_once : DocCase
returned_once = record incoming_case {
  status = DocCaseStatus.returned;
  handoff_state = HandoffState.returned;
  return_reason_code = some incomplete_information;
}

abbrev pub under_review : DocCase
under_review = record returned_once { manager_review_required = true }

abbrev pub sample_lead : Lead
sample_lead = record {
  id = 7;
  tenant_id = 1;
  stage = qualified;
  phone = some (codes "9876511111");
  deleted_at = none;
}

abbrev pub sample_request : ContactChangeRequest
sample_request = record {
  id = 4;
  tenant_id = 1;
  case_id = 1;
  new_phone = codes "9876522222";
  reason = codes "lost";
  status = ContactChangeStatus.pending;
  requested_by = 6;
  approved_by = none;
  resolved_at = none;
}

abbrev pub sample_session : PortalSession
sample_session = record {
  id = 2;
  tenant_id = 1;
  case_id = 1;
  token_hash = codes "tok";
  expires_at = 900000;
  last_seen_at = none;
  revoked_at = none;
}

abbrev pub sample_mandate : MandateRequest
sample_mandate = record {
  id = 8;
  tenant_id = 1;
  case_id = 1;
  status = pending_upload;
  token_expires_at = 5000;
}

-- What the client of the case types.
abbrev pub sample_input : VerifyInput
sample_input = record {
  case_number_raw = codes " hpx-abcd-efgh";
  phone_digits = codes "12 34";
  ip = codes "10.0.0.1";
  now = 2000;
}

abbrev pub wrong_input : VerifyInput
wrong_input = record sample_input { phone_digits = codes "0000" }

abbrev pub db_of : DocCase → Db
db_of c = record {
  leads = sample_lead ∷ [];
  cases = c ∷ [];
  events = [];
  journal = [];
  overrides = [];
  contact_requests = sample_request ∷ [];
  sessions = sample_session ∷ [];
  attempts = [];
  notes = [];
  documents = [];
  mandate_requests = sample_mandate ∷ [];
}
