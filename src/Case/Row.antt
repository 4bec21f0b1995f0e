-- ===== src/Case/Row.antt =====
-- The columns of DocCase that the modelled services read or write. Identifiers are numbers, since
-- uuids are only compared; instants are milliseconds since the epoch; texts are code units.
use hpx_eigen_s1_foundation.Common.{ℕ, Bool, Option, Text}
use hpx_eigen_s1_foundation.Case.Status.{
  DocCaseStatus, HandoffState, HandoffReturnReason, ProcessHandoffState, ProcessReturnReason,
  PortalPhoneSource,
}

pub record DocCase : Type 0 where
  pub id : ℕ
  pub tenant_id : ℕ
  pub lead_id : ℕ
  pub case_number : Option Text
  pub preset_id : Option ℕ
  pub assigned_to : Option ℕ
  pub status : DocCaseStatus
  pub is_ready : Bool
  pub transferred_at : Option ℕ
  pub transferred_by : Option ℕ
  pub closed_at : Option ℕ
  pub closed_reason : Option Text
  pub closed_by_user_id : Option ℕ
  pub reopened_at : Option ℕ
  pub reopened_by_user_id : Option ℕ
  pub created_by : ℕ
  pub deleted_at : Option ℕ
  pub handoff_state : HandoffState
  pub handoff_at : Option ℕ
  pub handoff_by : Option ℕ
  pub accepted_at : Option ℕ
  pub accepted_by : Option ℕ
  pub returned_at : Option ℕ
  pub return_count : ℕ
  pub return_reason_code : Option HandoffReturnReason
  pub return_reason_note : Option Text
  pub manager_review_required : Bool
  pub auto_drop_at : Option ℕ
  pub handoff_phone_snapshot : Option Text
  pub handoff_preset_snapshot : Option ℕ
  pub process_handoff_state : ProcessHandoffState
  pub process_handoff_at : Option ℕ
  pub process_handoff_by : Option ℕ
  pub process_assigned_to : Option ℕ
  pub process_accepted_at : Option ℕ
  pub process_accepted_by : Option ℕ
  pub process_returned_at : Option ℕ
  pub process_return_count : ℕ
  pub process_return_reason_code : Option ProcessReturnReason
  pub process_return_reason_note : Option Text
  pub handover_remarks : Option Text
  pub portal_enabled_at : Option ℕ
  pub portal_phone_source : PortalPhoneSource
  pub portal_phone_snapshot : Option Text
  pub portal_phone_last4 : Option Text
  pub last_client_visible_publish_at : Option ℕ
  pub last_internal_change_at : Option ℕ
