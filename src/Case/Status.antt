-- ===== src/Case/Status.antt =====
-- The enumerations of a case (prisma/schema.prisma): its status, the two handoff dimensions and the
-- reasons for a return. The tests of equality and membership are those of the source's `===` and
-- `includes`.
use mathlib.Core.Path.{◌≡◌}
use hpx_eigen_s1_foundation.Common.{Bool, ℕ, List, arith, ◌==◌, some_of, ◌↔◌, true}

pub data DocCaseStatus : Type 0 where
  incoming active returned documentation_ready pending_process_review : DocCaseStatus
  returned_to_documentation transferred_to_process closed cancelled closed_no_docs : DocCaseStatus

pub data HandoffState : Type 0 where
  none_yet handed_off accepted returned resent manager_review_required auto_dropped : HandoffState

pub data HandoffReturnReason : Type 0 where
  wrong_or_missing_contact wrong_preset incomplete_information : HandoffReturnReason
  duplicate_case compliance_issue other : HandoffReturnReason

pub data ProcessHandoffState : Type 0 where
  none_yet pending_review accepted returned : ProcessHandoffState

pub data ProcessReturnReason : Type 0 where
  missing_document incorrect_document data_mismatch : ProcessReturnReason
  needs_clarification compliance_issue other : ProcessReturnReason

pub data PortalPhoneSource : Type 0 where
  lead_snapshot nominated_override : PortalPhoneSource

abbrev status_index : DocCaseStatus → ℕ
status_index incoming = 0
status_index active = 1
status_index returned = 2
status_index documentation_ready = 3
status_index pending_process_review = 4
status_index returned_to_documentation = 5
status_index transferred_to_process = 6
status_index closed = 7
status_index cancelled = 8
status_index closed_no_docs = 9

abbrev state_index : HandoffState → ℕ
state_index none_yet = 0
state_index handed_off = 1
state_index accepted = 2
state_index returned = 3
state_index resent = 4
state_index manager_review_required = 5
state_index auto_dropped = 6

abbrev process_index : ProcessHandoffState → ℕ
process_index none_yet = 0
process_index pending_review = 1
process_index accepted = 2
process_index returned = 3

-- `a === b`
abbrev pub is_status : DocCaseStatus → DocCaseStatus → Bool
is_status a b = status_index a == status_index b

abbrev pub is_state : HandoffState → HandoffState → Bool
is_state a b = state_index a == state_index b

abbrev pub is_process_state : ProcessHandoffState → ProcessHandoffState → Bool
is_process_state a b = process_index a == process_index b

-- `list.includes(a)`
abbrev pub has_status : List DocCaseStatus → DocCaseStatus → Bool
has_status list a = some_of (is_status a) list

abbrev pub has_process_state : List ProcessHandoffState → ProcessHandoffState → Bool
has_process_state list a = some_of (is_process_state a) list

pub is_status_iff : (a b : DocCaseStatus) → (is_status a b ≡ true) ↔ (a ≡ b)
is_status_iff a b = ground arith
