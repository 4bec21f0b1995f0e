-- ===== src/Process/Rules.antt =====
-- The pure rules of the handover to Process: the guard, the precondition of the conditional update,
-- and the reason of a return (src/domain/process-handoff.ts).
pub mod Laws
use hpx_eigen_s1_foundation.Common.{
  Bool, true, false, not, ◌&&◌, ◌||◌, Option, none, some, List, [], ◌∷◌, Text, trim, is_empty,
  if◌then◌else◌, get_or_else,
}
use hpx_eigen_s1_foundation.Case.{
  DocCaseStatus, ProcessHandoffState, ProcessReturnReason, is_status, has_status, has_process_state,
  active, documentation_ready, pending_process_review, returned_to_documentation,
  transferred_to_process, closed, cancelled, closed_no_docs, pending_review,
}
use hpx_eigen_s1_foundation.Handoff.Rules.{TransitionCheck, allow, deny}

pub data ProcessHandoffAction : Type 0 where
  transfer accept return_case : ProcessHandoffAction

abbrev pub transfer_from_status : List DocCaseStatus
transfer_from_status = active ∷ documentation_ready ∷ returned_to_documentation ∷ []

abbrev pub transfer_from_phstate : List ProcessHandoffState
transfer_from_phstate = ProcessHandoffState.none_yet ∷ ProcessHandoffState.returned ∷ []

abbrev pub pending_status : List DocCaseStatus
pending_status = pending_process_review ∷ []

abbrev pub pending_phstate : List ProcessHandoffState
pending_phstate = pending_review ∷ []

pub record StatusPrecondition : Type 0 where
  pub status : List DocCaseStatus
  pub process_handoff_state : List ProcessHandoffState

unfoldable pub precondition : ProcessHandoffAction → StatusPrecondition
precondition transfer = record {
  status = transfer_from_status;
  process_handoff_state = transfer_from_phstate;
}
precondition accept = record { status = pending_status; process_handoff_state = pending_phstate }
precondition return_case = record {
  status = pending_status;
  process_handoff_state = pending_phstate;
}

-- `{ status: { in: pre.status }, processHandoffState: { in: pre.processHandoffState } }`
unfoldable pub satisfies : StatusPrecondition → DocCaseStatus → ProcessHandoffState → Bool
satisfies pre status state =
    has_status pre.status status && has_process_state pre.process_handoff_state state

unfoldable pub can_transition :
    ProcessHandoffAction → DocCaseStatus → ProcessHandoffState → TransitionCheck
can_transition transfer status state =
    if is_status status pending_process_review || is_status status transferred_to_process
    then deny "This case is already with Process."
    else if is_status status closed || is_status status cancelled || is_status status closed_no_docs
    then deny "This case is closed."
    else if not (has_status transfer_from_status status)
        || not (has_process_state transfer_from_phstate state)
    then deny "Only a Documentation-owned case can be transferred to Process."
    else allow
can_transition accept status state =
    if not (has_status pending_status status) || not (has_process_state pending_phstate state)
    then deny "Only a case pending Process review can be accepted."
    else allow
can_transition return_case status state =
    if not (has_status pending_status status) || not (has_process_state pending_phstate state)
    then deny "Only a case pending Process review can be returned to Documentation."
    else allow

-- The type of the reason leaves no value outside ProcessReturnReason.
unfoldable pub check_return_reason : Option ProcessReturnReason → Option Text → TransitionCheck
check_return_reason none remark = deny "A return reason is required."
check_return_reason (some ProcessReturnReason.other) remark =
    if is_empty (trim (get_or_else remark []))
    then deny "A note is required when the return reason is OTHER."
    else allow
check_return_reason (some reason) remark = allow
