-- ===== src/Process/Rules/Laws.antt =====
-- The guard of the handover against its precondition, and the reasons of a return.
use hpx_eigen_s1_foundation.Common.{
  ◌≡◌, ◌≢◌, ◌↔◌, ◌⊎◌, true, Option, none, some, Text, trim, arith, get_or_else, [],
}
use hpx_eigen_s1_foundation.Case.{DocCaseStatus, ProcessHandoffState, ProcessReturnReason}
use hpx_eigen_s1_foundation.Handoff.Rules.{allow}
use hpx_eigen_s1_foundation.Process.Rules.{
  ProcessHandoffAction, transfer, accept, return_case, precondition, satisfies, can_transition,
  check_return_reason,
}

-- The guard allows an action exactly when the case satisfies the precondition of the conditional
-- update, so the check in memory and the WHERE clause never disagree.
pub can_transition-satisfies :
    (a : ProcessHandoffAction) (s : DocCaseStatus) (p : ProcessHandoffState)
    → (can_transition a s p ≡ allow) ↔ (satisfies (precondition a) s p ≡ true)
unfolding can_transition satisfies precondition
can_transition-satisfies transfer s p = ground arith
can_transition-satisfies accept s p = ground arith
can_transition-satisfies return_case s p = ground arith

-- A return is accepted exactly when it has a reason, with a note that is not blank for OTHER.
pub check_return_reason_iff :
    (reason : Option ProcessReturnReason) (remark : Option Text)
    → (check_return_reason reason remark ≡ allow) ↔ (
        (reason ≢ none)
        × ((reason ≢ some ProcessReturnReason.other) ⊎ (trim (get_or_else remark []) ≢ [])))
unfolding check_return_reason
check_return_reason_iff none remark = ground arith
check_return_reason_iff (some ProcessReturnReason.other) remark = ground arith
check_return_reason_iff (some reason) remark = ground arith
