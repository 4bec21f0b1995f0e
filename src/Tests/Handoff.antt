-- ===== src/Tests/Handoff.antt =====
-- The handoff methods on concrete rows.
use hpx_eigen_s1_foundation.Common.{
  ◌≡◌, ◌≢◌, ◌≤◌, refl, codes, false, true, none, some, [], Text, find_first, trim, length,
  get_or_else,
}
use hpx_eigen_s1_foundation.Case.{
  DocCaseStatus, HandoffState, incoming, active, resent, incomplete_information,
}
use hpx_eigen_s1_foundation.Handoff.Outcomes.{
  accept_handoff-Commits, reject_handoff-Commits, return_after_acceptance-Commits,
  clear_manager_review-Commits, resend_handoff-Commits, sent_back, evidence,
}
use hpx_eigen_s1_foundation.Handoff.Rules.{can_transition, accept, reject, return_case, resend}
use hpx_eigen_s1_foundation.Handoff.Rules.Laws.{Legal, IsProven}
use hpx_eigen_s1_foundation.Handoff.Service.{
  accept_handoff, reject_handoff, return_after_acceptance, resend_handoff, clear_manager_review,
  find_lead, has_approved_override,
}
use hpx_eigen_s1_foundation.Store.{is_ok, find_case, is_live_case}
use hpx_eigen_s1_foundation.Store.Commits.{Commits}
use hpx_eigen_s1_foundation.Tests.Samples.{
  alice, incoming_case, active_case, returned_once, under_review, sample_lead, db_of,
}

abbrev remark : Text
remark = codes "the phone is wrong"

-- An incoming case is accepted, and an active one is not.
accepts_incoming : is_ok (accept_handoff alice 1 (db_of incoming_case)).0 ≡ true
unfolding accept_handoff find_case can_transition find_first is_live_case
accepts_incoming = refl

refuses_active : is_ok (accept_handoff alice 1 (db_of active_case)).0 ≡ false
unfolding accept_handoff find_case can_transition find_first is_live_case
refuses_active = refl

accept_handoff-Commits_example :
    Commits alice 1 "HANDOFF_ACCEPTED" "HANDOFF_ACCEPTED"
      (λ c. Legal accept c.status c.handoff_state c.manager_review_required)
      (λ c. record c {
        status = active;
        handoff_state = HandoffState.accepted;
        accepted_at = some alice.now;
        accepted_by = some alice.user_id;
        assigned_to = some (get_or_else c.assigned_to alice.user_id);
        auto_drop_at = none;
        last_internal_change_at = some alice.now;
      })
      (db_of incoming_case)
      (accept_handoff alice 1 (db_of incoming_case))
accept_handoff-Commits_example = accept_handoff-Commits alice 1 (db_of incoming_case)

reject_handoff-Commits_example :
    Commits alice 1 "HANDOFF_REJECTED" "HANDOFF_REJECTED"
      (λ c. (trim remark ≢ []) × Legal reject c.status c.handoff_state c.manager_review_required)
      (sent_back alice incoming incomplete_information remark)
      (db_of incoming_case)
      (reject_handoff alice 1 incomplete_information remark (db_of incoming_case))
reject_handoff-Commits_example =
    reject_handoff-Commits alice 1 (db_of incoming_case) incomplete_information remark

return_after_acceptance-Commits_example :
    Commits alice 1 "CASE_RETURNED" "CASE_RETURNED"
      (λ c.
        (trim remark ≢ []) × Legal return_case c.status c.handoff_state c.manager_review_required)
      (sent_back alice DocCaseStatus.returned incomplete_information remark)
      (db_of active_case)
      (return_after_acceptance alice 1 incomplete_information remark (db_of active_case))
return_after_acceptance-Commits_example =
    return_after_acceptance-Commits alice 1 (db_of active_case) incomplete_information remark

clear_manager_review-Commits_example :
    Commits alice 1 "MANAGER_REVIEW_COMPLETED" "MANAGER_REVIEW_COMPLETED"
      (λ c. (trim remark ≢ []) × (c.manager_review_required ≡ true))
      (λ c. record c {
        manager_review_required = false;
        handoff_state = HandoffState.returned;
        last_internal_change_at = some alice.now;
      })
      (db_of under_review)
      (clear_manager_review alice 1 remark (db_of under_review))
clear_manager_review-Commits_example =
    clear_manager_review-Commits alice 1 (db_of under_review) remark

resend_handoff-Commits_example :
    Commits alice 1 "HANDOFF_RESENT" "HANDOFF_RESENT"
      (λ d.
        Legal resend d.status d.handoff_state d.manager_review_required
        × ((10 ≤ length (trim remark))
            × IsProven d.return_reason_code
                (evidence d sample_lead remark (has_approved_override 1 (db_of returned_once)))))
      (λ d. record d {
        status = incoming;
        handoff_state = resent;
        handoff_at = some alice.now;
        handoff_by = some alice.user_id;
        handoff_phone_snapshot = sample_lead.phone;
        handoff_preset_snapshot = d.preset_id;
        return_reason_code = none;
        return_reason_note = none;
        auto_drop_at = none;
        last_internal_change_at = some alice.now;
      })
      (db_of returned_once)
      (resend_handoff alice 1 remark (db_of returned_once))
unfolding find_case find_lead find_first is_live_case
resend_handoff-Commits_example =
    resend_handoff-Commits alice 1 (db_of returned_once) remark returned_once sample_lead refl refl
