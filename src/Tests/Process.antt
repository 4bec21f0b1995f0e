-- ===== src/Tests/Process.antt =====
-- The handover and the whole life of a case, on concrete rows.
use hpx_eigen_s1_foundation.Common.{
  ◌≡◌, ◌≢◌, ◌+◌, refl, ◌⊎◌, inr, false, [], trim, get_or_else, some, none, codes, true, Text,
  count_where, find_first,
}
use hpx_eigen_s1_foundation.Case.{
  needs_clarification, transferred_to_process, pending_process_review, pending_review,
  returned_to_documentation, ProcessHandoffState, ProcessReturnReason, closed_no_docs,
}
use hpx_eigen_s1_foundation.Flow.{stays, continues, accepts, transfers}
use hpx_eigen_s1_foundation.Flow.Coherence.{IsSound, is_coherent}
use hpx_eigen_s1_foundation.Flow.Preserved.{Reaches-IsSound}
use hpx_eigen_s1_foundation.Handoff.Service.{accept_handoff}
use hpx_eigen_s1_foundation.Lifecycle.{firm_decision, close_without_docs, is_open_request}
use hpx_eigen_s1_foundation.Lifecycle.Close.{close_without_docs-closes}
use hpx_eigen_s1_foundation.Process.Outcomes.{
  accept_for_process-Commits, transfer_to_process-Commits, return_to_documentation-Commits,
  IsPending, IsOwned, or_nothing,
}
use hpx_eigen_s1_foundation.Process.Races.{PendingWrite-conflict}
use hpx_eigen_s1_foundation.Process.Races
use hpx_eigen_s1_foundation.Process.Service.{
  transfer_to_process, accept_for_process, return_to_documentation, has_manager_override,
  write_accept, write_return,
}
use hpx_eigen_s1_foundation.Store.{is_ok, err, conflict, find_case, is_live_case}
use hpx_eigen_s1_foundation.Store.Commits.{Commits}
use hpx_eigen_s1_foundation.Tests.Samples.{
  alice, bob, incoming_case, active_case, pending_case, db_of,
}

abbrev remark : Text
remark = codes "page two is missing"

-- An incoming case is accepted, and then handed to Process by somebody else.
Reaches-IsSound_example :
    IsSound
      (transfer_to_process bob 1 none (accept_handoff alice 1 (db_of incoming_case)).1).1.cases
unfolding IsSound is_coherent
Reaches-IsSound_example =
    Reaches-IsSound (continues (continues stays (accepts alice 1)) (transfers bob 1 none))
      ((tt, tt), (refl, tt))

PendingWrite-conflict_example :
    (write_return bob 1 needs_clarification remark
      (write_accept alice 1 pending_case (db_of pending_case)).1).0
    ≡ err conflict
PendingWrite-conflict_example =
    PendingWrite-conflict (db_of pending_case) refl (Races.accepts pending_case)
      (Races.returns needs_clarification remark)

accept_for_process-Commits_example :
    Commits alice 1 "PROCESS_HANDOFF_ACCEPTED" "PROCESS_HANDOFF_ACCEPTED" IsPending
      (λ c. record c {
        status = transferred_to_process;
        process_handoff_state = ProcessHandoffState.accepted;
        process_accepted_at = some alice.now;
        process_accepted_by = some alice.user_id;
        process_assigned_to = some (get_or_else c.process_assigned_to alice.user_id);
      })
      (db_of pending_case)
      (accept_for_process alice 1 (db_of pending_case))
accept_for_process-Commits_example = accept_for_process-Commits alice 1 (db_of pending_case)

transfer_to_process-Commits_example :
    Commits alice 1 "PROCESS_REVIEW_REQUESTED" "DOC_CASE_PROCESS_REVIEW_REQUESTED"
      (λ c.
        IsOwned c
        × ((c.is_ready ≡ true) ⊎ (has_manager_override alice 1 (db_of active_case) ≡ true)))
      (λ c. record c {
        status = pending_process_review;
        process_handoff_state = pending_review;
        process_handoff_at = some alice.now;
        process_handoff_by = some alice.user_id;
        handover_remarks = or_nothing (trim (get_or_else none []));
        transferred_at = some alice.now;
        transferred_by = some alice.user_id;
      })
      (db_of active_case)
      (transfer_to_process alice 1 none (db_of active_case))
transfer_to_process-Commits_example = transfer_to_process-Commits alice 1 (db_of active_case) none

return_to_documentation-Commits_example :
    Commits alice 1 "PROCESS_HANDOFF_RETURNED" "PROCESS_HANDOFF_RETURNED"
      (λ c. ((needs_clarification ≢ ProcessReturnReason.other) ⊎ (trim remark ≢ [])) × IsPending c)
      (λ c. record c {
        status = returned_to_documentation;
        process_handoff_state = ProcessHandoffState.returned;
        process_returned_at = some alice.now;
        process_return_count = c.process_return_count + 1;
        process_return_reason_code = some needs_clarification;
        process_return_reason_note = or_nothing (trim remark);
      })
      (db_of pending_case)
      (return_to_documentation alice 1 needs_clarification remark (db_of pending_case))
return_to_documentation-Commits_example =
    return_to_documentation-Commits alice 1 (db_of pending_case) needs_clarification remark

close_without_docs-closes_example :
    (is_ok (close_without_docs alice 1 firm_decision (db_of active_case)).0 ≡ true)
    × (find_case 1 1 (close_without_docs alice 1 firm_decision (db_of active_case)).1
        ≡ some (record active_case {
          status = closed_no_docs;
          closed_at = some alice.now;
          closed_reason = some (codes "FIRM_DECISION");
          closed_by_user_id = some alice.user_id;
          manager_review_required = false;
          portal_enabled_at = none;
        }))
    × (count_where
          (is_open_request alice 1)
          (close_without_docs alice 1 firm_decision (db_of active_case)).1.mandate_requests
        ≡ 0)
unfolding find_case find_first is_live_case
close_without_docs-closes_example =
    close_without_docs-closes alice 1 firm_decision (db_of active_case) active_case refl (inr refl)
      refl
