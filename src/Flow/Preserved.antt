-- ===== src/Flow/Preserved.antt =====
-- The coherence of the cases along a run of calls.
use hpx_eigen_s1_foundation.Common.{ℕ, refl, Option, inl, inr, update_many, arith, Text}
use hpx_eigen_s1_foundation.Case.{DocCaseStatus, HandoffReturnReason, ProcessReturnReason, incoming}
use hpx_eigen_s1_foundation.Flow.{
  Step, accepts, rejects, returns, resends, clears_review, transfers, process_accepts,
  process_returns, closes, reopens, Reaches, stays, continues,
}
use hpx_eigen_s1_foundation.Flow.Coherence.{
  is_coherent, IsSound, Moves-IsSound, Moves-IsSound_if, update_many-IsSound, by_id-IsSound,
}
use hpx_eigen_s1_foundation.Handoff.Effects.{
  accept_handoff-Moves, reject_handoff-Moves, return_after_acceptance-Moves,
  clear_manager_review-Moves, resend_handoff-cases,
}
use hpx_eigen_s1_foundation.Handoff.Rules.{can_transition}
use hpx_eigen_s1_foundation.Handoff.Service.{
  accept_handoff, reject_handoff, return_after_acceptance, clear_manager_review, resend_handoff,
  accepted_case, sent_back_case, resent_case, reviewed_case,
}
use hpx_eigen_s1_foundation.Lifecycle.{
  close_without_docs, reopen_case, CaseClosedReason, can_close, closed_case, can_reopen,
  reopened_case,
}
use hpx_eigen_s1_foundation.Lifecycle.Close.{close_without_docs-cases, reopen_case-cases}
use hpx_eigen_s1_foundation.Portal.Activation.{can_disable, disabled_case}
use hpx_eigen_s1_foundation.Process.Effects.{
  accept_for_process-Moves, transfer_to_process-Moves, return_to_documentation-Moves,
}
use hpx_eigen_s1_foundation.Process.Service.{
  transferred_case, process_accepted_case, returned_case, transfer_to_process, accept_for_process,
  return_to_documentation,
}
use hpx_eigen_s1_foundation.Store.{Db, Ctx, find_case}

module _ (ctx : Ctx) (id : ℕ) (db : Db) (sound : IsSound db.cases) where
  accept_handoff-IsSound : IsSound (accept_handoff ctx id db).1.cases
  unfolding is_coherent accepted_case can_transition
  accept_handoff-IsSound =
      Moves-IsSound ctx id _ _ _ (accepted_case ctx) db (accept_handoff ctx id db) (λ c x. refl)
        (accept_handoff-Moves ctx id db) sound (λ c legal h. ground arith)

  reject_handoff-IsSound :
      (reason : HandoffReturnReason) (remark : Text)
      → IsSound (reject_handoff ctx id reason remark db).1.cases
  unfolding is_coherent sent_back_case can_transition
  reject_handoff-IsSound reason remark =
      Moves-IsSound ctx id _ _ _ (sent_back_case ctx incoming reason remark) db
        (reject_handoff ctx id reason remark db) (λ c x. refl)
        (reject_handoff-Moves ctx id db reason remark) sound (λ c legal h. ground arith)

  return_after_acceptance-IsSound :
      (reason : HandoffReturnReason) (remark : Text)
      → IsSound (return_after_acceptance ctx id reason remark db).1.cases
  unfolding is_coherent sent_back_case can_transition
  return_after_acceptance-IsSound reason remark =
      Moves-IsSound ctx id _ _ _ (sent_back_case ctx DocCaseStatus.returned reason remark) db
        (return_after_acceptance ctx id reason remark db) (λ c x. refl)
        (return_after_acceptance-Moves ctx id db reason remark) sound (λ c legal h. ground arith)

  clear_manager_review-IsSound :
      (remark : Text) → IsSound (clear_manager_review ctx id remark db).1.cases
  unfolding is_coherent reviewed_case
  clear_manager_review-IsSound remark =
      Moves-IsSound ctx id _ _ _ (λ _. reviewed_case ctx) db (clear_manager_review ctx id remark db)
        (λ c x. refl) (clear_manager_review-Moves ctx id db remark) sound (λ c legal h. h)

  resend_handoff-IsSound :
      (resolution : Text) → IsSound (resend_handoff ctx id resolution db).1.cases
  unfolding is_coherent resent_case can_transition find_case
  resend_handoff-IsSound resolution = elim (resend_handoff-cases ctx id resolution db) [
    | inl same ↦ rw same sound
    | inr (c, lead, found, legal, w) ↦ rw w (
        by_id-IsSound ctx.tenant_id id (resent_case ctx lead c) db.cases (λ x. refl) found
          (λ h. ground arith) sound)
  ]

  transfer_to_process-IsSound :
      (remarks : Option Text) → IsSound (transfer_to_process ctx id remarks db).1.cases
  unfolding is_coherent transferred_case
  transfer_to_process-IsSound remarks =
      Moves-IsSound_if ctx id _ _ _ _ (λ _. transferred_case ctx remarks) db
        (transfer_to_process ctx id remarks db) (λ c x. refl)
        (transfer_to_process-Moves ctx id db remarks) sound (λ c x ready h. refl)

  accept_for_process-IsSound : IsSound (accept_for_process ctx id db).1.cases
  unfolding is_coherent process_accepted_case
  accept_for_process-IsSound =
      Moves-IsSound_if ctx id _ _ _ _ (process_accepted_case ctx) db (accept_for_process ctx id db)
        (λ c x. refl) (accept_for_process-Moves ctx id db) sound (λ c x ready h. refl)

  return_to_documentation-IsSound :
      (reason : ProcessReturnReason) (remark : Text)
      → IsSound (return_to_documentation ctx id reason remark db).1.cases
  unfolding is_coherent returned_case
  return_to_documentation-IsSound reason remark =
      Moves-IsSound_if ctx id _ _ _ _ (λ _. returned_case ctx reason remark) db
        (return_to_documentation ctx id reason remark db) (λ c x. refl)
        (return_to_documentation-Moves ctx id db reason remark) sound (λ c x ready h. refl)

  can_close-IsSound :
      (reason : CaseClosedReason)
      → IsSound (update_many (can_close ctx id) (closed_case ctx reason) db.cases)
  unfolding is_coherent closed_case can_close
  can_close-IsSound reason =
      update_many-IsSound (can_close ctx id) (closed_case ctx reason) db.cases (λ x. refl)
        (λ x closable h. ground arith) sound

  close_without_docs-IsSound :
      (reason : CaseClosedReason) → IsSound (close_without_docs ctx id reason db).1.cases
  unfolding is_coherent disabled_case
  close_without_docs-IsSound reason = elim (close_without_docs-cases ctx id reason db) [
    | inl same ↦ rw same sound
    | inr (inl closed) ↦ rw closed (can_close-IsSound reason)
    | inr (inr disabled) ↦ rw disabled (
        update_many-IsSound (can_disable ctx id) disabled_case
          (update_many (can_close ctx id) (closed_case ctx reason) db.cases) (λ x. refl)
          (λ x enabled h. h) (can_close-IsSound reason))
  ]

  reopen_case-IsSound : IsSound (reopen_case ctx id db).1.cases
  unfolding is_coherent reopened_case can_reopen
  reopen_case-IsSound = elim (reopen_case-cases ctx id db) [
    | inl same ↦ rw same sound
    | inr reopened ↦ rw reopened (
        update_many-IsSound (can_reopen ctx id) (reopened_case ctx) db.cases (λ x. refl)
          (λ x closed h. ground arith) sound)
  ]

Step-IsSound : {ctx : Ctx} {db next : Db} → Step ctx db next → IsSound db.cases → IsSound next.cases
Step-IsSound (accepts ctx id {db}) sound = accept_handoff-IsSound ctx id db sound
Step-IsSound (rejects ctx id reason remark {db}) sound =
    reject_handoff-IsSound ctx id db sound reason remark
Step-IsSound (returns ctx id reason remark {db}) sound =
    return_after_acceptance-IsSound ctx id db sound reason remark
Step-IsSound (resends ctx id resolution {db}) sound =
    resend_handoff-IsSound ctx id db sound resolution
Step-IsSound (clears_review ctx id remark {db}) sound =
    clear_manager_review-IsSound ctx id db sound remark
Step-IsSound (transfers ctx id remarks {db}) sound =
    transfer_to_process-IsSound ctx id db sound remarks
Step-IsSound (process_accepts ctx id {db}) sound = accept_for_process-IsSound ctx id db sound
Step-IsSound (process_returns ctx id reason remark {db}) sound =
    return_to_documentation-IsSound ctx id db sound reason remark
Step-IsSound (closes ctx id reason {db}) sound = close_without_docs-IsSound ctx id db sound reason
Step-IsSound (reopens ctx id {db}) sound = reopen_case-IsSound ctx id db sound

-- However many calls of the handoff service (confirmHandoff apart), of the handover to Process and
-- of the lifecycle service are run one after another, by whomever and whether they succeed or not:
-- if at the start no two cases have one id and the status of each agrees with its place in the
-- handover to Process, then so it is at the end.
pub Reaches-IsSound : {start end : Db} → Reaches start end → IsSound start.cases → IsSound end.cases
Reaches-IsSound stays sound = sound
Reaches-IsSound (continues run step) sound = Step-IsSound step (Reaches-IsSound run sound)
