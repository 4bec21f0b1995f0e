-- ===== src/Handoff/Effects.antt =====
-- What each handoff method does to the database, on every branch.
use hpx_eigen_s1_foundation.Common.{
  ℕ, ◌≡◌, ◌⊎◌, ap, true, false, none, some, Text, arith, Option-cases, inl, inr, update_many,
}
use hpx_eigen_s1_foundation.Case.{DocCase, DocCaseStatus, HandoffReturnReason, incoming}
use hpx_eigen_s1_foundation.Handoff.Rules.{
  allow, can_transition, accept, reject, return_case, resend, check_resend_allowed,
}
use hpx_eigen_s1_foundation.Handoff.Service.{
  accept_handoff, accepted_case, reject_handoff, return_after_acceptance, sent_back_case,
  resend_handoff, resent_case, clear_manager_review, reviewed_case, write_rejection, write_return,
  write_review, is_blank, find_lead, has_approved_override, resend_context,
}
use hpx_eigen_s1_foundation.Store.Moves.{Moves, Moves-outcome, guarded-Moves}
use hpx_eigen_s1_foundation.Store.{Db, Ctx, Lead, find_case, has_id}

-- Documentation accepts exactly when the guard allows it for the live case of the caller's tenant.
-- Then the call writes the case by the columns of accepted_case, one event and one audit record
-- and nothing else; otherwise it writes nothing.
pub accept_handoff-Moves :
    (ctx : Ctx) (id : ℕ) (db : Db)
    → Moves ctx id
        (has_id id)
        "HANDOFF_ACCEPTED"
        "HANDOFF_ACCEPTED"
        (λ c. can_transition accept c.status c.handoff_state c.manager_review_required ≡ allow)
        (accepted_case ctx)
        db
        (accept_handoff ctx id db)
unfolding Moves accept_handoff
accept_handoff-Moves ctx id db = ground arith

module _ (ctx : Ctx) (id : ℕ) (db : Db) where
  write_rejection-Moves :
      (reason : HandoffReturnReason) (remark : Text)
      → Moves ctx id
          (has_id id)
          "HANDOFF_REJECTED"
          "HANDOFF_REJECTED"
          (λ c. can_transition reject c.status c.handoff_state c.manager_review_required ≡ allow)
          (sent_back_case ctx incoming reason remark)
          db
          (write_rejection ctx id reason remark db)
  unfolding Moves write_rejection
  write_rejection-Moves reason remark = ground arith

  write_return-Moves :
      (reason : HandoffReturnReason) (remark : Text)
      → Moves ctx id
          (has_id id)
          "CASE_RETURNED"
          "CASE_RETURNED"
          (λ c.
            can_transition return_case c.status c.handoff_state c.manager_review_required ≡ allow)
          (sent_back_case ctx DocCaseStatus.returned reason remark)
          db
          (write_return ctx id reason remark db)
  unfolding Moves write_return
  write_return-Moves reason remark = ground arith

  write_review-Moves :
      Moves ctx id
        (has_id id)
        "MANAGER_REVIEW_COMPLETED"
        "MANAGER_REVIEW_COMPLETED"
        (λ c. c.manager_review_required ≡ true)
        (λ _. reviewed_case ctx)
        db
        (write_review ctx id db)
  unfolding Moves write_review
  write_review-Moves = ground arith

  -- A rejection succeeds exactly when the note is not blank and the guard allows it for the live
  -- case of the caller's tenant. Then it writes the case by the columns of sent_back_case, one event and one
  -- audit record and nothing else; otherwise it writes nothing.
  pub reject_handoff-Moves :
      (reason : HandoffReturnReason) (remark : Text)
      → Moves ctx id
          (has_id id)
          "HANDOFF_REJECTED"
          "HANDOFF_REJECTED"
          (λ c.
            (is_blank remark ≡ false)
            × (can_transition reject c.status c.handoff_state c.manager_review_required ≡ allow))
          (sent_back_case ctx incoming reason remark)
          db
          (reject_handoff ctx id reason remark db)
  unfolding reject_handoff
  reject_handoff-Moves reason remark =
      guarded-Moves ctx id _ _ _ _ _ db (is_blank remark) _ (write_rejection ctx id reason remark)
        (write_rejection-Moves reason remark)

  -- A return succeeds exactly when the note is not blank and the guard allows it for the live case
  -- of the caller's tenant. Then it writes the case by the columns of sent_back_case, one event and one
  -- audit record and nothing else; otherwise it writes nothing.
  pub return_after_acceptance-Moves :
      (reason : HandoffReturnReason) (remark : Text)
      → Moves ctx id
          (has_id id)
          "CASE_RETURNED"
          "CASE_RETURNED"
          (λ c.
            (is_blank remark ≡ false)
            × (can_transition return_case c.status c.handoff_state c.manager_review_required
                ≡ allow))
          (sent_back_case ctx DocCaseStatus.returned reason remark)
          db
          (return_after_acceptance ctx id reason remark db)
  unfolding return_after_acceptance
  return_after_acceptance-Moves reason remark =
      guarded-Moves ctx id _ _ _ _ _ db (is_blank remark) _ (write_return ctx id reason remark)
        (write_return-Moves reason remark)

  -- A review is completed exactly when the note is not blank and the live case of the caller's
  -- tenant is under review. Then the call writes the case by the columns of reviewed_case, one
  -- event and one audit record and nothing else; otherwise it writes nothing.
  pub clear_manager_review-Moves :
      (remark : Text)
      → Moves ctx id
          (has_id id)
          "MANAGER_REVIEW_COMPLETED"
          "MANAGER_REVIEW_COMPLETED"
          (λ c. (is_blank remark ≡ false) × (c.manager_review_required ≡ true))
          (λ _. reviewed_case ctx)
          db
          (clear_manager_review ctx id remark db)
  unfolding clear_manager_review
  clear_manager_review-Moves remark =
      guarded-Moves ctx id _ _ _ _ _ db (is_blank remark) _ (write_review ctx id) write_review-Moves

-- For a live case of the caller's tenant and its live lead, a resend succeeds exactly when the
-- guard allows it and checkResendAllowed finds the problem fixed. Then it writes the case by
-- the columns of resent_case, one event and one audit record and nothing else;
-- otherwise it writes nothing.
pub resend_handoff-Moves :
    (ctx : Ctx) (id : ℕ) (resolution : Text) (db : Db) (c : DocCase) (lead : Lead)
    → find_case ctx.tenant_id id db ≡ some c
    → find_lead ctx.tenant_id c.lead_id db ≡ some lead
    → Moves ctx id
        (has_id id)
        "HANDOFF_RESENT"
        "HANDOFF_RESENT"
        (λ d.
          (can_transition resend d.status d.handoff_state d.manager_review_required ≡ allow)
          × (check_resend_allowed (resend_context d lead resolution (has_approved_override id db))
              ≡ allow))
        (resent_case ctx lead)
        db
        (resend_handoff ctx id resolution db)
unfolding Moves resend_handoff
resend_handoff-Moves ctx id resolution db c lead found of_lead = ground arith

-- Without its lead a case is not resent.
pub resend_handoff-no_lead :
    (ctx : Ctx) (id : ℕ) (resolution : Text) (db : Db) (c : DocCase)
    → find_case ctx.tenant_id id db ≡ some c
    → find_lead ctx.tenant_id c.lead_id db ≡ none
    → (resend_handoff ctx id resolution db).1 ≡ db
unfolding Moves resend_handoff
resend_handoff-no_lead ctx id resolution db c found gone = ground arith

-- What a resend can make of the table of cases.
pub resend_handoff-cases :
    (ctx : Ctx) (id : ℕ) (resolution : Text) (db : Db)
    → ((resend_handoff ctx id resolution db).1.cases ≡ db.cases)
      ⊎ ((c : DocCase) × (lead : Lead) × (find_case ctx.tenant_id id db ≡ some c)
          × (can_transition resend c.status c.handoff_state c.manager_review_required ≡ allow)
          × ((resend_handoff ctx id resolution db).1.cases
              ≡ update_many (has_id id) (resent_case ctx lead c) db.cases))
unfolding resend_handoff
resend_handoff-cases ctx id resolution db = elim (Option-cases (find_case ctx.tenant_id id db)) [
  | inl gone ↦ inl (ground arith)
  | inr (c, found) ↦ elim (Option-cases (find_lead ctx.tenant_id c.lead_id db)) [
    | inl gone ↦ inl (ap (λ d. d.cases) (resend_handoff-no_lead ctx id resolution db c found gone))
    | inr (lead, of_lead) ↦
        elim (Moves-outcome ctx id _ _ _ _ _ db (resend_handoff ctx id resolution db)
          (resend_handoff-Moves ctx id resolution db c lead found of_lead)) [
            | inl same ↦ inl (ap (λ d. d.cases) same)
            | inr (d, there, legal, w) ↦ inr (d, lead, there, legal.0, ap (λ x. x.cases) w)
          ]
  ]
]
