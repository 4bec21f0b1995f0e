-- ===== src/Handoff/Outcomes.antt =====
-- What a caller observes of each method of src/services/handoff.service.ts.
use hpx_eigen_s1_foundation.Common.{
  String, [], ◌∷◌, ◌≢◌, ℕ, ◌+◌, ◌*◌, ◌≤◌, ◌≡◌, ◌↔◌, refl, Bool, true, false, ◌||◌, some, none, Text,
  arith, leb, trim, is_empty, length, get_or_else, if◌then◌else◌,
}
use hpx_eigen_s1_foundation.Case.{
  DocCase, DocCaseStatus, HandoffState, HandoffReturnReason, incoming, active, resent,
  duplicate_case,
}
use hpx_eigen_s1_foundation.Handoff.Rules.{
  allow, accept, reject, return_case, resend, check_resend_allowed, ResendContext,
  requires_manager_review_after_return, compute_auto_drop_at,
}
use hpx_eigen_s1_foundation.Handoff.Rules.Laws.{
  Legal, IsProven, can_transition_iff, check_resend_allowed_iff,
}
use hpx_eigen_s1_foundation.Handoff.Service.{
  accept_handoff, accepted_case, reject_handoff, return_after_acceptance, sent_back_case,
  resend_handoff, resent_case, clear_manager_review, reviewed_case, is_blank, find_lead,
  has_approved_override, resend_context,
}
use hpx_eigen_s1_foundation.Handoff.Effects.{
  accept_handoff-Moves, reject_handoff-Moves, return_after_acceptance-Moves,
  clear_manager_review-Moves, resend_handoff-Moves,
}
use hpx_eigen_s1_foundation.Store.Moves.{Moves}
use hpx_eigen_s1_foundation.Store.Commits.{Commits, Moves-Commits}
use hpx_eigen_s1_foundation.Store.{Result, Db, Ctx, Lead, find_case, is_live_case, has_id}

-- Reasons that a manager has to look at the first time.
abbrev pub is_grave : HandoffReturnReason → Bool
is_grave duplicate_case = true
is_grave HandoffReturnReason.compliance_issue = true
is_grave _ = false

-- Whether a manager has to look at the case once it is sent back: for a grave reason, and from the
-- second time on.
abbrev pub needs_review : HandoffReturnReason → DocCase → Bool
needs_review reason c = is_grave reason || leb 2 (c.return_count + 1)

-- The case once it is sent back: the reason and the trimmed note stand on it, it counts once more,
-- and it is dropped seven days later.
abbrev pub sent_back : Ctx → DocCaseStatus → HandoffReturnReason → Text → DocCase → DocCase
sent_back ctx status reason remark c = record c {
  status = status;
  handoff_state =
      if needs_review reason c then HandoffState.manager_review_required else HandoffState.returned;
  return_count = c.return_count + 1;
  return_reason_code = some reason;
  return_reason_note = some (trim remark);
  returned_at = some ctx.now;
  manager_review_required = needs_review reason c;
  auto_drop_at = some (ctx.now + 7 * 24 * 60 * 60 * 1000);
  last_internal_change_at = some ctx.now;
}

sent_back_case-sent_back :
    (ctx : Ctx) (status : DocCaseStatus) (reason : HandoffReturnReason) (remark : Text)
    (c : DocCase)
    → sent_back_case ctx status reason remark c c ≡ sent_back ctx status reason remark c
unfolding sent_back_case requires_manager_review_after_return compute_auto_drop_at
sent_back_case-sent_back ctx status reason remark c = ground arith

-- Two conditions, each of which says the same in another way.
and_iff : {P Q P' Q' : Type 0} → P ↔ P' → Q ↔ Q' → (P × Q) ↔ (P' × Q')
and_iff p q = (λ (a, b). (p.0 a, q.0 b), λ (a, b). (p.1 a, q.1 b))

is_empty_iff : (s : Text) → (is_empty s ≡ false) ↔ (s ≢ [])
is_empty_iff [] = ground arith
is_empty_iff (c ∷ s) = ground arith

is_blank_iff : (remark : Text) → (is_blank remark ≡ false) ↔ (trim remark ≢ [])
is_blank_iff remark = is_empty_iff (trim remark)

module _ {A : Type 0} (ctx : Ctx) (id : ℕ) (event audit : String)
    (Guard Condition : DocCase → Type 0) (write : DocCase → DocCase → DocCase)
    (after : DocCase → DocCase) (db : Db) where
  by_id-Commits :
      (r : Result A × Db)
      → ((c : DocCase) → Guard c ↔ Condition c)
      → ((c x : DocCase) → (write c x).id ≡ x.id)
      → ((c x : DocCase)
          → is_live_case ctx.tenant_id id (write c x) ≡ is_live_case ctx.tenant_id id x)
      → ((c : DocCase) → write c c ≡ after c)
      → Moves ctx id (has_id id) event audit Guard write db r
      → Commits ctx id event audit Condition after db r
  by_id-Commits r same_guard keeps live agrees moved =
      Moves-Commits ctx id (has_id id) event audit Guard Condition write after db r same_guard
        (λ x h. h) (λ c h g. unfold is_live_case in ground arith) keeps live agrees moved

-- What a resend is judged by: the note, the snapshots of the last handoff, and the lead's phone and the
-- preset of now.
abbrev pub evidence : DocCase → Lead → Text → Bool → ResendContext
evidence d lead resolution approved = record {
  return_reason_code = d.return_reason_code;
  resolution_note = resolution;
  phone_at_handoff = d.handoff_phone_snapshot;
  current_phone = lead.phone;
  has_approved_contact_override = approved;
  preset_at_handoff = d.handoff_preset_snapshot;
  current_preset = d.preset_id;
}

resend_context_iff :
    (d : DocCase) (lead : Lead) (resolution : Text) (approved : Bool)
    → (check_resend_allowed (resend_context d lead resolution approved) ≡ allow) ↔ (
        (10 ≤ length (trim resolution))
        × IsProven d.return_reason_code (evidence d lead resolution approved))
unfolding resend_context
resend_context_iff d lead resolution approved =
    check_resend_allowed_iff (evidence d lead resolution approved)

module _ (ctx : Ctx) (id : ℕ) (db : Db) where
  -- Documentation accepts exactly when the live case of the caller's tenant may be accepted. Then the
  -- case reads ACTIVE and ACCEPTED by the caller at this instant, it is assigned to whom it was or
  -- else to the caller, and it is no longer to be dropped; one event and one audit record are added,
  -- and nothing else changes. Otherwise nothing changes.
  pub accept_handoff-Commits :
      Commits ctx id "HANDOFF_ACCEPTED" "HANDOFF_ACCEPTED"
        (λ c. Legal accept c.status c.handoff_state c.manager_review_required)
        (λ c. record c {
          status = active;
          handoff_state = HandoffState.accepted;
          accepted_at = some ctx.now;
          accepted_by = some ctx.user_id;
          assigned_to = some (get_or_else c.assigned_to ctx.user_id);
          auto_drop_at = none;
          last_internal_change_at = some ctx.now;
        })
        db
        (accept_handoff ctx id db)
  unfolding accepted_case is_live_case
  accept_handoff-Commits =
      by_id-Commits ctx id _ _ _ _ _ _ db (accept_handoff ctx id db)
        (λ c. can_transition_iff accept c.status c.handoff_state c.manager_review_required)
        (λ c x. refl) (λ c x. refl) (λ c. refl) (accept_handoff-Moves ctx id db)

  -- A rejection succeeds exactly when the note is not blank and the live case of the caller's tenant
  -- may be rejected. Then the case stays INCOMING and bears the reason and the note: it has come back
  -- once more, is RETURNED or, for a grave reason or from the second time on, under a manager's
  -- review, and is to be dropped in seven days; one event and one audit record are added, and nothing
  -- else changes. Otherwise nothing changes.
  pub reject_handoff-Commits :
      (reason : HandoffReturnReason) (remark : Text)
      → Commits ctx id "HANDOFF_REJECTED" "HANDOFF_REJECTED"
          (λ c.
            (trim remark ≢ []) × Legal reject c.status c.handoff_state c.manager_review_required)
          (sent_back ctx incoming reason remark)
          db
          (reject_handoff ctx id reason remark db)
  unfolding sent_back_case is_live_case
  reject_handoff-Commits reason remark =
      by_id-Commits ctx id _ _ _ _ _ _ db (reject_handoff ctx id reason remark db)
        (λ c.
          and_iff (is_blank_iff remark)
            (can_transition_iff reject c.status c.handoff_state c.manager_review_required))
        (λ c x. refl) (λ c x. refl) (sent_back_case-sent_back ctx incoming reason remark)
        (reject_handoff-Moves ctx id db reason remark)

  -- A return succeeds exactly when the note is not blank and the live case of the caller's tenant may
  -- be returned. Then the case becomes RETURNED and bears the reason and the note: it has come back
  -- once more, its handoff is RETURNED or, for a grave reason or from the second time on, under a
  -- manager's review, and it is to be dropped in seven days; one event and one audit record are
  -- added, and nothing else changes. Otherwise nothing changes.
  pub return_after_acceptance-Commits :
      (reason : HandoffReturnReason) (remark : Text)
      → Commits ctx id "CASE_RETURNED" "CASE_RETURNED"
          (λ c.
            (trim remark ≢ [])
            × Legal return_case c.status c.handoff_state c.manager_review_required)
          (sent_back ctx DocCaseStatus.returned reason remark)
          db
          (return_after_acceptance ctx id reason remark db)
  unfolding sent_back_case is_live_case
  return_after_acceptance-Commits reason remark =
      by_id-Commits ctx id _ _ _ _ _ _ db (return_after_acceptance ctx id reason remark db)
        (λ c.
          and_iff (is_blank_iff remark)
            (can_transition_iff return_case c.status c.handoff_state c.manager_review_required))
        (λ c x. refl) (λ c x. refl)
        (sent_back_case-sent_back ctx DocCaseStatus.returned reason remark)
        (return_after_acceptance-Moves ctx id db reason remark)

  -- A review is completed exactly when the note is not blank and the live case of the caller's tenant
  -- is under review. Then the case is no longer under review and its handoff is RETURNED; its
  -- status stays, one event and one audit record are added, and nothing else
  -- changes. Otherwise nothing changes.
  pub clear_manager_review-Commits :
      (remark : Text)
      → Commits ctx id "MANAGER_REVIEW_COMPLETED" "MANAGER_REVIEW_COMPLETED"
          (λ c. (trim remark ≢ []) × (c.manager_review_required ≡ true))
          (λ c. record c {
            manager_review_required = false;
            handoff_state = HandoffState.returned;
            last_internal_change_at = some ctx.now;
          })
          db
          (clear_manager_review ctx id remark db)
  unfolding reviewed_case is_live_case
  clear_manager_review-Commits remark =
      by_id-Commits ctx id _ _ _ _ _ _ db (clear_manager_review ctx id remark db)
        (λ c. and_iff (is_blank_iff remark) ((λ h. h), (λ h. h))) (λ c x. refl) (λ c x. refl)
        (λ c. refl) (clear_manager_review-Moves ctx id db remark)

  -- For a live case of the caller's tenant and its live lead, a resend succeeds exactly when the case
  -- may be resent, the trimmed note has ten characters, and the problem that the reason names, if it
  -- asks for a proof, is proven to be fixed by the lead's phone and the case's preset of now or by an
  -- approved change of contact. Then the case is back in the inbox, sent by the caller at this
  -- instant, with the lead's phone and the preset of now as its snapshots, without the reason, the
  -- note and the drop; one event and one audit record are added, and nothing else changes. Otherwise
  -- nothing changes.
  pub resend_handoff-Commits :
      (resolution : Text) (c : DocCase) (lead : Lead)
      → find_case ctx.tenant_id id db ≡ some c
      → find_lead ctx.tenant_id c.lead_id db ≡ some lead
      → Commits ctx id "HANDOFF_RESENT" "HANDOFF_RESENT"
          (λ d.
            Legal resend d.status d.handoff_state d.manager_review_required
            × ((10 ≤ length (trim resolution))
                × IsProven d.return_reason_code
                    (evidence d lead resolution (has_approved_override id db))))
          (λ d. record d {
            status = incoming;
            handoff_state = resent;
            handoff_at = some ctx.now;
            handoff_by = some ctx.user_id;
            handoff_phone_snapshot = lead.phone;
            handoff_preset_snapshot = d.preset_id;
            return_reason_code = none;
            return_reason_note = none;
            auto_drop_at = none;
            last_internal_change_at = some ctx.now;
          })
          db
          (resend_handoff ctx id resolution db)
  unfolding resent_case is_live_case
  resend_handoff-Commits resolution c lead found of_lead =
      by_id-Commits ctx id _ _ _ _ _ _ db (resend_handoff ctx id resolution db)
        (λ d.
          and_iff (can_transition_iff resend d.status d.handoff_state d.manager_review_required)
            (resend_context_iff d lead resolution (has_approved_override id db)))
        (λ d x. refl) (λ d x. refl) (λ d. refl)
        (resend_handoff-Moves ctx id resolution db c lead found of_lead)
