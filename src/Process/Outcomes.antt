-- ===== src/Process/Outcomes.antt =====
-- What a caller observes of the handover to Process, run alone: src/services/process-handoff.service.ts
-- and `transferToProcess` of src/services/documentation.service.ts.
use hpx_eigen_s1_foundation.Common.{
  ℕ, String, ◌+◌, ◌≡◌, ◌≢◌, ◌⊎◌, ◌↔◌, refl, ap, true, Option, some, none, Text, [], ◌∷◌, arith,
  ◌==◌, trim, is_empty, get_or_else, if◌then◌else◌,
}
use hpx_eigen_s1_foundation.Case.{
  DocCase, ProcessHandoffState, ProcessReturnReason, active, documentation_ready,
  pending_process_review, returned_to_documentation, transferred_to_process, pending_review,
}
use hpx_eigen_s1_foundation.Handoff.Rules.{allow}
use hpx_eigen_s1_foundation.Process.Rules.{
  ProcessHandoffAction, transfer, accept, return_case, can_transition, check_return_reason,
}
use hpx_eigen_s1_foundation.Process.Rules.Laws.{can_transition-satisfies}
use hpx_eigen_s1_foundation.Process.Service.{
  is_ready_for, transfer_to_process, transferred_case, accept_for_process, process_accepted_case,
  return_to_documentation, returned_case, has_manager_override,
}
use hpx_eigen_s1_foundation.Process.Effects.{
  accept_for_process-Moves, transfer_to_process-Moves, return_to_documentation-Moves,
}
use hpx_eigen_s1_foundation.Store.Moves.{Moves}
use hpx_eigen_s1_foundation.Store.Commits.{Commits, Moves-Commits}
use hpx_eigen_s1_foundation.Store.{Result, Db, Ctx, is_live_case}

-- The case waits for Process.
abbrev pub IsPending : DocCase → Type 0
IsPending c = (c.status ≡ pending_process_review) × (c.process_handoff_state ≡ pending_review)

-- Documentation has the case, and Process does not.
abbrev pub IsOwned : DocCase → Type 0
IsOwned c =
    ((c.status ≡ active)
      ⊎ ((c.status ≡ documentation_ready) ⊎ (c.status ≡ returned_to_documentation)))
    × ((c.process_handoff_state ≡ ProcessHandoffState.none_yet)
        ⊎ (c.process_handoff_state ≡ ProcessHandoffState.returned))

-- A remark, or nothing for a blank one.
abbrev pub or_nothing : Text → Option Text
or_nothing [] = none
or_nothing (c ∷ s) = some (c ∷ s)

can_transition-IsPending :
    (c : DocCase) → (can_transition accept c.status c.process_handoff_state ≡ allow) ↔ IsPending c
unfolding can_transition
can_transition-IsPending c = ground arith

return_case-IsPending :
    (c : DocCase)
    → (can_transition return_case c.status c.process_handoff_state ≡ allow) ↔ IsPending c
unfolding can_transition
return_case-IsPending c = ground arith

can_transition-IsOwned :
    (c : DocCase) → (can_transition transfer c.status c.process_handoff_state ≡ allow) ↔ IsOwned c
unfolding can_transition
can_transition-IsOwned c = ground arith

is_ready_for-id :
    (a : ProcessHandoffAction) (ctx : Ctx) (id : ℕ) (c : DocCase)
    → is_ready_for a ctx id c ≡ true
    → (c.id == id) ≡ true
unfolding is_ready_for is_live_case
is_ready_for-id a ctx id c h = ground arith

is_ready_for-allowed :
    (a : ProcessHandoffAction) (ctx : Ctx) (id : ℕ) (c : DocCase)
    → is_live_case ctx.tenant_id id c ≡ true
    → can_transition a c.status c.process_handoff_state ≡ allow
    → is_ready_for a ctx id c ≡ true
unfolding is_ready_for
is_ready_for-allowed a ctx id c live legal =
    ground (arith, (can_transition-satisfies a c.status c.process_handoff_state).0 legal)

reason_iff :
    (reason : ProcessReturnReason) (remark : Text)
    → (check_return_reason (some reason) (some remark) ≡ allow)
      ↔ ((reason ≢ ProcessReturnReason.other) ⊎ (trim remark ≢ []))
unfolding check_return_reason
reason_iff ProcessReturnReason.other remark = ground arith
reason_iff reason remark = ground arith

trimmed-or_nothing : (s : Text) → (if is_empty s then none else some s) ≡ or_nothing s
trimmed-or_nothing [] = refl
trimmed-or_nothing (c ∷ s) = refl

module _ {A : Type 0} (a : ProcessHandoffAction) (ctx : Ctx) (id : ℕ) (event audit : String)
    (Guard Condition : DocCase → Type 0) (write : DocCase → DocCase → DocCase)
    (after : DocCase → DocCase) (db : Db) where
  ready-Commits :
      (r : Result A × Db)
      → ((c : DocCase) → Guard c ↔ Condition c)
      → ((c : DocCase) → Guard c → can_transition a c.status c.process_handoff_state ≡ allow)
      → ((c x : DocCase) → (write c x).id ≡ x.id)
      → ((c x : DocCase)
          → is_live_case ctx.tenant_id id (write c x) ≡ is_live_case ctx.tenant_id id x)
      → ((c : DocCase) → write c c ≡ after c)
      → Moves ctx id (is_ready_for a ctx id) event audit Guard write db r
      → Commits ctx id event audit Condition after db r
  ready-Commits r same_guard legal keeps live agrees moved =
      Moves-Commits ctx id (is_ready_for a ctx id) event audit Guard Condition write after db r
        same_guard (is_ready_for-id a ctx id)
        (λ c h g. is_ready_for-allowed a ctx id c h (legal c g)) keeps live agrees moved

module _ (ctx : Ctx) (id : ℕ) (db : Db) where
  -- Process accepts exactly when the live case of the caller's tenant is pending review. Then the case
  -- is with Process: accepted by the caller at this instant, and assigned to whom it was or else to
  -- the caller; one event and one audit record are added, and nothing else changes. Otherwise nothing
  -- changes.
  pub accept_for_process-Commits :
      Commits ctx id "PROCESS_HANDOFF_ACCEPTED" "PROCESS_HANDOFF_ACCEPTED" IsPending
        (λ c. record c {
          status = transferred_to_process;
          process_handoff_state = ProcessHandoffState.accepted;
          process_accepted_at = some ctx.now;
          process_accepted_by = some ctx.user_id;
          process_assigned_to = some (get_or_else c.process_assigned_to ctx.user_id);
        })
        db
        (accept_for_process ctx id db)
  unfolding process_accepted_case is_live_case
  accept_for_process-Commits =
      ready-Commits accept ctx id _ _ _ _ _ _ db (accept_for_process ctx id db)
        can_transition-IsPending (λ c g. g) (λ c x. refl) (λ c x. refl) (λ c. refl)
        (accept_for_process-Moves ctx id db)

  -- A transfer succeeds exactly when the live case of the caller's tenant is ACTIVE, ready for Process
  -- or back from it, its handover state is NONE or RETURNED, and it is marked ready or overridden by a
  -- manager. Then it is pending the review of Process, handed over
  -- and transferred by the caller at this instant with the trimmed remarks, if any; one event and one
  -- audit record are added, and nothing else changes. Otherwise nothing changes.
  pub transfer_to_process-Commits :
      (remarks : Option Text)
      → Commits ctx id "PROCESS_REVIEW_REQUESTED" "DOC_CASE_PROCESS_REVIEW_REQUESTED"
          (λ c. IsOwned c × ((c.is_ready ≡ true) ⊎ (has_manager_override ctx id db ≡ true)))
          (λ c. record c {
            status = pending_process_review;
            process_handoff_state = pending_review;
            process_handoff_at = some ctx.now;
            process_handoff_by = some ctx.user_id;
            handover_remarks = or_nothing (trim (get_or_else remarks []));
            transferred_at = some ctx.now;
            transferred_by = some ctx.user_id;
          })
          db
          (transfer_to_process ctx id remarks db)
  unfolding transferred_case is_live_case
  transfer_to_process-Commits remarks =
      ready-Commits transfer ctx id _ _ _ _ _ _ db (transfer_to_process ctx id remarks db)
        (λ c. (
          λ (legal, ready). ((can_transition-IsOwned c).0 legal, ready),
          λ (owned, ready). ((can_transition-IsOwned c).1 owned, ready),
        ))
        (λ c g. g.0) (λ c x. refl) (λ c x. refl)
        (λ c.
          ap
            (λ r. record c {
              status = pending_process_review;
              process_handoff_state = pending_review;
              process_handoff_at = some ctx.now;
              process_handoff_by = some ctx.user_id;
              handover_remarks = r;
              transferred_at = some ctx.now;
              transferred_by = some ctx.user_id;
            })
            (trimmed-or_nothing (trim (get_or_else remarks []))))
        (transfer_to_process-Moves ctx id db remarks)

  -- Process returns a case exactly when the reason is not OTHER or the note is not blank, and the live
  -- case of the caller's tenant is pending review. Then Documentation has it back, returned at this instant and
  -- once more than before, with the reason and the trimmed note, if any; one event and one audit
  -- record are added, and nothing else changes. Otherwise nothing changes.
  pub return_to_documentation-Commits :
      (reason : ProcessReturnReason) (remark : Text)
      → Commits ctx id "PROCESS_HANDOFF_RETURNED" "PROCESS_HANDOFF_RETURNED"
          (λ c. ((reason ≢ ProcessReturnReason.other) ⊎ (trim remark ≢ [])) × IsPending c)
          (λ c. record c {
            status = returned_to_documentation;
            process_handoff_state = ProcessHandoffState.returned;
            process_returned_at = some ctx.now;
            process_return_count = c.process_return_count + 1;
            process_return_reason_code = some reason;
            process_return_reason_note = or_nothing (trim remark);
          })
          db
          (return_to_documentation ctx id reason remark db)
  unfolding returned_case is_live_case
  return_to_documentation-Commits reason remark =
      ready-Commits return_case ctx id _ _ _ _ _ _ db
        (return_to_documentation ctx id reason remark db)
        (λ c. (
          λ (given, legal). ((reason_iff reason remark).0 given, (return_case-IsPending c).0 legal),
          λ (given, waits). ((reason_iff reason remark).1 given, (return_case-IsPending c).1 waits),
        ))
        (λ c g. g.1) (λ c x. refl) (λ c x. refl)
        (λ c.
          ap
            (λ r. record c {
              status = returned_to_documentation;
              process_handoff_state = ProcessHandoffState.returned;
              process_returned_at = some ctx.now;
              process_return_count = c.process_return_count + 1;
              process_return_reason_code = some reason;
              process_return_reason_note = r;
            })
            (trimmed-or_nothing (trim remark)))
        (return_to_documentation-Moves ctx id db reason remark)
