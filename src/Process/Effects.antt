-- ===== src/Process/Effects.antt =====
-- What the handover methods do to the database, run alone.
use hpx_eigen_s1_foundation.Common.{
  ℕ, ◌≡◌, ◌≢◌, refl, true, Option, some, Text, arith, Option-cases, inl, inr, count_where,
  count_where-find_first, ◌⊎◌,
}
use hpx_eigen_s1_foundation.Case.{DocCase, ProcessReturnReason}
use hpx_eigen_s1_foundation.Handoff.Rules.{TransitionCheck, allow, deny}
use hpx_eigen_s1_foundation.Process.Rules.{
  ProcessHandoffAction, transfer, accept, return_case, can_transition, check_return_reason,
  precondition, satisfies,
}
use hpx_eigen_s1_foundation.Process.Rules.Laws.{can_transition-satisfies}
use hpx_eigen_s1_foundation.Process.Service.{
  is_ready_for, transfer_to_process, transferred_case, accept_for_process, process_accepted_case,
  return_to_documentation, returned_case, check_transfer, write_transfer, write_ready,
  return_pending, assert_reason, check_pending, write_accept, write_return, has_manager_override,
}
use hpx_eigen_s1_foundation.Store.Moves.{Moves, add_fact}
use hpx_eigen_s1_foundation.Store.{◌>>◌, Db, Ctx, find_case, is_live_case}

-- A case that the guard allows is counted by the condition of the write.
is_ready_for-counted :
    (a : ProcessHandoffAction) (ctx : Ctx) (id : ℕ) (db : Db) (c : DocCase)
    → find_case ctx.tenant_id id db ≡ some c
    → can_transition a c.status c.process_handoff_state ≡ allow
    → count_where (is_ready_for a ctx id) db.cases ≢ 0
unfolding find_case is_ready_for
is_ready_for-counted a ctx id db c found legal =
    count_where-find_first (is_live_case ctx.tenant_id id)
      (λ x. satisfies (precondition a) x.status x.process_handoff_state) db.cases found
      ((can_transition-satisfies a c.status c.process_handoff_state).0 legal)

module _ (ctx : Ctx) (id : ℕ) (db : Db) where
  -- Process accepts exactly when the live case of the caller's tenant is pending review. Then the
  -- call writes the case by the columns of process_accepted_case, one event and one audit record
  -- and nothing else; otherwise it writes nothing.
  pub accept_for_process-Moves :
      Moves ctx id
        (is_ready_for accept ctx id)
        "PROCESS_HANDOFF_ACCEPTED"
        "PROCESS_HANDOFF_ACCEPTED"
        (λ c. can_transition accept c.status c.process_handoff_state ≡ allow)
        (process_accepted_case ctx)
        db
        (accept_for_process ctx id db)
  unfolding Moves accept_for_process check_pending write_accept write_ready
  accept_for_process-Moves = elim (Option-cases (find_case ctx.tenant_id id db)) [
    | inl gone ↦ ground arith
    | inr (c, found) ↦ ground (arith, is_ready_for-counted accept ctx id db c found)
  ]

  -- A transfer succeeds exactly when the live case of the caller's tenant may be transferred and
  -- is ready or overridden by a manager. Then it writes the case by the columns of
  -- transferred_case, one event and one audit record and nothing else; otherwise it writes
  -- nothing.
  pub transfer_to_process-Moves :
      (remarks : Option Text)
      → Moves ctx id
          (is_ready_for transfer ctx id)
          "PROCESS_REVIEW_REQUESTED"
          "DOC_CASE_PROCESS_REVIEW_REQUESTED"
          (λ c.
            (can_transition transfer c.status c.process_handoff_state ≡ allow)
            × ((c.is_ready ≡ true) ⊎ (has_manager_override ctx id db ≡ true)))
          (λ _. transferred_case ctx remarks)
          db
          (transfer_to_process ctx id remarks db)
  unfolding Moves transfer_to_process check_transfer write_transfer write_ready
  transfer_to_process-Moves remarks = elim (Option-cases (find_case ctx.tenant_id id db)) [
    | inl gone ↦ ground arith
    | inr (c, found) ↦ ground (arith, is_ready_for-counted transfer ctx id db c found)
  ]

  return_pending-Moves :
      (reason : ProcessReturnReason) (remark : Text)
      → Moves ctx id
          (is_ready_for return_case ctx id)
          "PROCESS_HANDOFF_RETURNED"
          "PROCESS_HANDOFF_RETURNED"
          (λ c. can_transition return_case c.status c.process_handoff_state ≡ allow)
          (λ _. returned_case ctx reason remark)
          db
          (return_pending ctx id reason remark db)
  unfolding Moves return_pending check_pending write_return write_ready
  return_pending-Moves reason remark = elim (Option-cases (find_case ctx.tenant_id id db)) [
    | inl gone ↦ ground arith
    | inr (c, found) ↦ ground (arith, is_ready_for-counted return_case ctx id db c found)
  ]

  after_check :
      (check : TransitionCheck) (reason : ProcessReturnReason) (remark : Text)
      → Moves ctx id
          (is_ready_for return_case ctx id)
          "PROCESS_HANDOFF_RETURNED"
          "PROCESS_HANDOFF_RETURNED"
          (λ c.
            (check ≡ allow) × (can_transition return_case c.status c.process_handoff_state ≡ allow))
          (λ _. returned_case ctx reason remark)
          db
          ((assert_reason check >> return_pending ctx id reason remark) db)
  unfolding Moves
  after_check (deny why) reason remark = (refl, λ (c, found, both). ground arith)
  after_check allow reason remark =
      add_fact ctx id _ _ _ _ _ db (return_pending ctx id reason remark db) refl
        (return_pending-Moves reason remark)

  -- Process returns a case exactly when the reason and the note are in order and the live case of
  -- the caller's tenant is pending review. Then the call writes the case by the columns of
  -- returned_case, one event and one audit record and nothing else; otherwise it writes nothing.
  pub return_to_documentation-Moves :
      (reason : ProcessReturnReason) (remark : Text)
      → Moves ctx id
          (is_ready_for return_case ctx id)
          "PROCESS_HANDOFF_RETURNED"
          "PROCESS_HANDOFF_RETURNED"
          (λ c.
            (check_return_reason (some reason) (some remark) ≡ allow)
            × (can_transition return_case c.status c.process_handoff_state ≡ allow))
          (λ _. returned_case ctx reason remark)
          db
          (return_to_documentation ctx id reason remark db)
  unfolding return_to_documentation
  return_to_documentation-Moves reason remark =
      after_check (check_return_reason (some reason) (some remark)) reason remark
