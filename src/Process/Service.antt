-- ===== src/Process/Service.antt =====
-- The handover from Documentation to Process and back: `transferToProcess` of
-- src/services/documentation.service.ts and src/services/process-handoff.service.ts. Each call reads
-- the row and checks it, and then writes under the condition of the check; the two halves stand
-- apart, since another transaction may come in between.
use hpx_eigen_s1_foundation.Common.{
  ℕ, ◌+◌, Bool, not, ◌&&◌, Option, none, some, Text, ◌==◌, is_empty, trim, if◌then◌else◌,
  get_or_else, some_of, [],
}
use hpx_eigen_s1_foundation.Case.{
  DocCase, ProcessHandoffState, ProcessReturnReason, pending_process_review, transferred_to_process,
  returned_to_documentation, pending_review,
}
use hpx_eigen_s1_foundation.Handoff.Rules.{TransitionCheck, allow, deny}
use hpx_eigen_s1_foundation.Handoff.Service.{assert_allowed}
use hpx_eigen_s1_foundation.Process.Rules.{
  ProcessHandoffAction, transfer, accept, return_case, can_transition, check_return_reason,
  precondition, satisfies,
}
use hpx_eigen_s1_foundation.Store.{
  Action, pure, raise, gets, raise_if, transaction, ◌>>=◌, ◌>>◌, Db, Ctx, is_live_case, load_case,
  update_cases, add_event, append_audit, validation_error, business_rule_violation, conflict,
}

-- `remarks?.trim() ? remarks.trim() : null`
abbrev pub trimmed : Text → Option Text
trimmed remark = if is_empty (trim remark) then none else some (trim remark)

-- `where: { id, tenantId, deletedAt: null, status: { in }, processHandoffState: { in } }`
unfoldable pub is_ready_for : ProcessHandoffAction → Ctx → ℕ → DocCase → Bool
is_ready_for action ctx id c =
    is_live_case ctx.tenant_id id c
    && satisfies (precondition action) c.status c.process_handoff_state

-- The conditional write, and the refusal when no row met the condition.
unfoldable pub write_ready :
    ProcessHandoffAction → Ctx → ℕ → (DocCase → DocCase) → Action Db (Unit {0})
unfolding is_ready_for
write_ready action ctx id data_of = do
  count ← update_cases (is_ready_for action ctx id) data_of
  raise_if (count == 0) conflict

unfoldable pub has_manager_override : Ctx → ℕ → Db → Bool
has_manager_override ctx id db =
    some_of (λ o. o.case_id == id && o.tenant_id == ctx.tenant_id) db.overrides

unfoldable pub transferred_case : Ctx → Option Text → DocCase → DocCase
transferred_case ctx remarks row = record row {
  status = pending_process_review;
  process_handoff_state = pending_review;
  process_handoff_at = some ctx.now;
  process_handoff_by = some ctx.user_id;
  handover_remarks = trimmed (get_or_else remarks []);
  transferred_at = some ctx.now;
  transferred_by = some ctx.user_id;
}

-- `transferToProcess`, up to the write
unfoldable pub check_transfer : Ctx → ℕ → Action Db (Unit {0})
unfolding assert_allowed
check_transfer ctx id = do
  c ← load_case ctx id
  assert_allowed (can_transition transfer c.status c.process_handoff_state)
  overridden ← gets (has_manager_override ctx id)
  raise_if (not c.is_ready && not overridden)
      (business_rule_violation "Case is not ready for Process and has no manager override.")

-- `transferToProcess`, from the write on
unfoldable pub write_transfer : Ctx → ℕ → Option Text → Action Db (Unit {0})
unfolding write_ready transferred_case
write_transfer ctx id remarks = do
  write_ready transfer ctx id (transferred_case ctx remarks)
  add_event ctx id "PROCESS_REVIEW_REQUESTED"
  append_audit ctx "DOC_CASE_PROCESS_REVIEW_REQUESTED" "DocCase" id

unfoldable pub transfer_to_process : Ctx → ℕ → Option Text → Action Db (Unit {0})
unfolding check_transfer write_transfer
transfer_to_process ctx id remarks =
    transaction (check_transfer ctx id >> write_transfer ctx id remarks)

unfoldable pub process_accepted_case : Ctx → DocCase → DocCase → DocCase
process_accepted_case ctx loaded row = record row {
  status = transferred_to_process;
  process_handoff_state = ProcessHandoffState.accepted;
  process_accepted_at = some ctx.now;
  process_accepted_by = some ctx.user_id;
  process_assigned_to = some (get_or_else loaded.process_assigned_to ctx.user_id);
}

-- The read of `accept` and of `returnToDocumentation`: the row, once it is found legal.
unfoldable pub check_pending : ProcessHandoffAction → Ctx → ℕ → Action Db DocCase
unfolding assert_allowed
check_pending action ctx id = do
  c ← load_case ctx id
  assert_allowed (can_transition action c.status c.process_handoff_state)
  pure c

unfoldable pub write_accept : Ctx → ℕ → DocCase → Action Db (Unit {0})
unfolding write_ready process_accepted_case
write_accept ctx id c = do
  write_ready accept ctx id (process_accepted_case ctx c)
  add_event ctx id "PROCESS_HANDOFF_ACCEPTED"
  append_audit ctx "PROCESS_HANDOFF_ACCEPTED" "DocCase" id

unfoldable pub accept_for_process : Ctx → ℕ → Action Db (Unit {0})
unfolding check_pending write_accept
accept_for_process ctx id = transaction (check_pending accept ctx id >>= write_accept ctx id)

unfoldable pub returned_case : Ctx → ProcessReturnReason → Text → DocCase → DocCase
returned_case ctx reason remark row = record row {
  status = returned_to_documentation;
  process_handoff_state = ProcessHandoffState.returned;
  process_returned_at = some ctx.now;
  process_return_count = row.process_return_count + 1;
  process_return_reason_code = some reason;
  process_return_reason_note = trimmed remark;
}

unfoldable pub write_return : Ctx → ℕ → ProcessReturnReason → Text → Action Db (Unit {0})
unfolding write_ready returned_case
write_return ctx id reason remark = do
  write_ready return_case ctx id (returned_case ctx reason remark)
  add_event ctx id "PROCESS_HANDOFF_RETURNED"
  append_audit ctx "PROCESS_HANDOFF_RETURNED" "DocCase" id

abbrev pub assert_reason : TransitionCheck → Action Db (Unit {0})
assert_reason allow = pure tt
assert_reason (deny reason) = raise (validation_error reason)

-- The transaction of `returnToDocumentation`.
unfoldable pub return_pending : Ctx → ℕ → ProcessReturnReason → Text → Action Db (Unit {0})
unfolding check_pending write_return
return_pending ctx id reason remark =
    transaction (check_pending return_case ctx id >>= λ _. write_return ctx id reason remark)

unfoldable pub return_to_documentation : Ctx → ℕ → ProcessReturnReason → Text → Action Db (Unit {0})
unfolding return_pending
return_to_documentation ctx id reason remark =
    assert_reason (check_return_reason (some reason) (some remark))
    >> return_pending ctx id reason remark
