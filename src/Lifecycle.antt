-- ===== src/Lifecycle.antt =====
-- Closing a case without documents, and reopening it (src/services/case-lifecycle.service.ts).
pub mod Close
pub mod Tables
use hpx_eigen_s1_foundation.Common.{
  ℕ, Text, codes, Bool, true, false, not, ◌&&◌, Option, none, some, List, [], ◌∷◌, ◌==◌, is_some,
  if◌then◌else◌, keep, update_many, get_or_else,
}
use hpx_eigen_s1_foundation.Case.{
  DocCase, DocCaseStatus, is_status, has_status, incoming, active, closed_no_docs,
}
use hpx_eigen_s1_foundation.Portal.Activation.{disable_portal}
use hpx_eigen_s1_foundation.Store.{
  Action, Result, ok, err, pure, raise, gets, or_raise, raise_if, modify, transaction, ◌>>=◌, ◌>>◌,
  Db, Ctx, MandateRequest, MandateRequestStatus, find_case, load_case, is_live_case, update_cases,
  add_event, append_audit, business_rule_violation,
}

pub data CaseClosedReason : Type 0 where
  client_failed_docs client_unresponsive duplicate_case firm_decision : CaseClosedReason

abbrev pub reason_text : CaseClosedReason → Text
reason_text client_failed_docs = codes "CLIENT_FAILED_DOCS"
reason_text client_unresponsive = codes "CLIENT_UNRESPONSIVE"
reason_text duplicate_case = codes "DUPLICATE_CASE"
reason_text firm_decision = codes "FIRM_DECISION"

-- What both calls answer: the id, the status and the instant of the change.
pub record LifecycleAnswer : Type 0 where
  pub case_id : ℕ
  pub status : DocCaseStatus
  pub changed_at : ℕ

abbrev pub closable_statuses : List DocCaseStatus
closable_statuses = incoming ∷ active ∷ []

unfoldable pub can_close : Ctx → ℕ → DocCase → Bool
can_close ctx id c =
    is_live_case ctx.tenant_id id c
    && has_status closable_statuses c.status
    && not (is_some c.closed_at)

unfoldable pub closed_case : Ctx → CaseClosedReason → DocCase → DocCase
closed_case ctx reason row = record row {
  status = closed_no_docs;
  closed_at = some ctx.now;
  closed_reason = some (reason_text reason);
  closed_by_user_id = some ctx.user_id;
  manager_review_required = false;
}

abbrev pub is_pending_upload : MandateRequestStatus → Bool
is_pending_upload MandateRequestStatus.pending_upload = true
is_pending_upload _ = false

-- `where: { caseId, tenantId, status: PENDING_UPLOAD }`
unfoldable pub is_open_request : Ctx → ℕ → MandateRequest → Bool
is_open_request ctx id r =
    r.case_id == id && r.tenant_id == ctx.tenant_id && is_pending_upload r.status

unfoldable pub superseded_request : MandateRequest → MandateRequest
superseded_request r = record r { status = MandateRequestStatus.superseded }

-- The loop over the pending requests: an event and an audit record for each.
unfoldable pub report_superseded : Ctx → ℕ → List MandateRequest → Action Db (Unit {0})
report_superseded ctx id [] = pure tt
report_superseded ctx id (r ∷ rs) = do
  add_event ctx id "MANDATE_SUPERSEDED"
  append_audit ctx "MANDATE_SUPERSEDED" "MandateRequest" r.id
  report_superseded ctx id rs

-- D5: the open upload links of the case. The update runs also when no request is pending, where it
-- writes nothing.
unfoldable pub supersede_requests : Ctx → ℕ → Action Db (Unit {0})
unfolding is_open_request superseded_request report_superseded
supersede_requests ctx id = do
  pending ← gets λ db. keep (is_open_request ctx id) db.mandate_requests
  modify λ db. record db {
    mandate_requests = update_many (is_open_request ctx id) superseded_request db.mandate_requests;
  }
  report_superseded ctx id pending

-- No row was closed: the case is missing, closed already, or in another status.
unfoldable pub explain_close : ℕ → DocCase → Action Db LifecycleAnswer
explain_close id c = elim c.closed_at [
  | some at ↦ pure (record { case_id = id; status = c.status; changed_at = at })
  | none ↦ raise (business_rule_violation "The case cannot be closed without documentation.")
]

-- What follows the switch-off of the portal.
unfoldable pub report_close : Ctx → ℕ → Action Db LifecycleAnswer
unfolding supersede_requests
report_close ctx id = do
  updated ← load_case ctx id
  append_audit ctx "CASE_CLOSED_NO_DOCS" "DocCase" id
  supersede_requests ctx id
  pure (record {
    case_id = id;
    status = updated.status;
    changed_at = get_or_else updated.closed_at ctx.now;
  })

unfoldable pub finish_close : Ctx → ℕ → Action Db LifecycleAnswer
unfolding disable_portal report_close
finish_close ctx id = disable_portal ctx id >> report_close ctx id

unfoldable pub close_without_docs : Ctx → ℕ → CaseClosedReason → Action Db LifecycleAnswer
unfolding can_close closed_case explain_close finish_close
close_without_docs ctx id reason = transaction do
  count ← update_cases (can_close ctx id) (closed_case ctx reason)
  if count == 0 then (load_case ctx id >>= explain_close id) else finish_close ctx id

unfoldable pub can_reopen : Ctx → ℕ → DocCase → Bool
can_reopen ctx id c = is_live_case ctx.tenant_id id c && is_status c.status closed_no_docs

unfoldable pub reopened_case : Ctx → DocCase → DocCase
reopened_case ctx row = record row {
  status = incoming;
  reopened_at = some ctx.now;
  reopened_by_user_id = some ctx.user_id;
  closed_at = none;
  closed_reason = none;
  closed_by_user_id = none;
}

unfoldable pub finish_reopen : Ctx → ℕ → Action Db LifecycleAnswer
finish_reopen ctx id = do
  updated ← load_case ctx id
  append_audit ctx "CASE_REOPENED" "DocCase" id
  pure (record {
    case_id = id;
    status = updated.status;
    changed_at = get_or_else updated.reopened_at ctx.now;
  })

unfoldable pub reopen_case : Ctx → ℕ → Action Db LifecycleAnswer
unfolding can_reopen reopened_case finish_reopen
reopen_case ctx id = transaction do
  count ← update_cases (can_reopen ctx id) (reopened_case ctx)
  if count == 0
      then (load_case ctx id
          >> raise (business_rule_violation "Only CLOSED_NO_DOCS cases can be reopened."))
      else finish_reopen ctx id
