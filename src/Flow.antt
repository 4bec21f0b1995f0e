-- ===== src/Flow.antt =====
-- The life of a case across the services: every call of the handoff (but confirmHandoff), of the
-- handover to Process and of the lifecycle service is a step of the database.
pub mod Coherence
pub mod Preserved
pub mod Tenants
use hpx_eigen_s1_foundation.Common.{ℕ, Option, Text}
use hpx_eigen_s1_foundation.Case.{HandoffReturnReason, ProcessReturnReason}
use hpx_eigen_s1_foundation.Handoff.Service.{
  accept_handoff, reject_handoff, return_after_acceptance, resend_handoff, clear_manager_review,
}
use hpx_eigen_s1_foundation.Lifecycle.{CaseClosedReason, close_without_docs, reopen_case}
use hpx_eigen_s1_foundation.Process.Service.{
  transfer_to_process, accept_for_process, return_to_documentation,
}
use hpx_eigen_s1_foundation.Store.{Db, Ctx}

-- One call, by the user of a context and at its instant, whether it succeeds or throws.
pub data Step : Ctx → Db → Db → Type 0 where
  accepts : (ctx : Ctx) (id : ℕ) {db : Db} → Step ctx db (accept_handoff ctx id db).1
  rejects :
      (ctx : Ctx) (id : ℕ) (reason : HandoffReturnReason) (remark : Text) {db : Db}
      → Step ctx db (reject_handoff ctx id reason remark db).1
  returns :
      (ctx : Ctx) (id : ℕ) (reason : HandoffReturnReason) (remark : Text) {db : Db}
      → Step ctx db (return_after_acceptance ctx id reason remark db).1
  resends :
      (ctx : Ctx) (id : ℕ) (resolution : Text) {db : Db}
      → Step ctx db (resend_handoff ctx id resolution db).1
  clears_review :
      (ctx : Ctx) (id : ℕ) (remark : Text) {db : Db}
      → Step ctx db (clear_manager_review ctx id remark db).1
  transfers :
      (ctx : Ctx) (id : ℕ) (remarks : Option Text) {db : Db}
      → Step ctx db (transfer_to_process ctx id remarks db).1
  process_accepts : (ctx : Ctx) (id : ℕ) {db : Db} → Step ctx db (accept_for_process ctx id db).1
  process_returns :
      (ctx : Ctx) (id : ℕ) (reason : ProcessReturnReason) (remark : Text) {db : Db}
      → Step ctx db (return_to_documentation ctx id reason remark db).1
  closes :
      (ctx : Ctx) (id : ℕ) (reason : CaseClosedReason) {db : Db}
      → Step ctx db (close_without_docs ctx id reason db).1
  reopens : (ctx : Ctx) (id : ℕ) {db : Db} → Step ctx db (reopen_case ctx id db).1

-- Any number of calls.
pub data Reaches : Db → Db → Type 0 where
  stays : {db : Db} → Reaches db db
  continues :
      {ctx : Ctx} {start db next : Db} → Reaches start db → Step ctx db next → Reaches start next
