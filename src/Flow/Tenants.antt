-- ===== src/Flow/Tenants.antt =====
-- What a call of one tenant does to the cases of the others.
use hpx_eigen_s1_foundation.Common.{
  ℕ, refl, inl, inr, update_many, arith, Text, keep, some, List, ◌≡◌, ap, ◌∙◌, not, ◌==◌,
  find_first, find_first_holds, String, Bool, true, false,
}
use hpx_eigen_s1_foundation.Case.{DocCaseStatus, incoming, DocCase}
use hpx_eigen_s1_foundation.Flow.{
  Step, accepts, rejects, returns, resends, clears_review, transfers, process_accepts,
  process_returns, closes, reopens,
}
use hpx_eigen_s1_foundation.Handoff.Effects.{
  accept_handoff-Moves, reject_handoff-Moves, return_after_acceptance-Moves,
  clear_manager_review-Moves, resend_handoff-cases,
}
use hpx_eigen_s1_foundation.Handoff.Service.{
  accept_handoff, reject_handoff, return_after_acceptance, clear_manager_review, resend_handoff,
  accepted_case, sent_back_case, resent_case, reviewed_case,
}
use hpx_eigen_s1_foundation.Lifecycle.{
  close_without_docs, reopen_case, CaseClosedReason, can_close, closed_case, can_reopen,
  reopened_case,
}
use hpx_eigen_s1_foundation.Lifecycle.Close.{close_without_docs-cases, reopen_case-cases}
use hpx_eigen_s1_foundation.Portal.Activation.{can_disable, disabled_case}
use hpx_eigen_s1_foundation.Process.Effects.{
  accept_for_process-Moves, transfer_to_process-Moves, return_to_documentation-Moves,
}
use hpx_eigen_s1_foundation.Process.Service.{
  transferred_case, process_accepted_case, returned_case, transfer_to_process, accept_for_process,
  return_to_documentation, is_ready_for,
}
use hpx_eigen_s1_foundation.Store.{Db, Ctx, find_case, Result, has_id, is_live_case}
use hpx_eigen_s1_foundation.Store.Keys.{HasUniqueKeys, keep-update_many, keep-update_by_key}
use hpx_eigen_s1_foundation.Store.Moves.{Moves, Moves-outcome}
use hpx_eigen_s1_foundation.Process.Rules.{ProcessHandoffAction, transfer, accept, return_case}

-- The cases that do not belong to a tenant.
pub foreign_cases : ℕ → List DocCase → List DocCase
foreign_cases tenant cs = keep (λ c. not (c.tenant_id == tenant)) cs

is_live_case-id : (tenant id : ℕ) (c : DocCase) → is_live_case tenant id c ≡ true → c.id ≡ id
unfolding is_live_case
is_live_case-id tenant id c live = ground arith

is_live_case-own :
    (tenant id : ℕ) (c : DocCase)
    → is_live_case tenant id c ≡ true
    → not (c.tenant_id == tenant) ≡ false
unfolding is_live_case
is_live_case-own tenant id c live = ground arith

by_id-foreign :
    (tenant id : ℕ) (f : DocCase → DocCase) (cs : List DocCase) {c : DocCase}
    → ((x : DocCase) → (f x).tenant_id ≡ x.tenant_id)
    → HasUniqueKeys (λ x. x.id) cs
    → find_first (is_live_case tenant id) cs ≡ some c
    → foreign_cases tenant (update_many (has_id id) f cs) ≡ foreign_cases tenant cs
unfolding foreign_cases
by_id-foreign tenant id f cs {c} same u found =
    keep-update_by_key (λ x. x.id) (is_live_case tenant id) id (is_live_case-id tenant id)
      (λ x. not (x.tenant_id == tenant)) f cs (λ x. ap (λ t. not (t == tenant)) (same x)) u found
      (is_live_case-own tenant id c (find_first_holds (is_live_case tenant id) cs found))

own_rows-foreign :
    (tenant id : ℕ) (rows : DocCase → Bool) (f : DocCase → DocCase) (cs : List DocCase)
    → ((x : DocCase) → (f x).tenant_id ≡ x.tenant_id)
    → ((x : DocCase) → rows x ≡ true → is_live_case tenant id x ≡ true)
    → foreign_cases tenant (update_many rows f cs) ≡ foreign_cases tenant cs
unfolding foreign_cases
own_rows-foreign tenant id rows f cs same own =
    keep-update_many (λ x. not (x.tenant_id == tenant)) rows f cs
      (λ x. ap (λ t. not (t == tenant)) (same x)) (λ x h. is_live_case-own tenant id x (own x h))

module _ (ctx : Ctx) (id : ℕ) (event audit : String) (Guard : DocCase → Type 0)
    (write : DocCase → DocCase → DocCase) (db : Db) (r : Result (Unit {0}) × Db)
    (same : (c x : DocCase) → (write c x).tenant_id ≡ x.tenant_id) where
  Moves-foreign :
      Moves ctx id (has_id id) event audit Guard write db r
      → HasUniqueKeys (λ x. x.id) db.cases
      → foreign_cases ctx.tenant_id r.1.cases ≡ foreign_cases ctx.tenant_id db.cases
  unfolding find_case
  Moves-foreign moved u =
      elim (Moves-outcome ctx id (has_id id) event audit Guard write db r moved) [
        | inl kept ↦ rw kept refl
        | inr (c, found, guard, w) ↦
            rw w (by_id-foreign ctx.tenant_id id (write c) db.cases (same c) u found)
      ]

  Moves-foreign_if :
      (rows : DocCase → Bool)
      → Moves ctx id rows event audit Guard write db r
      → ((x : DocCase) → rows x ≡ true → is_live_case ctx.tenant_id id x ≡ true)
      → foreign_cases ctx.tenant_id r.1.cases ≡ foreign_cases ctx.tenant_id db.cases
  Moves-foreign_if rows moved own =
      elim (Moves-outcome ctx id rows event audit Guard write db r moved) [
        | inl kept ↦ rw kept refl
        | inr (c, found, guard, w) ↦
            rw w (own_rows-foreign ctx.tenant_id id rows (write c) db.cases (same c) own)
      ]

is_ready_for-own :
    (a : ProcessHandoffAction) (ctx : Ctx) (id : ℕ) (x : DocCase)
    → is_ready_for a ctx id x ≡ true
    → is_live_case ctx.tenant_id id x ≡ true
unfolding is_ready_for
is_ready_for-own a ctx id x ready = ground arith

can_close-foreign :
    (ctx : Ctx) (id : ℕ) (reason : CaseClosedReason) (cs : List DocCase)
    → foreign_cases ctx.tenant_id (update_many (can_close ctx id) (closed_case ctx reason) cs)
      ≡ foreign_cases ctx.tenant_id cs
unfolding can_close closed_case
can_close-foreign ctx id reason cs =
    own_rows-foreign ctx.tenant_id id (can_close ctx id) (closed_case ctx reason) cs (λ x. refl)
      (λ x h. ground arith)

close_without_docs-foreign :
    (ctx : Ctx) (id : ℕ) (reason : CaseClosedReason) (db : Db)
    → foreign_cases ctx.tenant_id (close_without_docs ctx id reason db).1.cases
      ≡ foreign_cases ctx.tenant_id db.cases
unfolding can_disable disabled_case
close_without_docs-foreign ctx id reason db = elim (close_without_docs-cases ctx id reason db) [
  | inl kept ↦ rw kept refl
  | inr (inl closed) ↦ rw closed (can_close-foreign ctx id reason db.cases)
  | inr (inr disabled) ↦ rw disabled (
      own_rows-foreign ctx.tenant_id id (can_disable ctx id) disabled_case
        (update_many (can_close ctx id) (closed_case ctx reason) db.cases) (λ x. refl)
        (λ x h. ground arith)
      ∙ can_close-foreign ctx id reason db.cases)
]

reopen_case-foreign :
    (ctx : Ctx) (id : ℕ) (db : Db)
    → foreign_cases ctx.tenant_id (reopen_case ctx id db).1.cases
      ≡ foreign_cases ctx.tenant_id db.cases
unfolding can_reopen reopened_case
reopen_case-foreign ctx id db = elim (reopen_case-cases ctx id db) [
  | inl kept ↦ rw kept refl
  | inr reopened ↦ rw reopened (
      own_rows-foreign ctx.tenant_id id (can_reopen ctx id) (reopened_case ctx) db.cases (λ x. refl)
        (λ x h. ground arith))
]

resend_handoff-foreign :
    (ctx : Ctx) (id : ℕ) (resolution : Text) (db : Db)
    → HasUniqueKeys (λ x. x.id) db.cases
    → foreign_cases ctx.tenant_id (resend_handoff ctx id resolution db).1.cases
      ≡ foreign_cases ctx.tenant_id db.cases
unfolding find_case resent_case
resend_handoff-foreign ctx id resolution db u = elim (resend_handoff-cases ctx id resolution db) [
  | inl kept ↦ rw kept refl
  | inr (c, lead, found, legal, w) ↦
      rw w (by_id-foreign ctx.tenant_id id (resent_case ctx lead c) db.cases (λ x. refl) u found)
]

-- A call of the handoff service (confirmHandoff apart), of the handover to Process or of the
-- lifecycle service leaves the cases of all tenants but the caller's as they are, provided that no
-- two cases have one id.
pub Step-foreign_cases :
    {ctx : Ctx} {db next : Db}
    → Step ctx db next
    → HasUniqueKeys (λ x. x.id) db.cases
    → foreign_cases ctx.tenant_id next.cases ≡ foreign_cases ctx.tenant_id db.cases
unfolding accepted_case sent_back_case reviewed_case transferred_case process_accepted_case
    returned_case
Step-foreign_cases (accepts ctx id {db}) u =
    Moves-foreign ctx id _ _ _ (accepted_case ctx) db (accept_handoff ctx id db) (λ c x. refl)
      (accept_handoff-Moves ctx id db) u
Step-foreign_cases (rejects ctx id reason remark {db}) u =
    Moves-foreign ctx id _ _ _ (sent_back_case ctx incoming reason remark) db
      (reject_handoff ctx id reason remark db) (λ c x. refl)
      (reject_handoff-Moves ctx id db reason remark) u
Step-foreign_cases (returns ctx id reason remark {db}) u =
    Moves-foreign ctx id _ _ _ (sent_back_case ctx DocCaseStatus.returned reason remark) db
      (return_after_acceptance ctx id reason remark db) (λ c x. refl)
      (return_after_acceptance-Moves ctx id db reason remark) u
Step-foreign_cases (resends ctx id resolution {db}) u =
    resend_handoff-foreign ctx id resolution db u
Step-foreign_cases (clears_review ctx id remark {db}) u =
    Moves-foreign ctx id _ _ _ (λ _. reviewed_case ctx) db (clear_manager_review ctx id remark db)
      (λ c x. refl) (clear_manager_review-Moves ctx id db remark) u
Step-foreign_cases (transfers ctx id remarks {db}) u =
    Moves-foreign_if ctx id _ _ _ (λ _. transferred_case ctx remarks) db
      (transfer_to_process ctx id remarks db) (λ c x. refl) _
      (transfer_to_process-Moves ctx id db remarks) (is_ready_for-own transfer ctx id)
Step-foreign_cases (process_accepts ctx id {db}) u =
    Moves-foreign_if ctx id _ _ _ (process_accepted_case ctx) db (accept_for_process ctx id db)
      (λ c x. refl) _ (accept_for_process-Moves ctx id db) (is_ready_for-own accept ctx id)
Step-foreign_cases (process_returns ctx id reason remark {db}) u =
    Moves-foreign_if ctx id _ _ _ (λ _. returned_case ctx reason remark) db
      (return_to_documentation ctx id reason remark db) (λ c x. refl) _
      (return_to_documentation-Moves ctx id db reason remark) (is_ready_for-own return_case ctx id)
Step-foreign_cases (closes ctx id reason {db}) u = close_without_docs-foreign ctx id reason db
Step-foreign_cases (reopens ctx id {db}) u = reopen_case-foreign ctx id db
