-- ===== src/Documentation/Override.antt =====
-- What an override does to a case that Process holds.
use hpx_eigen_s1_foundation.Common.{
  ℕ, ◌≡◌, ◌⊎◌, refl, true, false, Option, some, Text, arith, find_first-update_many,
  find_first_holds, update_many, trim, is_empty,
}
use hpx_eigen_s1_foundation.Case.{DocCase, ProcessHandoffState, pending_review}
use hpx_eigen_s1_foundation.Documentation.{manager_override, overridden_case, create_override}
use hpx_eigen_s1_foundation.Flow.Coherence.{is_coherent}
use hpx_eigen_s1_foundation.Handoff.Service.{is_blank}
use hpx_eigen_s1_foundation.Store.{Db, Ctx, find_case, has_id, is_live_case}

is_live_case-has_id :
    (tenant id : ℕ) (c : DocCase) → is_live_case tenant id c ≡ true → has_id id c ≡ true
unfolding is_live_case
is_live_case-has_id tenant id c live = ground arith

overridden_case-find :
    (ctx : Ctx) (id : ℕ) (db : Db) (c : DocCase)
    → find_case ctx.tenant_id id db ≡ some c
    → find_case ctx.tenant_id id
        (record db { cases = update_many (has_id id) overridden_case db.cases })
      ≡ some (overridden_case c)
unfolding find_case is_live_case overridden_case
overridden_case-find ctx id db c found =
    find_first-update_many (is_live_case ctx.tenant_id id) (has_id id) overridden_case db.cases
      (λ x h. refl) found
      (is_live_case-has_id ctx.tenant_id id c
        (find_first_holds (is_live_case ctx.tenant_id id) db.cases found))

manager_override-cases :
    (ctx : Ctx) (id : ℕ) (reason : Text) (expires_at : Option ℕ) (db : Db) (c : DocCase)
    → find_case ctx.tenant_id id db ≡ some c
    → is_empty (trim reason) ≡ false
    → (manager_override ctx id reason expires_at db).1.cases
      ≡ update_many (has_id id) overridden_case db.cases
unfolding manager_override create_override
manager_override-cases ctx id reason expires_at db c found given = rw given (ground arith)

-- An override of a case that Process reviews or owns succeeds in writing it, and leaves it with a
-- status that contradicts its place in the handover.
pub manager_override-incoherent :
    (ctx : Ctx) (id : ℕ) (reason : Text) (expires_at : Option ℕ) (db : Db) (c : DocCase)
    → find_case ctx.tenant_id id db ≡ some c
    → is_blank reason ≡ false
    → (c.process_handoff_state ≡ pending_review)
      ⊎ (c.process_handoff_state ≡ ProcessHandoffState.accepted)
    → (find_case ctx.tenant_id id (manager_override ctx id reason expires_at db).1
        ≡ some (overridden_case c))
      × (is_coherent (overridden_case c) ≡ false)
unfolding find_case is_coherent overridden_case
manager_override-incoherent ctx id reason expires_at db c found given held = (
  rw (manager_override-cases ctx id reason expires_at db c found given)
      (overridden_case-find ctx id db c found),
  ground arith,
)
