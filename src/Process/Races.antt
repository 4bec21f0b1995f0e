-- ===== src/Process/Races.antt =====
-- Two actors at one case: the conditional write of the second after that of the first.
use hpx_eigen_s1_foundation.Common.{
  ℕ, ◌≡◌, refl, Text, arith, List, update_many, count_where, count_where-update_many, sym, ◌∙◌,
}
use hpx_eigen_s1_foundation.Case.{DocCase, ProcessReturnReason}
use hpx_eigen_s1_foundation.Process.Rules.{accept, precondition, satisfies}
use hpx_eigen_s1_foundation.Process.Service.{
  is_ready_for, process_accepted_case, returned_case, write_ready, write_accept, write_return,
}
use hpx_eigen_s1_foundation.Store.{Action, err, conflict, Db, Ctx}

-- The writes of Process on a pending case, each with what its earlier read gave it.
pub data PendingWrite (ctx : Ctx) (id : ℕ) : Action Db (Unit {0}) → Type 0 where
  accepts : (c : DocCase) → PendingWrite ctx id (write_accept ctx id c)
  returns :
      (reason : ProcessReturnReason) (remark : Text)
      → PendingWrite ctx id (write_return ctx id reason remark)

-- Whether a write finds its row or not, the table is the conditionally updated one.
write_accept-cases :
    (ctx : Ctx) (id : ℕ) (c : DocCase) (db : Db)
    → (write_accept ctx id c db).1.cases
      ≡ update_many (is_ready_for accept ctx id) (process_accepted_case ctx c) db.cases
unfolding write_accept write_ready
write_accept-cases ctx id c db = ground arith

write_return-cases :
    (ctx : Ctx) (id : ℕ) (reason : ProcessReturnReason) (remark : Text) (db : Db)
    → (write_return ctx id reason remark db).1.cases
      ≡ update_many (is_ready_for accept ctx id) (returned_case ctx reason remark) db.cases
unfolding write_return write_ready is_ready_for precondition
write_return-cases ctx id reason remark db = ground arith

PendingWrite-clears :
    {ctx : Ctx} {id : ℕ} {m : Action Db (Unit {0})} (db : Db)
    → PendingWrite ctx id m
    → count_where (is_ready_for accept ctx id) (m db).1.cases ≡ 0
unfolding is_ready_for precondition satisfies process_accepted_case returned_case
PendingWrite-clears {ctx} {id} db (accepts c) = rw (write_accept-cases ctx id c db) (
    count_where-update_many (is_ready_for accept ctx id) (is_ready_for accept ctx id)
      (process_accepted_case ctx c) db.cases (λ x h. ground arith) (λ x h. h))
PendingWrite-clears {ctx} {id} db (returns reason remark) =
    rw (write_return-cases ctx id reason remark db) (
      count_where-update_many (is_ready_for accept ctx id) (is_ready_for accept ctx id)
        (returned_case ctx reason remark) db.cases (λ x h. ground arith) (λ x h. h))

PendingWrite-blocked :
    {ctx : Ctx} {id : ℕ} {m : Action Db (Unit {0})} (db : Db)
    → PendingWrite ctx id m
    → count_where (is_ready_for accept ctx id) db.cases ≡ 0
    → (m db).0 ≡ err conflict
unfolding is_ready_for write_accept write_return write_ready precondition
PendingWrite-blocked db (accepts c) gone = ground arith
PendingWrite-blocked db (returns reason remark) gone = ground arith

is_ready_for-tenant :
    (a b : Ctx) (id : ℕ) (cs : List DocCase)
    → a.tenant_id ≡ b.tenant_id
    → count_where (is_ready_for accept a id) cs ≡ count_where (is_ready_for accept b id) cs
unfolding is_ready_for
is_ready_for-tenant a b id cs same = rw same refl

-- After one write of Process on a case, whether it won or lost, a write of Process on the same
-- case by a user of the same tenant, with whatever its earlier read gave it, ends in the conflict
-- error.
pub PendingWrite-conflict :
    {first second : Ctx} {id : ℕ} {m n : Action Db (Unit {0})} (db : Db)
    → first.tenant_id ≡ second.tenant_id
    → PendingWrite first id m
    → PendingWrite second id n
    → (n (m db).1).0 ≡ err conflict
PendingWrite-conflict {first} {second} {id} {m} db same w v =
    PendingWrite-blocked (m db).1 v
      (sym (is_ready_for-tenant first second id (m db).1.cases same) ∙ PendingWrite-clears db w)
