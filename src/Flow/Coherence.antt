-- ===== src/Flow/Coherence.antt =====
-- The agreement of a case's status with its place in the handover to Process, and how updates treat
-- it.
use hpx_eigen_s1_foundation.Common.{
  ℕ, Bool, true, not, ◌&&◌, ◌≡◌, some, List, All, find_first, update_many, arith, String, inl, inr,
}
use hpx_eigen_s1_foundation.Case.{
  DocCase, ProcessHandoffState, is_status, pending_process_review, transferred_to_process,
  pending_review,
}
use hpx_eigen_s1_foundation.Store.Keys.{
  HasUniqueKeys, HasUniqueKeys-update_many, update_many-All, update_many-keeps, find_first-All,
}
use hpx_eigen_s1_foundation.Store.Moves.{Moves, Moves-outcome}
use hpx_eigen_s1_foundation.Store.{Result, Db, Ctx, find_case, has_id, is_live_case}

-- A case is PENDING_PROCESS_REVIEW exactly while its handover is PENDING_REVIEW, and
-- TRANSFERRED_TO_PROCESS exactly while it is ACCEPTED.
unfoldable pub is_coherent : DocCase → Bool
is_coherent c = elim c.process_handoff_state [
  | pending_review ↦ is_status c.status pending_process_review
  | ProcessHandoffState.accepted ↦ is_status c.status transferred_to_process
  | _ ↦
      not (is_status c.status pending_process_review)
      && not (is_status c.status transferred_to_process)
]

-- No two cases have one id, and every case is coherent.
unfoldable pub IsSound : List DocCase → Type 0
IsSound cs = HasUniqueKeys (λ c. c.id) cs × All (λ c. is_coherent c ≡ true) cs

is_live_case-id : (tenant id : ℕ) (c : DocCase) → is_live_case tenant id c ≡ true → c.id ≡ id
unfolding is_live_case
is_live_case-id tenant id c live = ground arith

-- An update of one case by its id.
pub by_id-IsSound :
    (tenant id : ℕ) (f : DocCase → DocCase) (cs : List DocCase) {c : DocCase}
    → ((x : DocCase) → (f x).id ≡ x.id)
    → find_first (is_live_case tenant id) cs ≡ some c
    → (is_coherent c ≡ true → is_coherent (f c) ≡ true)
    → IsSound cs
    → IsSound (update_many (has_id id) f cs)
unfolding IsSound
by_id-IsSound tenant id f cs keeps found legal (u, h) = (
  HasUniqueKeys-update_many (λ x. x.id) (has_id id) f cs keeps u,
  update_many-All (λ x. x.id) (λ x. is_coherent x ≡ true) (is_live_case tenant id) id
      (is_live_case-id tenant id) f cs u found
      (legal (find_first-All (λ x. is_coherent x ≡ true) (is_live_case tenant id) cs h found)) h,
)

-- An update under a condition that each row meets by itself.
pub update_many-IsSound :
    (rows : DocCase → Bool) (f : DocCase → DocCase) (cs : List DocCase)
    → ((x : DocCase) → (f x).id ≡ x.id)
    → ((x : DocCase) → rows x ≡ true → is_coherent x ≡ true → is_coherent (f x) ≡ true)
    → IsSound cs
    → IsSound (update_many rows f cs)
unfolding IsSound
update_many-IsSound rows f cs keeps legal (u, h) = (
  HasUniqueKeys-update_many (λ x. x.id) rows f cs keeps u,
  update_many-keeps (λ x. is_coherent x ≡ true) rows f cs legal h,
)

module _ (ctx : Ctx) (id : ℕ) (rows : DocCase → Bool) (event audit : String)
    (Guard : DocCase → Type 0) (write : DocCase → DocCase → DocCase) (db : Db)
    (r : Result (Unit {0}) × Db) (keeps : (c x : DocCase) → (write c x).id ≡ x.id)
    (moved : Moves ctx id rows event audit Guard write db r) (sound : IsSound db.cases) where
  Moves-IsSound_write :
      ((c : DocCase)
        → find_case ctx.tenant_id id db ≡ some c
        → Guard c
        → IsSound (update_many rows (write c) db.cases))
      → IsSound r.1.cases
  Moves-IsSound_write legal = elim (Moves-outcome ctx id rows event audit Guard write db r moved) [
    | inl same ↦ rw same sound
    | inr (c, found, guard, w) ↦ rw w (legal c found guard)
  ]

  -- A move by a condition of the row.
  pub Moves-IsSound_if :
      ((c x : DocCase) → rows x ≡ true → is_coherent x ≡ true → is_coherent (write c x) ≡ true)
      → IsSound r.1.cases
  Moves-IsSound_if legal =
      Moves-IsSound_write
        (λ c found guard. update_many-IsSound rows (write c) db.cases (keeps c) (legal c) sound)

-- A move by the id of the loaded case.
pub Moves-IsSound :
    (ctx : Ctx) (id : ℕ) (event audit : String) (Guard : DocCase → Type 0)
    (write : DocCase → DocCase → DocCase) (db : Db) (r : Result (Unit {0}) × Db)
    → ((c x : DocCase) → (write c x).id ≡ x.id)
    → Moves ctx id (has_id id) event audit Guard write db r
    → IsSound db.cases
    → ((c : DocCase) → Guard c → is_coherent c ≡ true → is_coherent (write c c) ≡ true)
    → IsSound r.1.cases
unfolding find_case
Moves-IsSound ctx id event audit Guard write db r keeps moved sound legal =
    Moves-IsSound_write ctx id (has_id id) event audit Guard write db r keeps moved sound
      (λ c found guard.
        by_id-IsSound ctx.tenant_id id (write c) db.cases (keeps c) found (legal c guard) sound)
