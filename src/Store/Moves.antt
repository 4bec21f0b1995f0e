-- ===== src/Store/Moves.antt =====
-- The shape of a transaction on one case: all of it, or nothing.
use hpx_eigen_s1_foundation.Common.{
  ℕ, ◌≡◌, refl, Bool, true, false, some, ◌∷◌, String, arith, ◌⊎◌, inl, inr, update_many,
}
use hpx_eigen_s1_foundation.Case.{DocCase}
use hpx_eigen_s1_foundation.Store.Monad.{ServiceError, Action, Result, ok, err, raise_if, ◌>>◌}
use hpx_eigen_s1_foundation.Store.Tables.{Db, Ctx, find_case}

-- `db` after the update of the `rows` that hold the case `id`, with its event and its audit record.
abbrev pub written : Ctx → ℕ → (DocCase → Bool) → String → String → (DocCase → DocCase) → Db → Db
written ctx id rows event audit data_of db = record db {
  cases = update_many rows data_of db.cases;
  events =
      record {
        tenant_id = ctx.tenant_id;
        case_id = id;
        event_type = event;
        actor_user_id = ctx.user_id;
      }
      ∷ db.events;
  journal =
      record {
        tenant_id = ctx.tenant_id;
        event_type = audit;
        entity_type = "DocCase";
        entity_id = id;
        actor_user_id = ctx.user_id;
      }
      ∷ db.journal;
}

-- How a call that began at `db` has ended. It succeeded: the live case `id` of the caller's tenant
-- satisfied `Guard`, and the case, one event and one audit record are written and nothing else. Or
-- it was refused: nothing is written, and there was no such case.
unfoldable pub Moves :
    {A : Type 0}
    → Ctx
    → ℕ
    → (DocCase → Bool)
    → String
    → String
    → (DocCase → Type 0)
    → (DocCase → DocCase → DocCase)
    → Db
    → Result A × Db
    → Type 0
Moves ctx id rows event audit Guard write db (ok _, db') =
    (c : DocCase) × (find_case ctx.tenant_id id db ≡ some c)
    × Guard c
    × (db' ≡ written ctx id rows event audit (write c) db)
Moves ctx id rows event audit Guard write db (err _, db') =
    (db' ≡ db) × ¬ ((c : DocCase) × (find_case ctx.tenant_id id db ≡ some c) × Guard c)

module _ {A : Type 0} (ctx : Ctx) (id : ℕ) (rows : DocCase → Bool) (event audit : String)
    (Guard : DocCase → Type 0) (write : DocCase → DocCase → DocCase) (db : Db) where
  -- What holds anyway may join the condition.
  pub add_fact :
      {Fact : Type 0} (r : Result A × Db)
      → Fact
      → Moves ctx id rows event audit Guard write db r
      → Moves ctx id rows event audit (λ c. Fact × Guard c) write db r
  unfolding Moves
  add_fact (ok a, db') fact (c, found, g, w) = (c, found, (fact, g), w)
  add_fact (err e, db') fact (same, never) = (same, λ (c, found, both). never (c, found, both.1))

  -- A move leaves the database alone or writes it.
  pub Moves-outcome :
      (r : Result A × Db)
      → Moves ctx id rows event audit Guard write db r
      → (r.1 ≡ db)
        ⊎ ((c : DocCase) × (find_case ctx.tenant_id id db ≡ some c)
            × Guard c
            × (r.1 ≡ written ctx id rows event audit (write c) db))
  unfolding Moves
  Moves-outcome (ok a, db') moved = inr moved
  Moves-outcome (err e, db') (same, never) = inl same

  -- A guard in front of a call joins the condition on the case.
  pub guarded-Moves :
      (b : Bool) (e : ServiceError) (m : Action Db A)
      → Moves ctx id rows event audit Guard write db (m db)
      → Moves ctx id rows event audit (λ c. (b ≡ false) × Guard c) write db ((raise_if b e >> m) db)
  unfolding Moves
  guarded-Moves true e m h = (refl, λ (c, found, both). ground arith)
  guarded-Moves false e m h = add_fact (m db) refl h
