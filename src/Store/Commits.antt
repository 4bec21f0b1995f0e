-- ===== src/Store/Commits.antt =====
-- What a caller observes of a transaction on one case, by reading the database back.
use hpx_eigen_s1_foundation.Common.{
  ℕ, ◌≡◌, ◌↔◌, refl, sym, ap, ◌∙◌, Bool, true, not, some, List, [], ◌∷◌, String, arith, ◌==◌, keep,
  update_many, find_first_holds, find_first-update_many,
}
use hpx_eigen_s1_foundation.Case.{DocCase}
use hpx_eigen_s1_foundation.Store.Monad.{Result, ok, err}
use hpx_eigen_s1_foundation.Store.Moves.{Moves}
use hpx_eigen_s1_foundation.Store.Tables.{Db, Ctx, find_case, is_live_case}

-- The cases but the one with the id.
unfoldable pub others : ℕ → List DocCase → List DocCase
others id cs = keep (λ c. not (c.id == id)) cs

-- `db` with these cases, one more event and one more audit record.
abbrev pub recorded : Ctx → ℕ → String → String → List DocCase → Db → Db
recorded ctx id event audit cs db = record db {
  cases = cs;
  events =
      record {
        tenant_id = ctx.tenant_id;
        case_id = id;
        event_type = event;
        actor_user_id = ctx.user_id;
      }
      ∷ db.events;
  journal =
      record {
        tenant_id = ctx.tenant_id;
        event_type = audit;
        entity_type = "DocCase";
        entity_id = id;
        actor_user_id = ctx.user_id;
      }
      ∷ db.journal;
}

-- How a call that began at `db` has ended. It succeeded: the live case `id` of the caller's tenant was
-- some `c` that satisfied `Guard`, it reads `after c` now, the other cases are as before, and one
-- event and one audit record were added and nothing else changed. Or it was refused: nothing changed,
-- and there was no such case.
unfoldable pub Commits :
    {A : Type 0}
    → Ctx
    → ℕ
    → String
    → String
    → (DocCase → Type 0)
    → (DocCase → DocCase)
    → Db
    → Result A × Db
    → Type 0
Commits ctx id event audit Guard after db (ok _, db') =
    (c : DocCase) × (find_case ctx.tenant_id id db ≡ some c)
    × Guard c
    × (find_case ctx.tenant_id id db' ≡ some (after c))
    × (others id db'.cases ≡ others id db.cases)
    × (db' ≡ recorded ctx id event audit db'.cases db)
Commits ctx id event audit Guard after db (err _, db') =
    (db' ≡ db) × ¬ ((c : DocCase) × (find_case ctx.tenant_id id db ≡ some c) × Guard c)

others-update_many :
    (id : ℕ) (rows : DocCase → Bool) (f : DocCase → DocCase) (cs : List DocCase)
    → ((x : DocCase) → rows x ≡ true → (x.id == id) ≡ true)
    → ((x : DocCase) → (f x).id ≡ x.id)
    → others id (update_many rows f cs) ≡ others id cs
unfolding others update_many
others-update_many id rows f [] own keeps = refl
others-update_many id rows f (x ∷ cs) own keeps =
    ground (arith, own x, keeps x, others-update_many id rows f cs own keeps)

module _ {A : Type 0} (ctx : Ctx) (id : ℕ) (rows : DocCase → Bool) (event audit : String)
    (Guard Condition : DocCase → Type 0) (write : DocCase → DocCase → DocCase)
    (after : DocCase → DocCase) (db : Db) where
  -- A move is observed as its update of the live case, if the update keeps the key of a row.
  pub Moves-Commits :
      (r : Result A × Db)
      → ((c : DocCase) → Guard c ↔ Condition c)
      → ((x : DocCase) → rows x ≡ true → (x.id == id) ≡ true)
      → ((c : DocCase) → is_live_case ctx.tenant_id id c ≡ true → Guard c → rows c ≡ true)
      → ((c x : DocCase) → (write c x).id ≡ x.id)
      → ((c x : DocCase)
          → is_live_case ctx.tenant_id id (write c x) ≡ is_live_case ctx.tenant_id id x)
      → ((c : DocCase) → write c c ≡ after c)
      → Moves ctx id rows event audit Guard write db r
      → Commits ctx id event audit Condition after db r
  unfolding Moves Commits find_case
  Moves-Commits (err e, db') same_guard own hit keeps live agrees (same, never) =
      (same, λ (c, found, g). never (c, found, (same_guard c).1 g))
  Moves-Commits (ok a, db') same_guard own hit keeps live agrees (c, found, g, w) =
      let holds = find_first_holds (is_live_case ctx.tenant_id id) db.cases found in
      let cases : db'.cases ≡ update_many rows (write c) db.cases = ap (λ d. d.cases) w in
      (
        c,
        found,
        (same_guard c).0 g,
        rw cases (
            find_first-update_many (is_live_case ctx.tenant_id id) rows (write c) db.cases
              (λ x h. live c x) found (hit c holds g)
            ∙ ap some (agrees c)),
        rw cases (others-update_many id rows (write c) db.cases own (keeps c)),
        w ∙ ap (λ cs. recorded ctx id event audit cs db) (sym cases),
      )
