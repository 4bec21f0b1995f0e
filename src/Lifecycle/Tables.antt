-- ===== src/Lifecycle/Tables.antt =====
-- What the parts of a close do to the tables of cases and of mandate requests.
use hpx_eigen_s1_foundation.Common.{
  ℕ, keep, true, ◌≡◌, refl, some, List, [], ◌∷◌, update_many, arith,
}
use hpx_eigen_s1_foundation.Case.{DocCase}
use hpx_eigen_s1_foundation.Lifecycle.{
  LifecycleAnswer, finish_close, report_close, is_open_request, superseded_request,
  supersede_requests, report_superseded,
}
use hpx_eigen_s1_foundation.Portal.Activation.{
  disable_portal, can_disable, disabled_case, revoke_case_sessions,
}
use hpx_eigen_s1_foundation.Store.{
  Result, ok, is_ok, Db, Ctx, MandateRequest, find_case, append_audit,
}

pub disable_portal-cases :
    (ctx : Ctx) (id : ℕ) (db : Db)
    → (disable_portal ctx id db).1.cases ≡ update_many (can_disable ctx id) disabled_case db.cases
unfolding disable_portal revoke_case_sessions
disable_portal-cases ctx id db = ground arith

pub disable_portal-requests :
    (ctx : Ctx) (id : ℕ) (db : Db)
    → (disable_portal ctx id db).1.mandate_requests ≡ db.mandate_requests
unfolding disable_portal revoke_case_sessions
disable_portal-requests ctx id db = ground arith

report_superseded-tables :
    (ctx : Ctx) (id : ℕ) (rs : List MandateRequest) (db : Db)
    → ((report_superseded ctx id rs db).0 ≡ ok tt)
      × ((report_superseded ctx id rs db).1.cases ≡ db.cases)
      × ((report_superseded ctx id rs db).1.mandate_requests ≡ db.mandate_requests)
unfolding report_superseded
report_superseded-tables ctx id [] db = (refl, refl, refl)
report_superseded-tables ctx id (r ∷ rs) db = report_superseded-tables ctx id rs _

supersede_requests-tables :
    (ctx : Ctx) (id : ℕ) (db : Db)
    → ((supersede_requests ctx id db).0 ≡ ok tt)
      × ((supersede_requests ctx id db).1.cases ≡ db.cases)
      × ((supersede_requests ctx id db).1.mandate_requests
          ≡ update_many (is_open_request ctx id) superseded_request db.mandate_requests)
unfolding supersede_requests
supersede_requests-tables ctx id db =
    report_superseded-tables ctx id (keep (is_open_request ctx id) db.mandate_requests) (record db {
      mandate_requests =
          update_many (is_open_request ctx id) superseded_request db.mandate_requests;
    })

disable_portal-is_ok : (ctx : Ctx) (id : ℕ) (db : Db) → is_ok (disable_portal ctx id db).0 ≡ true
unfolding disable_portal revoke_case_sessions
disable_portal-is_ok ctx id db = ground arith

-- What the end of `closeWithoutDocs` leaves of the tables.
unfoldable pub Closes : Ctx → ℕ → Db → Result LifecycleAnswer × Db → Type 0
Closes ctx id db (r, db') =
    (is_ok r ≡ true)
    × (db'.cases ≡ db.cases)
    × (db'.mandate_requests
        ≡ update_many (is_open_request ctx id) superseded_request db.mandate_requests)

report_close-Closes :
    (ctx : Ctx) (id : ℕ) (db : Db) {c : DocCase}
    → find_case ctx.tenant_id id db ≡ some c
    → Closes ctx id db (report_close ctx id db)
unfolding report_close Closes
report_close-Closes ctx id db {c} found = ground (
  arith,
  supersede_requests-tables ctx id (append_audit ctx "CASE_CLOSED_NO_DOCS" "DocCase" id db).1,
)

pub finish_close-tables :
    (ctx : Ctx) (id : ℕ) (db : Db) {c : DocCase}
    → find_case ctx.tenant_id id (disable_portal ctx id db).1 ≡ some c
    → Closes ctx id (disable_portal ctx id db).1 (finish_close ctx id db)
unfolding finish_close
finish_close-tables ctx id db {c} found = ground (
  arith,
  disable_portal-is_ok ctx id db,
  report_close-Closes ctx id (disable_portal ctx id db).1 {c = c},
)

pub report_close-cases :
    (ctx : Ctx) (id : ℕ) (db : Db) → (report_close ctx id db).1.cases ≡ db.cases
unfolding report_close
report_close-cases ctx id db = ground (
  arith,
  supersede_requests-tables ctx id (append_audit ctx "CASE_CLOSED_NO_DOCS" "DocCase" id db).1,
)

pub finish_close-cases :
    (ctx : Ctx) (id : ℕ) (db : Db)
    → (finish_close ctx id db).1.cases ≡ update_many (can_disable ctx id) disabled_case db.cases
unfolding finish_close
finish_close-cases ctx id db =
    ground (
      arith,
      disable_portal-cases ctx id db,
      report_close-cases ctx id (disable_portal ctx id db).1,
    )
