-- ===== src/Lifecycle/Close.antt =====
-- What a close leaves of a case, of its portal and of its upload links.
use hpx_eigen_s1_foundation.Common.{
  ℕ, true, false, not, ◌&&◌, ◌≡◌, refl, ap, none, some, List, ◌==◌, is_some, if◌then◌else◌,
  find_first, update_many, count_where, arith, find_first-update_many, find_first-update_many_if,
  count_where-update_many, count_where-find_first, find_first_holds, ◌∙◌, ◌⊎◌,
}
use hpx_eigen_s1_foundation.Case.{DocCase, has_status, incoming, active, closed_no_docs}
use hpx_eigen_s1_foundation.Lifecycle.{
  CaseClosedReason, reason_text, close_without_docs, finish_close, explain_close, can_close,
  closed_case, closable_statuses, is_open_request, superseded_request, reopen_case, can_reopen,
  reopened_case, finish_reopen,
}
use hpx_eigen_s1_foundation.Portal.Activation.{can_disable, disabled_case}
use hpx_eigen_s1_foundation.Store.{
  is_ok, Db, Ctx, MandateRequest, find_case, is_live_case, load_case, ◌>>=◌,
}
use hpx_eigen_s1_foundation.Lifecycle.Tables.{
  disable_portal-cases, disable_portal-requests, finish_close-cases, finish_close-tables, Closes,
}

-- A live case that the switch-off passes over has no portal.
disabled_once :
    (ctx : Ctx) (id : ℕ) (c : DocCase)
    → is_live_case ctx.tenant_id id c ≡ true
    → (if can_disable ctx id c then disabled_case c else c) ≡ disabled_case c
unfolding can_disable disabled_case
disabled_once ctx id c live = ground arith

module _ (ctx : Ctx) (id : ℕ) (reason : CaseClosedReason) where
  is_live_case-closed_case :
      (c : DocCase)
      → is_live_case ctx.tenant_id id (closed_case ctx reason c) ≡ is_live_case ctx.tenant_id id c
  unfolding is_live_case closed_case
  is_live_case-closed_case c = refl

  find_case-closed :
      (cs : List DocCase) {c : DocCase}
      → find_first (is_live_case ctx.tenant_id id) cs ≡ some c
      → can_close ctx id c ≡ true
      → find_first (is_live_case ctx.tenant_id id) (
          update_many
            (can_disable ctx id)
            disabled_case
            (update_many (can_close ctx id) (closed_case ctx reason) cs))
        ≡ some (disabled_case (closed_case ctx reason c))
  unfolding is_live_case closed_case disabled_case
  find_case-closed cs {c} found closable =
      find_first-update_many_if (is_live_case ctx.tenant_id id) (can_disable ctx id) disabled_case
        (update_many (can_close ctx id) (closed_case ctx reason) cs) (λ x. refl)
        (find_first-update_many (is_live_case ctx.tenant_id id) (can_close ctx id)
          (closed_case ctx reason) cs (λ x h. refl) found closable)
      ∙ ap some (
          disabled_once ctx id (closed_case ctx reason c) (
            is_live_case-closed_case c ∙ find_first_holds (is_live_case ctx.tenant_id id) cs found))

can_close-counted :
    (ctx : Ctx) (id : ℕ) (db : Db) {c : DocCase}
    → find_case ctx.tenant_id id db ≡ some c
    → can_close ctx id c ≡ true
    → (count_where (can_close ctx id) db.cases == 0) ≡ false
unfolding find_case can_close
can_close-counted ctx id db {c} found closable =
    let counted =
      count_where-find_first (is_live_case ctx.tenant_id id)
        (λ x. has_status closable_statuses x.status && not (is_some x.closed_at)) db.cases {a = c}
        found in
    ground arith

superseded-gone :
    (ctx : Ctx) (id : ℕ) (rs : List MandateRequest)
    → count_where
        (is_open_request ctx id)
        (update_many (is_open_request ctx id) superseded_request rs)
      ≡ 0
unfolding is_open_request superseded_request
superseded-gone ctx id rs =
    count_where-update_many (is_open_request ctx id) (is_open_request ctx id) superseded_request rs
      (λ x h. ground arith) (λ x h. h)

-- The table with the case closed, before the rest of the call.
abbrev closed_db : Ctx → ℕ → CaseClosedReason → Db → Db
closed_db ctx id reason db = record db {
  cases = update_many (can_close ctx id) (closed_case ctx reason) db.cases;
}

close_without_docs-finishes :
    (ctx : Ctx) (id : ℕ) (reason : CaseClosedReason) (db : Db)
    → (count_where (can_close ctx id) db.cases == 0) ≡ false
    → is_ok (finish_close ctx id (closed_db ctx id reason db)).0 ≡ true
    → ((close_without_docs ctx id reason db).0
        ≡ (finish_close ctx id (closed_db ctx id reason db)).0)
      × ((close_without_docs ctx id reason db).1
          ≡ (finish_close ctx id (closed_db ctx id reason db)).1)
unfolding close_without_docs
close_without_docs-finishes ctx id reason db counted good = ground arith

-- The same, by the columns of closed_case and disabled_case.
closes_row :
    (ctx : Ctx) (id : ℕ) (reason : CaseClosedReason) (db : Db) (c : DocCase)
    → find_case ctx.tenant_id id db ≡ some c
    → can_close ctx id c ≡ true
    → (is_ok (close_without_docs ctx id reason db).0 ≡ true)
      × (find_case ctx.tenant_id id (close_without_docs ctx id reason db).1
          ≡ some (disabled_case (closed_case ctx reason c)))
      × (count_where
            (is_open_request ctx id)
            (close_without_docs ctx id reason db).1.mandate_requests
          ≡ 0)
unfolding find_case Closes
closes_row ctx id reason db c found closable =
    let closed = closed_db ctx id reason db in
    let tables = disable_portal-cases ctx id closed in
    let there = find_case-closed ctx id reason db.cases found closable in
    let (good, cases, requests) =
      finish_close-tables ctx id closed {c = disabled_case (closed_case ctx reason c)}
        (rw tables there) in
    let (answer, after) =
      close_without_docs-finishes ctx id reason db (can_close-counted ctx id db found closable)
        good in
    rw (answer, after, cases, requests, tables, disable_portal-requests ctx id closed)
      (good, there, superseded-gone ctx id db.mandate_requests)

can_close-open :
    (ctx : Ctx) (id : ℕ) (c : DocCase)
    → is_live_case ctx.tenant_id id c ≡ true
    → (c.status ≡ incoming) ⊎ (c.status ≡ active)
    → c.closed_at ≡ none
    → can_close ctx id c ≡ true
unfolding can_close
can_close-open ctx id c live open_status never = ground arith

-- A live case that is INCOMING or ACTIVE and was not closed before is closed: it reads CLOSED_NO_DOCS
-- with the reason, closed by the caller at this instant, under no review and with its portal off, and
-- is otherwise as it was; and no upload link of it is left open.
pub close_without_docs-closes :
    (ctx : Ctx) (id : ℕ) (reason : CaseClosedReason) (db : Db) (c : DocCase)
    → find_case ctx.tenant_id id db ≡ some c
    → (c.status ≡ incoming) ⊎ (c.status ≡ active)
    → c.closed_at ≡ none
    → (is_ok (close_without_docs ctx id reason db).0 ≡ true)
      × (find_case ctx.tenant_id id (close_without_docs ctx id reason db).1
          ≡ some (record c {
            status = closed_no_docs;
            closed_at = some ctx.now;
            closed_reason = some (reason_text reason);
            closed_by_user_id = some ctx.user_id;
            manager_review_required = false;
            portal_enabled_at = none;
          }))
      × (count_where
            (is_open_request ctx id)
            (close_without_docs ctx id reason db).1.mandate_requests
          ≡ 0)
unfolding closed_case disabled_case find_case
close_without_docs-closes ctx id reason db c found open_status never =
    closes_row ctx id reason db c found (
      can_close-open ctx id c (find_first_holds (is_live_case ctx.tenant_id id) db.cases found)
        open_status never)

explain_close-cases :
    (ctx : Ctx) (id : ℕ) (db : Db) → ((load_case ctx id >>= explain_close id) db).1.cases ≡ db.cases
unfolding explain_close
explain_close-cases ctx id db = ground arith

-- What a close can make of the table of cases.
pub close_without_docs-cases :
    (ctx : Ctx) (id : ℕ) (reason : CaseClosedReason) (db : Db)
    → ((close_without_docs ctx id reason db).1.cases ≡ db.cases)
      ⊎ (((close_without_docs ctx id reason db).1.cases
            ≡ update_many (can_close ctx id) (closed_case ctx reason) db.cases)
          ⊎ ((close_without_docs ctx id reason db).1.cases
              ≡ update_many
                  (can_disable ctx id)
                  disabled_case
                  (update_many (can_close ctx id) (closed_case ctx reason) db.cases)))
unfolding close_without_docs
close_without_docs-cases ctx id reason db = ground (
  arith,
  finish_close-cases ctx id (closed_db ctx id reason db),
  explain_close-cases ctx id (closed_db ctx id reason db),
)

-- What a reopening can make of it.
pub reopen_case-cases :
    (ctx : Ctx) (id : ℕ) (db : Db)
    → ((reopen_case ctx id db).1.cases ≡ db.cases)
      ⊎ ((reopen_case ctx id db).1.cases
          ≡ update_many (can_reopen ctx id) (reopened_case ctx) db.cases)
unfolding reopen_case finish_reopen
reopen_case-cases ctx id db = ground arith
