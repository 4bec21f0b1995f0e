-- ===== src/Portal/Contacts/Revocation.antt =====
-- The sessions of a case after a change of its contact and after the switch-off of its portal.
use hpx_eigen_s1_foundation.Common.{
  ℕ, refl, true, false, ◌≡◌, ◌≢◌, some, List, count_where, update_many, count_where-update_many,
  arith, ◌==◌, ◌&&◌, find_first, find_first_holds, find_first-update_many,
}
use hpx_eigen_s1_foundation.Portal.Activation.{
  is_unrevoked, revoke_case_sessions, revoked_at_now, disable_portal,
}
use hpx_eigen_s1_foundation.Portal.Contacts.{
  approve_contact_change, find_request, resolve_request, resolved_request, is_pending,
}
use hpx_eigen_s1_foundation.Store.{
  ok, is_ok, Db, Ctx, PortalSession, ContactChangeRequest, ContactChangeStatus,
}

revoked-gone :
    (ctx : Ctx) (id : ℕ) (ss : List PortalSession)
    → count_where (is_unrevoked id) (update_many (is_unrevoked id) (revoked_at_now ctx) ss) ≡ 0
unfolding is_unrevoked revoked_at_now
revoked-gone ctx id ss =
    count_where-update_many (is_unrevoked id) (is_unrevoked id) (revoked_at_now ctx) ss
      (λ x h. ground arith) (λ x h. h)

find_request-resolved :
    (ctx : Ctx) (id : ℕ) (db : Db) {r : ContactChangeRequest}
    → find_request ctx id db ≡ some r
    → find_first
        (λ x. x.id == id && x.tenant_id == ctx.tenant_id)
        (update_many
          (λ x. x.id == id)
          (resolved_request ctx ContactChangeStatus.approved)
          db.contact_requests)
      ≡ some (record r {
        status = ContactChangeStatus.approved;
        approved_by = some ctx.user_id;
        resolved_at = some ctx.now;
      })
unfolding find_request resolved_request
find_request-resolved ctx id db {r} found =
    find_first-update_many (λ x. x.id == id && x.tenant_id == ctx.tenant_id) (λ x. x.id == id)
      (resolved_request ctx ContactChangeStatus.approved) db.contact_requests (λ x e. refl) found
      (ground (
        arith,
        find_first_holds (λ x. x.id == id && x.tenant_id == ctx.tenant_id) db.contact_requests
            {a = r} found,
      ))

-- An approval that succeeds resolves a pending request of somebody else: the request reads APPROVED
-- by the caller at this instant and is otherwise as it was, and no session of its case is left
-- unrevoked.
pub approve_contact_change-revokes :
    (ctx : Ctx) (id : ℕ) (db : Db) (r : ContactChangeRequest)
    → find_request ctx id db ≡ some r
    → is_ok (approve_contact_change ctx id db).0 ≡ true
    → (is_pending r.status ≡ true)
      × (r.requested_by ≢ ctx.user_id)
      × (find_request ctx id (approve_contact_change ctx id db).1
          ≡ some (record r {
            status = ContactChangeStatus.approved;
            approved_by = some ctx.user_id;
            resolved_at = some ctx.now;
          }))
      × (count_where (is_unrevoked r.case_id) (approve_contact_change ctx id db).1.sessions ≡ 0)
unfolding approve_contact_change resolve_request revoke_case_sessions
approve_contact_change-revokes ctx id db r found good =
    let resolved = find_request-resolved ctx id db found in
    (
      ground arith,
      ground arith,
      unfold find_request in ground arith,
      ground (arith, revoked-gone ctx r.case_id db.sessions),
    )

-- Switching a portal off that was on revokes every session of the case.
pub disable_portal-revokes :
    (ctx : Ctx) (id : ℕ) (db : Db)
    → (disable_portal ctx id db).0 ≡ ok false
    → count_where (is_unrevoked id) (disable_portal ctx id db).1.sessions ≡ 0
unfolding disable_portal revoke_case_sessions
disable_portal-revokes ctx id db off = ground (arith, revoked-gone ctx id db.sessions)
