-- ===== src/Portal/Activation.antt =====
-- Publishing to the client and the switch of the portal: `setNoteVisibility`,
-- `setDocumentVisibility`, `reconcilePortalActivation`, `enablePortalInTx`, `disablePortalInTx` and
-- `activatePortal` of src/services/portal.service.ts.
use hpx_eigen_s1_foundation.Common.{
  ℕ, ◌+◌, Bool, true, false, not, ◌&&◌, Option, none, some, List, ◌==◌, is_some, ltb, if◌then◌else◌,
  find_first, update_many, count_where, get_or_else,
}
use hpx_eigen_s1_foundation.Case.{DocCase, is_status, active}
use hpx_eigen_s1_foundation.Portal.Rules.{is_set}
use hpx_eigen_s1_foundation.Store.{
  Action, ok, pure, raise, gets, or_raise, modify, transaction, ◌>>=◌, ◌>>◌, Db, Ctx, CaseItem,
  PortalSession, find_case, is_live_case, update_case, update_cases, add_event, append_audit,
  resource_not_found, business_rule_violation, validation_error,
}

pub data ActivationType : Type 0 where
  manual auto : ActivationType

-- `{ alreadyEnabled, portalEnabledAt }`
pub record EnableResult : Type 0 where
  pub already_enabled : Bool
  pub portal_enabled_at : ℕ

-- The condition of the enabling update.
unfoldable pub can_enable : Ctx → ℕ → DocCase → Bool
can_enable ctx id c =
    is_live_case ctx.tenant_id id c
    && not (is_some c.portal_enabled_at)
    && is_status c.status active
    && is_some c.portal_phone_last4

unfoldable pub enabled_case : Ctx → DocCase → DocCase
enabled_case ctx row = record row { portal_enabled_at = some ctx.now }

unfoldable pub enabled_since : ℕ → Option DocCase → ℕ
enabled_since now none = now
enabled_since now (some c) = get_or_else c.portal_enabled_at now

abbrev pub activation_event :
    ActivationType → Action Db (Unit {0}) → Action Db (Unit {0}) → Action Db (Unit {0})
activation_event manual a b = a
activation_event auto a b = b

unfoldable pub enable_portal : Ctx → ℕ → ActivationType → Action Db EnableResult
unfolding can_enable enabled_case enabled_since
enable_portal ctx id kind = do
  count ← update_cases (can_enable ctx id) (enabled_case ctx)
  if count == 1
      then (do
        activation_event kind (append_audit ctx "PORTAL_ACTIVATED" "DocCase" id)
            (append_audit ctx "PORTAL_AUTO_ACTIVATED" "DocCase" id)
        pure (record { already_enabled = false; portal_enabled_at = ctx.now }))
      else (do
        existing ← gets (find_case ctx.tenant_id id)
        pure
            (record { already_enabled = true; portal_enabled_at = enabled_since ctx.now existing }))

unfoldable pub can_disable : Ctx → ℕ → DocCase → Bool
can_disable ctx id c = is_live_case ctx.tenant_id id c && is_some c.portal_enabled_at

unfoldable pub disabled_case : DocCase → DocCase
disabled_case row = record row { portal_enabled_at = none }

-- `portalSession.updateMany({ where: { caseId, revokedAt: null }, data: { revokedAt } })`
unfoldable pub is_unrevoked : ℕ → PortalSession → Bool
is_unrevoked id s = s.case_id == id && not (is_some s.revoked_at)

unfoldable pub revoked_at_now : Ctx → PortalSession → PortalSession
revoked_at_now ctx s = record s { revoked_at = some ctx.now }

unfoldable pub revoke_case_sessions : Ctx → ℕ → Action Db ℕ
unfolding is_unrevoked revoked_at_now
revoke_case_sessions ctx id db = (
  ok (count_where (is_unrevoked id) db.sessions),
  record db { sessions = update_many (is_unrevoked id) (revoked_at_now ctx) db.sessions },
)

-- `disablePortalInTx`, which returns `alreadyDisabled`.
unfoldable pub disable_portal : Ctx → ℕ → Action Db Bool
unfolding can_disable disabled_case revoke_case_sessions
disable_portal ctx id = do
  count ← update_cases (can_disable ctx id) disabled_case
  if count == 0 then pure true else (do
    revoke_case_sessions ctx id
    append_audit ctx "PORTAL_DEACTIVATED" "DocCase" id
    pure false)

-- `where: { caseId, clientVisible: true, deletedAt: null }`
unfoldable pub is_visible_item : ℕ → CaseItem → Bool
is_visible_item id x = x.case_id == id && x.client_visible && not (is_some x.deleted_at)

unfoldable pub visible_count : ℕ → Db → ℕ
visible_count id db =
    count_where (is_visible_item id) db.notes + count_where (is_visible_item id) db.documents

-- `docCase.findFirst({ where: { id, tenantId } })`, which finds a deleted case too
unfoldable pub find_any_case : ℕ → ℕ → Db → Option DocCase
find_any_case tenant id db = find_first (λ c. c.id == id && c.tenant_id == tenant) db.cases

-- `canActivate`
unfoldable pub can_activate : ℕ → DocCase → Bool
can_activate count c = ltb 0 count && is_set c.portal_phone_last4 && is_status c.status active

unfoldable pub switch_portal : Ctx → ℕ → Bool → Bool → Action Db (Unit {0})
unfolding enable_portal disable_portal
switch_portal ctx id can enabled =
    if can && not enabled
    then (enable_portal ctx id auto >> pure tt)
    else if not can && enabled
    then (disable_portal ctx id >> pure tt)
    else pure tt

unfoldable pub published_case : Ctx → DocCase → DocCase
published_case ctx row = record row { last_client_visible_publish_at = some ctx.now }

unfoldable pub reconcile_portal : Ctx → ℕ → Bool → Action Db (Unit {0})
unfolding switch_portal published_case visible_count can_activate find_any_case
reconcile_portal ctx id published = do
  c ← λ db. or_raise (find_any_case ctx.tenant_id id db) resource_not_found db
  count ← gets (visible_count id)
  switch_portal ctx id (can_activate count c) (is_some c.portal_enabled_at)
  if published
      then (do update_case id (published_case ctx); add_event ctx id "CLIENT_VISIBLE_PUBLISHED")
      else pure tt

-- `where: { id, tenantId, deletedAt: null }`
unfoldable pub find_item : Ctx → ℕ → List CaseItem → Option CaseItem
find_item ctx id items =
    find_first (λ x. x.id == id && x.tenant_id == ctx.tenant_id && not (is_some x.deleted_at)) items

unfoldable pub shown_item : Ctx → Bool → CaseItem → CaseItem
shown_item ctx visible x = record x {
  client_visible = visible;
  client_visible_at = if visible then some ctx.now else none;
}

unfoldable pub set_note_visibility : Ctx → ℕ → Bool → Action Db (Unit {0})
unfolding find_item shown_item reconcile_portal
set_note_visibility ctx note_id visible = transaction do
  item ← λ db. or_raise (find_item ctx note_id db.notes) resource_not_found db
  modify λ db. record db {
    notes = update_many (λ x. x.id == note_id) (shown_item ctx visible) db.notes;
  }
  reconcile_portal ctx item.case_id visible

unfoldable pub set_document_visibility : Ctx → ℕ → Bool → Action Db (Unit {0})
unfolding find_item shown_item reconcile_portal
set_document_visibility ctx document_id visible = transaction do
  item ← λ db. or_raise (find_item ctx document_id db.documents) resource_not_found db
  modify λ db. record db {
    documents = update_many (λ x. x.id == document_id) (shown_item ctx visible) db.documents;
  }
  reconcile_portal ctx item.case_id visible

-- The diagnosis of `activatePortal`, once the update has changed nothing.
unfoldable pub diagnose : DocCase → Action Db EnableResult
diagnose c = elim c.portal_enabled_at [
  | some since ↦ pure (record { already_enabled = true; portal_enabled_at = since })
  | none ↦
      if not (is_status c.status active)
      then raise (business_rule_violation "Case must be in ACTIVE status to activate portal.")
      else if not (is_set c.portal_phone_last4)
      then raise (validation_error "Case has no portal phone number set. Cannot activate portal.")
      else raise (business_rule_violation "Portal activation conditions not met.")
]

unfoldable pub activate_portal : Ctx → ℕ → Action Db EnableResult
unfolding enable_portal diagnose
activate_portal ctx id = transaction do
  result ← enable_portal ctx id manual
  if not result.already_enabled
      then pure result
      else (do c ← λ db. or_raise (find_case ctx.tenant_id id db) resource_not_found db; diagnose c)
