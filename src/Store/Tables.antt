-- ===== src/Store/Tables.antt =====
-- The rows (prisma/schema.prisma) and the queries on them. Of the events and the audit records only
-- the columns that say what was done to which row by whom are kept; the JSON payloads are left out.
use hpx_eigen_s1_foundation.Common.{
  ℕ, Bool, not, ◌&&◌, Option, List, ◌∷◌, String, Text, ◌==◌, is_some, find_first, update_many,
  count_where,
}
use hpx_eigen_s1_foundation.Case.{DocCase}
use hpx_eigen_s1_foundation.Store.Monad.{Action, ok, modify, resource_not_found, or_raise}

pub data LeadStage : Type 0 where
  new qualified interested follow_up call_back_requested call_not_received other : LeadStage
  disqualified contacted converted : LeadStage

pub record Lead : Type 0 where
  pub id : ℕ
  pub tenant_id : ℕ
  pub stage : LeadStage
  pub phone : Option Text
  pub deleted_at : Option ℕ

pub record CaseEvent : Type 0 where
  pub tenant_id : ℕ
  pub case_id : ℕ
  pub event_type : String
  pub actor_user_id : ℕ

pub record AuditEntry : Type 0 where
  pub tenant_id : ℕ
  pub event_type : String
  pub entity_type : String
  pub entity_id : ℕ
  pub actor_user_id : ℕ

pub record ManagerOverride : Type 0 where
  pub tenant_id : ℕ
  pub case_id : ℕ
  pub overridden_by : ℕ
  pub reason : Text
  pub expires_at : Option ℕ

pub data ContactChangeStatus : Type 0 where
  pending approved rejected : ContactChangeStatus

pub record ContactChangeRequest : Type 0 where
  pub id : ℕ
  pub tenant_id : ℕ
  pub case_id : ℕ
  pub new_phone : Text
  pub reason : Text
  pub status : ContactChangeStatus
  pub requested_by : ℕ
  pub approved_by : Option ℕ
  pub resolved_at : Option ℕ

pub record PortalSession : Type 0 where
  pub id : ℕ
  pub tenant_id : ℕ
  pub case_id : ℕ
  pub token_hash : Text
  pub expires_at : ℕ
  pub last_seen_at : Option ℕ
  pub revoked_at : Option ℕ

pub record PortalAuthAttempt : Type 0 where
  pub case_number : Text
  pub ip_address : Text
  pub succeeded : Bool
  pub attempted_at : ℕ
  pub tenant_id : Option ℕ
  pub case_id : Option ℕ

-- The rows of DocCaseNote and DocCaseDocument, as far as their publication goes.
pub record CaseItem : Type 0 where
  pub id : ℕ
  pub tenant_id : ℕ
  pub case_id : ℕ
  pub client_visible : Bool
  pub client_visible_at : Option ℕ
  pub deleted_at : Option ℕ

pub data MandateRequestStatus : Type 0 where
  pending_upload uploaded verified rejected expired superseded : MandateRequestStatus

pub record MandateRequest : Type 0 where
  pub id : ℕ
  pub tenant_id : ℕ
  pub case_id : ℕ
  pub status : MandateRequestStatus
  pub token_expires_at : ℕ

pub record Db : Type 0 where
  pub leads : List Lead
  pub cases : List DocCase
  pub events : List CaseEvent
  pub journal : List AuditEntry
  pub overrides : List ManagerOverride
  pub contact_requests : List ContactChangeRequest
  pub sessions : List PortalSession
  pub attempts : List PortalAuthAttempt
  pub notes : List CaseItem
  pub documents : List CaseItem
  pub mandate_requests : List MandateRequest

-- The caller of a service, and the instant of the call: every `new Date()` in one call reads it.
pub record Ctx : Type 0 where
  pub tenant_id : ℕ
  pub user_id : ℕ
  pub now : ℕ

-- `where: { id, tenantId, deletedAt: null }`
unfoldable pub is_live_case : ℕ → ℕ → DocCase → Bool
is_live_case tenant id c = c.id == id && c.tenant_id == tenant && not (is_some c.deleted_at)

abbrev pub has_id : ℕ → DocCase → Bool
has_id id c = c.id == id

unfoldable pub find_case : ℕ → ℕ → Db → Option DocCase
find_case tenant id db = find_first (is_live_case tenant id) db.cases

-- `loadCase`: the live case of the caller's tenant, or 404.
abbrev pub load_case : Ctx → ℕ → Action Db DocCase
load_case ctx id db = or_raise (find_case ctx.tenant_id id db) resource_not_found db

-- `docCase.update({ where: { id }, data })`. The callers have loaded the row in the same
-- transaction, so that the error of a missing row does not arise; the row that the source returns
-- is the one that `find_case` finds afterwards.
abbrev pub update_case : ℕ → (DocCase → DocCase) → Action Db (Unit {0})
update_case id data_of = modify λ db. record db { cases = update_many (has_id id) data_of db.cases }

-- `docCase.updateMany({ where, data })`, which returns the number of rows.
abbrev pub update_cases : (DocCase → Bool) → (DocCase → DocCase) → Action Db ℕ
update_cases p data_of db =
    (ok (count_where p db.cases), record db { cases = update_many p data_of db.cases })

-- `docCaseEvent.create`
abbrev pub add_event : Ctx → ℕ → String → Action Db (Unit {0})
add_event ctx id kind = modify λ db. record db {
  events =
      record {
        tenant_id = ctx.tenant_id;
        case_id = id;
        event_type = kind;
        actor_user_id = ctx.user_id;
      }
      ∷ db.events;
}

-- `audit.appendInTx` with `entityType` and `entityId`.
abbrev pub append_audit : Ctx → String → String → ℕ → Action Db (Unit {0})
append_audit ctx kind entity id = modify λ db. record db {
  journal =
      record {
        tenant_id = ctx.tenant_id;
        event_type = kind;
        entity_type = entity;
        entity_id = id;
        actor_user_id = ctx.user_id;
      }
      ∷ db.journal;
}
