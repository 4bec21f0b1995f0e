-- ===== src/Documentation.antt =====
-- The manager's override of a case's readiness: `managerOverride` of
-- src/services/documentation.service.ts.
pub mod Override
use hpx_eigen_s1_foundation.Common.{ℕ, true, Option, ◌∷◌, Text, trim}
use hpx_eigen_s1_foundation.Case.{DocCase, documentation_ready}
use hpx_eigen_s1_foundation.Handoff.Service.{is_blank}
use hpx_eigen_s1_foundation.Store.{
  Action, raise_if, modify, transaction, ◌>>=◌, ◌>>◌, Db, Ctx, load_case, update_case, add_event,
  append_audit, validation_error,
}

-- The data of the update: any status gives way.
unfoldable pub overridden_case : DocCase → DocCase
overridden_case row = record row { is_ready = true; status = documentation_ready }

unfoldable pub create_override : Ctx → ℕ → Text → Option ℕ → Action Db (Unit {0})
create_override ctx id reason expires_at = modify λ db. record db {
  overrides =
      record {
        tenant_id = ctx.tenant_id;
        case_id = id;
        overridden_by = ctx.user_id;
        reason = trim reason;
        expires_at = expires_at;
      }
      ∷ db.overrides;
}

unfoldable pub manager_override : Ctx → ℕ → Text → Option ℕ → Action Db (Unit {0})
unfolding overridden_case create_override
manager_override ctx id reason expires_at = do
  raise_if (is_blank reason) (validation_error "Override reason is required.")
  transaction do
    load_case ctx id
    create_override ctx id reason expires_at
    update_case id overridden_case
    add_event ctx id "MANAGER_OVERRIDE"
    append_audit ctx "DOC_MANAGER_OVERRIDE" "DocCase" id
