-- ===== src/Handoff/Confirm/Laws.antt =====
-- The hand-off of a lead, the first time and again.
use hpx_eigen_s1_foundation.Common.{ℕ, ◌≡◌, false, Option, none, some, Text, arith, is_empty}
use hpx_eigen_s1_foundation.Case.{DocCase, ProcessHandoffState, incoming, handed_off}
use hpx_eigen_s1_foundation.Handoff.Service.{find_lead}
use hpx_eigen_s1_foundation.Handoff.Confirm.{confirm_handoff, find_case_of_lead}
use hpx_eigen_s1_foundation.Store.{ok, Db, Ctx, Lead, qualified}

-- Confirming a qualified lead whose live case has a case number succeeds and changes nothing.
pub confirm_handoff-again :
    (ctx : Ctx) (draw : ℕ → ℕ) (new_id lead_id : ℕ) (preset_id : Option ℕ) (db : Db) (lead : Lead)
    (c : DocCase) (n : Text)
    → find_lead ctx.tenant_id lead_id db ≡ some lead
    → lead.stage ≡ qualified
    → find_case_of_lead ctx.tenant_id lead_id db ≡ some c
    → c.case_number ≡ some n
    → is_empty n ≡ false
    → confirm_handoff ctx draw new_id lead_id preset_id db ≡ (ok tt, db)
unfolding confirm_handoff
confirm_handoff-again ctx draw new_id lead_id preset_id db lead c n found stage existing number
      given =
    ground arith

-- The case of a lead that was just handed over by the caller: in the inbox under its number, with the
-- lead's phone and the preset of now as its snapshots, and with nothing that a later call writes.
abbrev pub IsHandedOver : Ctx → ℕ → Lead → Option ℕ → Text → DocCase → Type 0
IsHandedOver ctx new_id lead preset_id n c =
    (c.id ≡ new_id)
    × (c.tenant_id ≡ ctx.tenant_id)
    × (c.case_number ≡ some n)
    × (c.preset_id ≡ preset_id)
    × (c.status ≡ incoming)
    × (c.handoff_state ≡ handed_off)
    × (c.handoff_at ≡ some ctx.now)
    × (c.handoff_by ≡ some ctx.user_id)
    × (c.handoff_phone_snapshot ≡ lead.phone)
    × (c.handoff_preset_snapshot ≡ preset_id)
    × (c.portal_phone_snapshot ≡ lead.phone)
    × (c.portal_enabled_at ≡ none)
    × (c.process_handoff_state ≡ ProcessHandoffState.none_yet)
    × (c.manager_review_required ≡ false)
    × (c.accepted_at ≡ none)
    × (c.returned_at ≡ none)
    × (c.return_count ≡ 0)
    × (c.transferred_at ≡ none)
    × (c.closed_at ≡ none)
    × (c.deleted_at ≡ none)
