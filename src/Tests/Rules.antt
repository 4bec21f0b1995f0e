-- ===== src/Tests/Rules.antt =====
-- The pure rules at concrete inputs.
use hpx_eigen_s1_foundation.Common.{
  ℕ, ◌≤◌, ◌<◌, ◌≡◌, ◌↔◌, refl, some, none, codes, false, true, Text, length, trim, arith,
  if◌then◌else◌, ltb,
}
use hpx_eigen_s1_foundation.Case.{HandoffState, incoming, wrong_preset}
use hpx_eigen_s1_foundation.CaseNumber.{generate_case_number, is_valid_case_number}
use hpx_eigen_s1_foundation.CaseNumber.Mint.{generate_case_number-valid, mint_from, mint_from-fresh}
use hpx_eigen_s1_foundation.Handoff.Rules.{
  ResendContext, resend, allow, can_transition, check_resend_allowed,
}
use hpx_eigen_s1_foundation.Handoff.Rules.Laws.{
  Legal, IsProven, can_transition_iff, check_resend_allowed_iff,
}
use hpx_eigen_s1_foundation.Mandate.Rules.{
  sanitize_file_name, squeeze_dots, mask_reserved, is_reserved,
}
use hpx_eigen_s1_foundation.Mandate.Rules.Laws.{sanitize_file_name_safe, IsSafeAfter}

can_transition_iff_example :
    (can_transition resend incoming HandoffState.returned false ≡ allow)
    ↔ Legal resend incoming HandoffState.returned false
can_transition_iff_example = can_transition_iff resend incoming HandoffState.returned false

abbrev fixed_preset : ResendContext
fixed_preset = record {
  return_reason_code = some wrong_preset;
  resolution_note = codes "chose the right preset";
  phone_at_handoff = none;
  current_phone = none;
  has_approved_contact_override = false;
  preset_at_handoff = some 3;
  current_preset = some 4;
}

check_resend_allowed_iff_example : (check_resend_allowed fixed_preset ≡ allow) ↔ (
    (10 ≤ length (trim fixed_preset.resolution_note)) × IsProven (some wrong_preset) fixed_preset)
check_resend_allowed_iff_example = check_resend_allowed_iff fixed_preset

abbrev draws : ℕ → ℕ
draws i = if ltb i 8 then i else 3

draws_bound : (i : ℕ) → draws i < 32
draws_bound i = ground arith

generate_case_number-valid_example : is_valid_case_number (generate_case_number draws 0) ≡ true
generate_case_number-valid_example = generate_case_number-valid draws 0 draws_bound

-- The first candidate is free.
mint_from-fresh_example :
    ((λ (t : Text). false) (generate_case_number draws 0) ≡ false)
    × (is_valid_case_number (generate_case_number draws 0) ≡ true)
unfolding mint_from
mint_from-fresh_example = mint_from-fresh (λ t. false) draws 5 0 draws_bound refl

-- `../a:b` becomes `._a_b`.
sanitizes : sanitize_file_name (codes "../a:b") ≡ codes "._a_b"
unfolding sanitize_file_name squeeze_dots mask_reserved is_reserved
sanitizes = refl

sanitize_file_name_safe_example :
    (length (sanitize_file_name (codes "../a:b")) ≤ 255)
    × IsSafeAfter false (sanitize_file_name (codes "../a:b"))
sanitize_file_name_safe_example = sanitize_file_name_safe (codes "../a:b")
