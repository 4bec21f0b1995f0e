-- ===== src/Handoff/Rules/Laws.antt =====
-- What the handoff rules decide.
use hpx_eigen_s1_foundation.Common.{
  ℕ, ◌≤◌, ◌≡◌, ◌≢◌, refl, ◌↔◌, ◌⊎◌, Bool, true, false, Option, none, some, Text, length, trim,
  only_digits, text_eq_iff, is_empty, arith, get_or_else, [], ◌∷◌,
}
use hpx_eigen_s1_foundation.Case.{
  DocCaseStatus, HandoffState, HandoffReturnReason, incoming, active, documentation_ready,
  returned_to_documentation, wrong_or_missing_contact, wrong_preset, duplicate_case,
}
use hpx_eigen_s1_foundation.Handoff.Rules.{
  HandoffAction, confirm, accept, reject, return_case, resend, auto_drop, allow, can_transition,
  ResendContext, check_resend_allowed, check_reason, check_contact, check_preset,
  requires_manager_review_after_return, HandoffAge, fresh, stale, warning, critical, overdue,
  get_handoff_age, compute_auto_drop_at, same_id,
}

-- When an action is legal, as a relation on the state of the case, independent of the guard's order
-- of tests.
pub data Legal : HandoffAction → DocCaseStatus → HandoffState → Bool → Type 0 where
  confirms : {s : DocCaseStatus} {r : Bool} → Legal confirm s HandoffState.none_yet r
  accepts : {h : HandoffState} {r : Bool} → Legal accept incoming h r
  rejects : {h : HandoffState} {r : Bool} → Legal reject incoming h r
  returns_active : {h : HandoffState} {r : Bool} → Legal return_case active h r
  returns_ready : {h : HandoffState} {r : Bool} → Legal return_case documentation_ready h r
  returns_reopened : {h : HandoffState} {r : Bool} → Legal return_case returned_to_documentation h r
  resends_rejected : Legal resend incoming HandoffState.returned false
  resends_returned : Legal resend DocCaseStatus.returned HandoffState.returned false
  resends_legacy_incoming : Legal resend incoming HandoffState.none_yet false
  resends_legacy_returned : Legal resend DocCaseStatus.returned HandoffState.none_yet false
  drops : {h : HandoffState} {r : Bool} → Legal auto_drop DocCaseStatus.returned h r

ruleset legal_rules = (
  confirms, accepts, rejects, returns_active, returns_ready, returns_reopened, resends_rejected,
  resends_returned, resends_legacy_incoming, resends_legacy_returned, drops,
)

can_transition_sound :
    (a : HandoffAction) (s : DocCaseStatus) (h : HandoffState) (r : Bool)
    → can_transition a s h r ≡ allow
    → Legal a s h r
unfolding can_transition
can_transition_sound a s h r e = grind (arith, legal_rules)

can_transition_complete :
    {a : HandoffAction} {s : DocCaseStatus} {h : HandoffState} {r : Bool}
    → Legal a s h r
    → can_transition a s h r ≡ allow
unfolding can_transition
can_transition_complete confirms = refl
can_transition_complete _ = refl

-- The guard allows an action exactly in the states that the relation lists.
pub can_transition_iff :
    (a : HandoffAction) (s : DocCaseStatus) (h : HandoffState) (r : Bool)
    → (can_transition a s h r ≡ allow) ↔ Legal a s h r
can_transition_iff a s h r = (can_transition_sound a s h r, can_transition_complete)

-- What counts as evidence that the flagged problem was fixed.
abbrev pub IsProven : Option HandoffReturnReason → ResendContext → Type 0
IsProven (some wrong_or_missing_contact) ctx =
    (ctx.has_approved_contact_override ≡ true)
    ⊎ ((only_digits (get_or_else ctx.current_phone []) ≢ [])
        × (only_digits (get_or_else ctx.phone_at_handoff [])
            ≢ only_digits (get_or_else ctx.current_phone [])))
IsProven (some wrong_preset) ctx =
    (ctx.current_preset ≢ none) × (ctx.preset_at_handoff ≢ ctx.current_preset)
IsProven (some HandoffReturnReason.compliance_issue) ctx = ⊥
IsProven (some duplicate_case) ctx = ⊥
IsProven _ ctx = Unit

same_id_iff : (a b : Option ℕ) → (same_id a b ≡ true) ↔ (a ≡ b)
same_id_iff a b = ground arith

is_empty_iff : (s : Text) → (is_empty s ≡ true) ↔ (s ≡ [])
is_empty_iff [] = ground arith
is_empty_iff (c ∷ s) = ground arith

check_contact_iff :
    (ctx : ResendContext)
    → (check_contact ctx ≡ allow) ↔ IsProven (some wrong_or_missing_contact) ctx
unfolding check_contact
check_contact_iff ctx = ground (
  arith,
  is_empty_iff (only_digits (get_or_else ctx.current_phone [])),
  text_eq_iff (only_digits (get_or_else ctx.phone_at_handoff []))
      (only_digits (get_or_else ctx.current_phone [])),
)

check_preset_iff :
    (ctx : ResendContext) → (check_preset ctx ≡ allow) ↔ IsProven (some wrong_preset) ctx
unfolding check_preset
check_preset_iff ctx = ground (arith, same_id_iff ctx.preset_at_handoff ctx.current_preset)

check_reason_iff :
    (reason : Option HandoffReturnReason) (ctx : ResendContext)
    → (check_reason reason ctx ≡ allow) ↔ IsProven reason ctx
unfolding check_reason
check_reason_iff (some wrong_or_missing_contact) ctx = check_contact_iff ctx
check_reason_iff (some wrong_preset) ctx = check_preset_iff ctx
check_reason_iff _ ctx = ground arith

-- A resend is allowed exactly when the trimmed note has ten characters and the problem that the
-- reason names is proven to be fixed: for a contact reason an approved override or a number whose
-- digits are present and changed, for a preset reason a preset that is set and changed; a compliance
-- or a duplicate reason is never enough, and any other reason asks for no more.
pub check_resend_allowed_iff :
    (ctx : ResendContext)
    → (check_resend_allowed ctx ≡ allow)
      ↔ ((10 ≤ length (trim ctx.resolution_note)) × IsProven ctx.return_reason_code ctx)
unfolding check_resend_allowed
check_resend_allowed_iff ctx = ground (arith, check_reason_iff ctx.return_reason_code ctx)

-- A handoff is overdue exactly when seven days have passed, the instant at which a return of the
-- same time drops the lead.
pub overdue_iff_auto_drop :
    (start now : ℕ) → (get_handoff_age start now ≡ overdue) ↔ (compute_auto_drop_at start ≤ now)
unfolding get_handoff_age compute_auto_drop_at
overdue_iff_auto_drop start now = ground arith

abbrev pub age_rank : HandoffAge → ℕ
age_rank fresh = 0
age_rank stale = 1
age_rank warning = 2
age_rank critical = 3
age_rank overdue = 4

-- The age never goes back as time passes.
pub get_handoff_age_mono :
    (start now later : ℕ)
    → now ≤ later
    → age_rank (get_handoff_age start now) ≤ age_rank (get_handoff_age start later)
unfolding get_handoff_age
get_handoff_age_mono start now later h = ground arith

-- A return needs a manager exactly when the case was returned twice or more, or for a duplicate or
-- a compliance reason.
pub requires_manager_review_iff :
    (count : ℕ) (reason : Option HandoffReturnReason)
    → (requires_manager_review_after_return count reason ≡ true) ↔ (
        (reason ≡ some duplicate_case)
        ⊎ (reason ≡ some HandoffReturnReason.compliance_issue)
        ⊎ (2 ≤ count))
unfolding requires_manager_review_after_return
requires_manager_review_iff count none = ground arith
requires_manager_review_iff count (some reason) = ground arith
