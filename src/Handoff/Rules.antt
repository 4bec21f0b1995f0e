-- ===== src/Handoff/Rules.antt =====
-- The pure rules of the handoff: transition guards, the proof obligations of a resend, the ageing
-- ladder and the auto-drop clock (src/domain/handoff.ts). Instants are milliseconds.
pub mod Laws
use hpx_eigen_s1_foundation.Common.{
  ℕ, ◌+◌, ◌*◌, ◌<◌, Bool, true, false, not, ◌&&◌, ◌||◌, Option, none, some, List, [], ◌∷◌, Text,
  String, codes, length, trim, only_digits, text_eq, is_empty, is_some, ltb, leb, ◌==◌,
  if◌then◌else◌, get_or_else,
}
use hpx_eigen_s1_foundation.Case.{
  DocCaseStatus, HandoffState, HandoffReturnReason, is_status, is_state, incoming, active,
  documentation_ready, pending_process_review, returned_to_documentation, transferred_to_process,
  closed, cancelled, wrong_or_missing_contact, wrong_preset, duplicate_case,
}

pub data HandoffAge : Type 0 where
  fresh stale warning critical overdue : HandoffAge

abbrev pub hour_ms : ℕ
hour_ms = 3600000

-- `hours < t` on the quotient of milliseconds is `ms < t * 3600000`; an instant before the handoff
-- has a negative age, which is below every threshold, as its truncation to 0 is.
unfoldable pub get_handoff_age : ℕ → ℕ → HandoffAge
get_handoff_age handoff_at now =
    if ltb now (handoff_at + 24 * hour_ms)
    then fresh
    else if ltb now (handoff_at + 48 * hour_ms)
    then stale
    else if ltb now (handoff_at + 96 * hour_ms)
    then warning
    else if ltb now (handoff_at + 168 * hour_ms)
    then critical
    else overdue

abbrev pub auto_drop_days : ℕ
auto_drop_days = 7

unfoldable pub compute_auto_drop_at : ℕ → ℕ
compute_auto_drop_at returned_at = returned_at + auto_drop_days * 24 * hour_ms

abbrev pub manager_review_return_threshold : ℕ
manager_review_return_threshold = 2

unfoldable pub should_require_manager_review : ℕ → Bool
should_require_manager_review return_count = leb manager_review_return_threshold return_count

pub data HandoffAction : Type 0 where
  confirm accept reject return_case resend auto_drop : HandoffAction

-- `{ allowed, reason? }`
pub data TransitionCheck : Type 0 where
  allow : TransitionCheck
  deny : String → TransitionCheck

abbrev pub allowed : TransitionCheck → Bool
allowed allow = true
allowed (deny reason) = false

unfoldable pub can_transition :
    HandoffAction → DocCaseStatus → HandoffState → Bool → TransitionCheck
can_transition confirm status state review =
    if not (is_state state HandoffState.none_yet)
    then deny "This lead has already been handed off."
    else allow
can_transition accept status state review =
    if not (is_status status incoming)
    then deny "Only an incoming handoff can be accepted."
    else allow
can_transition reject status state review =
    if not (is_status status incoming)
    then deny "This case has already been accepted — use Return instead."
    else allow
can_transition return_case status state review =
    if is_status status transferred_to_process || is_status status pending_process_review
    then deny "Process owns this case. Use a Process correction flow."
    else if is_status status closed || is_status status cancelled
    then deny "This case is closed."
    else if not (is_status status active)
        && not (is_status status documentation_ready)
        && not (is_status status returned_to_documentation)
    then deny "Only an accepted case can be returned."
    else allow
can_transition resend status state review =
    if review
    then deny "Manager review is required before this case can be resent."
    else if not (is_status status incoming) && not (is_status status DocCaseStatus.returned)
    then deny "Only a rejected or returned case can be resent."
    else if not (is_state state HandoffState.returned) && not (is_state state HandoffState.none_yet)
    then deny "This case is not awaiting a fix."
    else allow
can_transition auto_drop status state review =
    if not (is_status status DocCaseStatus.returned)
    then deny "Only a returned case can auto-drop."
    else allow

pub record ResendContext : Type 0 where
  pub return_reason_code : Option HandoffReturnReason
  pub resolution_note : Text
  pub phone_at_handoff : Option Text
  pub current_phone : Option Text
  pub has_approved_contact_override : Bool
  pub preset_at_handoff : Option ℕ
  pub current_preset : Option ℕ

abbrev pub min_resolution_note_length : ℕ
min_resolution_note_length = 10

-- `a === b` on nullable identifiers
abbrev pub same_id : Option ℕ → Option ℕ → Bool
same_id none none = true
same_id (some a) (some b) = a == b
same_id _ _ = false

-- The case WRONG_OR_MISSING_CONTACT of `checkResendAllowed`.
unfoldable pub check_contact : ResendContext → TransitionCheck
check_contact ctx =
    let before = only_digits (get_or_else ctx.phone_at_handoff []) in
    let now = only_digits (get_or_else ctx.current_phone []) in
    if ctx.has_approved_contact_override
    then allow
    else if is_empty now
    then deny "A contact number is required before this case can be resent."
    else if text_eq before now
    then deny
        "The contact number has not changed. Update it, or get an approved portal contact override."
    else allow

-- The case WRONG_PRESET of `checkResendAllowed`.
unfoldable pub check_preset : ResendContext → TransitionCheck
check_preset ctx =
    if not (is_some ctx.current_preset)
    then deny "A document preset must be selected before resending."
    else if same_id ctx.preset_at_handoff ctx.current_preset
    then deny "The document preset has not changed."
    else allow

-- The `switch` on the reason of the return.
unfoldable pub check_reason : Option HandoffReturnReason → ResendContext → TransitionCheck
unfolding check_contact check_preset
check_reason (some wrong_or_missing_contact) ctx = check_contact ctx
check_reason (some wrong_preset) ctx = check_preset ctx
check_reason (some HandoffReturnReason.compliance_issue) ctx =
    deny "Compliance issues require manager review before resending."
check_reason (some duplicate_case) ctx =
    deny "Duplicate cases require manager review before resending."
check_reason _ ctx = allow

unfoldable pub check_resend_allowed : ResendContext → TransitionCheck
unfolding check_reason
check_resend_allowed ctx =
    if ltb (length (trim ctx.resolution_note)) min_resolution_note_length
    then deny "A resolution note of at least 10 characters is required."
    else check_reason ctx.return_reason_code ctx

-- `ALWAYS_MANAGER_REVIEW.includes(reason)`
abbrev pub always_manager_review : Option HandoffReturnReason → Bool
always_manager_review (some duplicate_case) = true
always_manager_review (some HandoffReturnReason.compliance_issue) = true
always_manager_review _ = false

unfoldable pub requires_manager_review_after_return : ℕ → Option HandoffReturnReason → Bool
unfolding should_require_manager_review
requires_manager_review_after_return return_count reason =
    if always_manager_review reason then true else should_require_manager_review return_count
