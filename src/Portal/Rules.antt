-- ===== src/Portal/Rules.antt =====
-- The portal's policy: when a case is reachable, how long a session lasts, what a client is told of
-- a status (src/domain/portal.ts). Instants are milliseconds.
use hpx_eigen_s1_foundation.Common.{
  ℕ, ◌+◌, ◌*◌, Bool, false, not, Option, none, some, List, [], ◌∷◌, Text, text_eq, is_empty,
  is_some, if◌then◌else◌,
}
use hpx_eigen_s1_foundation.Case.{
  DocCaseStatus, has_status, incoming, active, documentation_ready, pending_process_review,
  returned_to_documentation, transferred_to_process, closed, cancelled,
}

abbrev pub max_attempts : ℕ
max_attempts = 5

abbrev pub minute_ms : ℕ
minute_ms = 60000

abbrev pub lockout_minutes : ℕ
lockout_minutes = 30

abbrev pub session_minutes : ℕ
session_minutes = 15

unfoldable pub session_expiry : ℕ → ℕ
session_expiry from_ms = from_ms + session_minutes * minute_ms

-- `safeCompareDigits`: the digests of the two texts are compared.
unfoldable pub safe_compare_digits : (Text → Text) → Text → Text → Bool
safe_compare_digits sha256 a b = text_eq (sha256 a) (sha256 b)

abbrev pub portal_closed_statuses : List DocCaseStatus
portal_closed_statuses = closed ∷ cancelled ∷ []

-- `!!text` of a nullable text
abbrev pub is_set : Option Text → Bool
is_set none = false
is_set (some text) = not (is_empty text)

unfoldable pub is_portal_accessible : Option ℕ → Option Text → DocCaseStatus → Bool
is_portal_accessible enabled_at last4 status =
    if not (is_some enabled_at)
    then false
    else if not (is_set last4)
    then false
    else not (has_status portal_closed_statuses status)

pub data ProgressKey : Type 0 where
  received in_review verified processing completed : ProgressKey

unfoldable pub progress_stage_for : DocCaseStatus → ProgressKey
progress_stage_for incoming = received
progress_stage_for DocCaseStatus.returned = received
progress_stage_for active = in_review
progress_stage_for documentation_ready = verified
progress_stage_for pending_process_review = processing
progress_stage_for transferred_to_process = processing
progress_stage_for returned_to_documentation = in_review
progress_stage_for closed = completed
progress_stage_for _ = received
