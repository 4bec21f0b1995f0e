-- ===== src/Portal/Access.antt =====
-- How a client gets a session, uses it and leaves: `verify`, `isLockedOut`, `resolveSession` and
-- `signOut` of src/services/portal.service.ts. No transaction encloses them: what is written before
-- a throw stays. The digest of node's crypto module is a parameter.
pub mod Sessions
pub mod Attempts
use hpx_eigen_s1_foundation.Common.{
  ℕ, ◌-◌, ◌*◌, Bool, true, false, not, ◌&&◌, ◌||◌, Option, none, some, List, [], ◌∷◌, Text, String,
  to_upper, text_eq, trim, only_digits, is_empty, is_some, length, ltb, leb, ◌==◌, if◌then◌else◌,
  get_or_else, find_first, update_many, count_where,
}
use hpx_eigen_s1_foundation.Case.{DocCase, DocCaseStatus}
use hpx_eigen_s1_foundation.CaseNumber.{is_valid_case_number}
use hpx_eigen_s1_foundation.Portal.Rules.{
  max_attempts, minute_ms, lockout_minutes, session_expiry, safe_compare_digits,
  is_portal_accessible,
}
use hpx_eigen_s1_foundation.Store.{
  Action, Result, ok, err, pure, raise, gets, modify, ◌>>=◌, ◌>>◌, Db, PortalSession,
  PortalAuthAttempt, portal_verification_failed,
}

-- The request: what the client typed, from where, and the server's clock.
pub record VerifyInput : Type 0 where
  pub case_number_raw : Text
  pub phone_digits : Text
  pub ip : Text
  pub now : ℕ

-- `(caseNumberRaw ?? '').toUpperCase().trim()`
abbrev pub typed_number : VerifyInput → Text
typed_number input = trim (to_upper input.case_number_raw)

-- `portalAuthAttempt.create`
unfoldable pub record_attempt : VerifyInput → Bool → Option DocCase → Action Db (Unit {0})
record_attempt input succeeded found = modify λ db. record db {
  attempts =
      record {
        case_number = typed_number input;
        ip_address = input.ip;
        succeeded = succeeded;
        attempted_at = input.now;
        tenant_id = elim found [ none ↦ none | some c ↦ some c.tenant_id ];
        case_id = elim found [ none ↦ none | some c ↦ some c.id ];
      }
      ∷ db.attempts;
}

-- `where: { caseNumber, ipAddress, succeeded: false, attemptedAt: { gte: since } }`. Before the
-- first half hour of the epoch the source's `since` is negative and admits every attempt, as 0 does.
unfoldable pub is_recent_failure : Text → Text → ℕ → PortalAuthAttempt → Bool
is_recent_failure number ip now a =
    text_eq a.case_number number
    && text_eq a.ip_address ip
    && not a.succeeded
    && leb (now - lockout_minutes * minute_ms) a.attempted_at

unfoldable pub is_locked_out : Text → Text → ℕ → Db → Bool
is_locked_out number ip now db =
    leb max_attempts (count_where (is_recent_failure number ip now) db.attempts)

-- `where: { caseNumber, deletedAt: null }`
unfoldable pub find_by_number : Text → Db → Option DocCase
find_by_number number db =
    find_first
      (λ c.
        not (is_some c.deleted_at)
        && elim c.case_number [ none ↦ false | some m ↦ text_eq m number ])
      db.cases

-- A failed attempt: it is recorded, and the call throws.
unfoldable pub fail_attempt : {A : Type 0} → VerifyInput → Option DocCase → String → Action Db A
unfolding record_attempt
fail_attempt input found reason =
    record_attempt input false found >> raise (portal_verification_failed reason)

unfoldable pub create_session :
    (Text → Text) → VerifyInput → ℕ → Text → DocCase → Action Db (Unit {0})
create_session sha256 input new_id token c = modify λ db. record db {
  sessions =
      record {
        id = new_id;
        tenant_id = c.tenant_id;
        case_id = c.id;
        token_hash = sha256 token;
        expires_at = session_expiry input.now;
        last_seen_at = none;
        revoked_at = none;
      }
      ∷ db.sessions;
}

-- What is wrong with a request, in the order of the source's tests, or the case it opens.
pub data Verdict : Type 0 where
  refused : Option DocCase → String → Verdict
  admitted : DocCase → Verdict

unfoldable pub judge_case : (Text → Text) → Text → Option DocCase → Verdict
judge_case sha256 digits none = refused none "case_not_found"
judge_case sha256 digits (some c) =
    if not (is_portal_accessible c.portal_enabled_at c.portal_phone_last4 c.status)
    then refused (some c) "portal_not_accessible"
    else if not (safe_compare_digits sha256 (get_or_else c.portal_phone_last4 []) digits)
    then refused (some c) "digit_mismatch"
    else admitted c

unfoldable pub judge : (Text → Text) → VerifyInput → Db → Verdict
unfolding judge_case
judge sha256 input db =
    if not (is_valid_case_number (typed_number input))
      || not (length (only_digits input.phone_digits) == 4)
    then refused none "malformed_input"
    else if is_locked_out (typed_number input) input.ip input.now db
    then refused none "locked_out"
    else judge_case sha256 (only_digits input.phone_digits) (find_by_number (typed_number input) db)

unfoldable pub settle_verdict : (Text → Text) → VerifyInput → ℕ → Text → Verdict → Action Db Text
unfolding fail_attempt create_session record_attempt
settle_verdict sha256 input new_id token (refused found reason) = fail_attempt input found reason
settle_verdict sha256 input new_id token (admitted c) = do
  create_session sha256 input new_id token c
  record_attempt input true (some c)
  pure token

-- `verify`: `token` is the random session token, returned to the client, and `new_id` the row's id.
unfoldable pub verify : (Text → Text) → VerifyInput → ℕ → Text → Action Db Text
unfolding settle_verdict judge
verify sha256 input new_id token db =
    settle_verdict sha256 input new_id token (judge sha256 input db) db

abbrev pub has_token_hash : Text → PortalSession → Bool
has_token_hash hash s = text_eq s.token_hash hash

-- `!session || session.revokedAt || session.expiresAt <= new Date()`, negated
unfoldable pub is_live_session : ℕ → PortalSession → Bool
is_live_session now s = not (is_some s.revoked_at) && not (leb s.expires_at now)

unfoldable pub seen_session : ℕ → PortalSession → PortalSession
seen_session now s = record s { last_seen_at = some now }

unfoldable pub resolve_found : ℕ → Option PortalSession → Action Db PortalSession
unfolding is_live_session seen_session
resolve_found now none db = (err (portal_verification_failed "session_invalid"), db)
resolve_found now (some s) db =
    if is_live_session now s
    then (
      ok s,
      record db { sessions = update_many (λ x. x.id == s.id) (seen_session now) db.sessions },
    )
    else (err (portal_verification_failed "session_invalid"), db)

unfoldable pub resolve_session : (Text → Text) → ℕ → Text → Action Db PortalSession
unfolding resolve_found
resolve_session sha256 now token db =
    if is_empty token
    then (err (portal_verification_failed "missing_token"), db)
    else resolve_found now (find_first (has_token_hash (sha256 token)) db.sessions) db

unfoldable pub revoked_session : ℕ → PortalSession → PortalSession
revoked_session now s = record s { revoked_at = some now }

unfoldable pub sign_out : (Text → Text) → ℕ → Text → Action Db (Unit {0})
unfolding revoked_session
sign_out sha256 now token = modify λ db. record db {
  sessions =
      update_many (λ s. has_token_hash (sha256 token) s && not (is_some s.revoked_at))
        (revoked_session now) db.sessions;
}
