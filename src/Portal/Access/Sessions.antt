-- ===== src/Portal/Access/Sessions.antt =====
-- The life of a session: issued, live for its quarter of an hour, revoked.
use hpx_eigen_s1_foundation.Common.{
  ℕ, ◌+◌, ◌*◌, if◌then◌else◌, Option-cases, inl, inr, ◌≡◌, refl, true, false, not, ◌&&◌, Option,
  none, some, List, [], ◌∷◌, Text, text_eq_iff, text_eq, is_empty, is_some, leb, find_first,
  update_many, arith, ◌≢◌, ap,
}
use hpx_eigen_s1_foundation.Case.{DocCase}
use hpx_eigen_s1_foundation.Portal.Access.{
  VerifyInput, Verdict, admitted, refused, verify, judge, judge_case, typed_number, find_by_number,
  settle_verdict, fail_attempt, create_session, record_attempt, has_token_hash, is_live_session,
  resolve_session, resolve_found, revoked_session, sign_out,
}
use hpx_eigen_s1_foundation.Portal.Rules.{session_expiry}
use hpx_eigen_s1_foundation.Store.{Result, ok, err, Db, PortalSession, portal_verification_failed}

revoked_session-first :
    (hash : Text) (now later : ℕ) (ss : List PortalSession) {s : PortalSession}
    → find_first (has_token_hash hash) (
        update_many
          (λ x. has_token_hash hash x && not (is_some x.revoked_at))
          (revoked_session now)
          ss)
      ≡ some s
    → is_live_session later s ≡ false
unfolding find_first update_many revoked_session is_live_session
revoked_session-first hash now later [] {s} e = ground arith
revoked_session-first hash now later (x ∷ ss) {s} e =
    ground (arith, revoked_session-first hash now later ss {s = s})

resolve_found-dead :
    (now : ℕ) (found : Option PortalSession) (db : Db)
    → ((s : PortalSession) → found ≡ some s → is_live_session now s ≡ false)
    → resolve_found now found db ≡ (err (portal_verification_failed "session_invalid"), db)
unfolding resolve_found
resolve_found-dead now none db dead = refl
resolve_found-dead now (some s) db dead = rw (dead s refl) refl

is_empty-given : (token : Text) → token ≢ [] → is_empty token ≡ false
is_empty-given [] given = absurd (given refl)
is_empty-given (x ∷ token) given = refl

-- After a sign-out with a token that is not empty, the token opens nothing, at no instant.
pub resolve_session-sign_out :
    (sha256 : Text → Text) (now later : ℕ) (token : Text) (db : Db)
    → token ≢ []
    → (resolve_session sha256 later token (sign_out sha256 now token db).1).0
      ≡ err (portal_verification_failed "session_invalid")
unfolding resolve_session sign_out
resolve_session-sign_out sha256 now later token db given = rw (is_empty-given token given) (
    ap (λ r. r.0)
      (resolve_found-dead later _ _
        (λ s found. revoked_session-first (sha256 token) now later db.sessions found)))

resolve_session-first :
    (sha256 : Text → Text) (token : Text) (later : ℕ) (db : Db) (s : PortalSession)
    (ss : List PortalSession)
    → token ≢ []
    → db.sessions ≡ s ∷ ss
    → s.token_hash ≡ sha256 token
    → s.revoked_at ≡ none
    → (resolve_session sha256 later token db).0 ≡ (
        if leb s.expires_at later then err (portal_verification_failed "session_invalid") else ok s)
unfolding resolve_session resolve_found find_first is_live_session
resolve_session-first sha256 token later db s ss given at hash live =
    let same : text_eq s.token_hash (sha256 token) ≡ true = (text_eq_iff _ _).1 hash in
    rw (is_empty-given token given, at, same, live) (ground arith)

-- The session that opens the case `c` for a quarter of an hour, not yet seen and not revoked.
abbrev pub opened : (Text → Text) → VerifyInput → ℕ → Text → DocCase → PortalSession
opened sha256 input new_id token c = record {
  id = new_id;
  tenant_id = c.tenant_id;
  case_id = c.id;
  token_hash = sha256 token;
  expires_at = input.now + 15 * 60 * 1000;
  last_seen_at = none;
  revoked_at = none;
}

-- What a token for the case `c` resolves to at an instant.
abbrev pub opened_until :
    (Text → Text) → VerifyInput → ℕ → Text → DocCase → ℕ → Result PortalSession
opened_until sha256 input new_id token c later =
    if leb (input.now + 15 * 60 * 1000) later
    then err (portal_verification_failed "session_invalid")
    else ok (opened sha256 input new_id token c)

resolve_session-settled :
    (sha256 : Text → Text) (input : VerifyInput) (new_id : ℕ) (token : Text) (later : ℕ)
    (c : DocCase) (db : Db)
    → token ≢ []
    → (resolve_session sha256 later token
        (settle_verdict sha256 input new_id token (admitted c) db).1).0
      ≡ opened_until sha256 input new_id token c later
unfolding settle_verdict create_session record_attempt session_expiry
resolve_session-settled sha256 input new_id token later c db given =
    resolve_session-first sha256 token later _ (opened sha256 input new_id token c) db.sessions
      given refl refl refl

admits :
    (sha256 : Text → Text) (input : VerifyInput) (new_id : ℕ) (token : Text) (v : Verdict) (db : Db)
    (answer : Text)
    → (settle_verdict sha256 input new_id token v db).0 ≡ ok answer
    → (c : DocCase) × (v ≡ admitted c) × (answer ≡ token)
unfolding settle_verdict fail_attempt create_session record_attempt
admits sha256 input new_id token (refused found why) db answer h = absurd (ground arith)
admits sha256 input new_id token (admitted c) db answer h = (c, refl, ground arith)

judged :
    (sha256 : Text → Text) (input : VerifyInput) (db : Db) (c : DocCase)
    → judge sha256 input db ≡ admitted c
    → find_by_number (typed_number input) db ≡ some c
unfolding judge judge_case
judged sha256 input db c h = elim (Option-cases (find_by_number (typed_number input) db)) [
  | inl unknown ↦ absurd (ground arith)
  | inr (d, found) ↦ let same : d ≡ c = ground arith in rw same at found
]

-- Right after `verify` has answered with a token that is not empty, the answer is the fresh token, and
-- it resolves to a new session of the live case with the typed number, until a quarter of an hour
-- after the call, and to nothing from then on.
pub resolve_session-verify :
    (sha256 : Text → Text) (input : VerifyInput) (new_id : ℕ) (token : Text) (later : ℕ) (db : Db)
    (answer : Text)
    → token ≢ []
    → (verify sha256 input new_id token db).0 ≡ ok answer
    → (answer ≡ token)
      × ((c : DocCase) × (find_by_number (typed_number input) db ≡ some c)
          × ((resolve_session sha256 later answer (verify sha256 input new_id token db).1).0
              ≡ opened_until sha256 input new_id token c later))
unfolding verify
resolve_session-verify sha256 input new_id token later db answer given granted =
    let (c, verdict, same) =
      admits sha256 input new_id token (judge sha256 input db) db answer granted in
    (
      same,
      (
        c,
        judged sha256 input db c verdict,
        rw (verify, same, verdict)
            (resolve_session-settled sha256 input new_id token later c db given),
      ),
    )
