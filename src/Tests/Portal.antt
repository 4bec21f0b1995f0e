-- ===== src/Tests/Portal.antt =====
-- The portal on concrete requests; the identity stands for the digest.
use hpx_eigen_s1_foundation.Common.{
  ℕ, ◌≡◌, ◌≢◌, ◌↔◌, refl, some, codes, false, true, Text, count_where, find_first, arith, trim,
  only_digits, text_eq, suc,
}
use hpx_eigen_s1_foundation.Case.{DocCase}
use hpx_eigen_s1_foundation.CaseNumber.{is_valid_case_number, matches}
use hpx_eigen_s1_foundation.Portal.Access.{
  is_locked_out, find_by_number, typed_number, verify, resolve_session, sign_out,
}
use hpx_eigen_s1_foundation.Portal.Access.Attempts.{
  IsEntitled, Request, Refusals, at_start, and_then, Refusals-lock_out, verify-is_ok_iff,
}
use hpx_eigen_s1_foundation.Portal.Access.Sessions.{
  resolve_session-verify, resolve_session-sign_out, opened_until,
}
use hpx_eigen_s1_foundation.Portal.Activation.{is_unrevoked}
use hpx_eigen_s1_foundation.Portal.Contacts.{approve_contact_change, find_request, is_pending}
use hpx_eigen_s1_foundation.Portal.Contacts.Revocation.{approve_contact_change-revokes}
use hpx_eigen_s1_foundation.Portal.Rules.{is_portal_accessible, safe_compare_digits}
use hpx_eigen_s1_foundation.Store.{
  Db, is_ok, ok, err, portal_verification_failed, ContactChangeStatus,
}
use hpx_eigen_s1_foundation.Tests.Samples.{alice, active_case, db_of, sample_input, sample_request}

abbrev digest : Text → Text
digest s = s

abbrev token : Text
token = codes "secret"

abbrev open_db : Db
open_db = db_of active_case

granted : (verify digest sample_input 9 token open_db).0 ≡ ok token
unfolding verify is_valid_case_number trim only_digits is_locked_out count_where find_by_number
    find_first text_eq is_portal_accessible safe_compare_digits
granted = refl

-- A malformed number is refused in every state.
abbrev probe : Request
probe = record {
  input = record sample_input { case_number_raw = codes "x" };
  new_id = 9;
  token = token;
}

probe_refused : (db : Db) → is_ok (verify digest probe.input 9 token db).0 ≡ false
unfolding verify is_valid_case_number trim matches
probe_refused db = refl

abbrev probed : Db → Db
probed db = (verify digest probe.input 9 token db).1

probes :
    {start db : Db} {n : ℕ}
    → Refusals digest (codes "X") (codes "10.0.0.1") 2000 start n db
    → Refusals digest (codes "X") (codes "10.0.0.1") 2000 start (suc n) (probed db)
unfolding trim
probes {start} {db} run = and_then run probe refl refl refl (probe_refused db)

Refusals-lock_out_example :
    is_ok (verify digest probe.input 9 token (probed (probed (probed (probed (probed open_db)))))).0
    ≡ false
unfolding trim
Refusals-lock_out_example =
    Refusals-lock_out digest (codes "X") (codes "10.0.0.1") 2000 probe.input 9 token
      (probes (probes (probes (probes (probes at_start))))) (omega arith) refl refl refl

verify-is_ok_iff_example :
    (is_ok (verify digest sample_input 9 token open_db).0 ≡ true)
    ↔ ((c : DocCase) × IsEntitled digest sample_input open_db c)
verify-is_ok_iff_example = verify-is_ok_iff digest sample_input 9 token open_db

resolve_session-verify_example :
    (token ≡ token)
    × ((c : DocCase) × (find_by_number (typed_number sample_input) open_db ≡ some c)
        × ((resolve_session digest 3000 token (verify digest sample_input 9 token open_db).1).0
            ≡ opened_until digest sample_input 9 token c 3000))
resolve_session-verify_example =
    resolve_session-verify digest sample_input 9 token 3000 open_db token (λ e. ground arith)
      granted

resolve_session-sign_out_example :
    (resolve_session digest 3000 (codes "tok") (sign_out digest 2500 (codes "tok") open_db).1).0
    ≡ err (portal_verification_failed "session_invalid")
resolve_session-sign_out_example =
    resolve_session-sign_out digest 2500 3000 (codes "tok") open_db (λ e. ground arith)

approve_contact_change-revokes_example :
    (is_pending sample_request.status ≡ true)
    × (sample_request.requested_by ≢ alice.user_id)
    × (find_request alice 4 (approve_contact_change alice 4 open_db).1
        ≡ some (record sample_request {
          status = ContactChangeStatus.approved;
          approved_by = some alice.user_id;
          resolved_at = some alice.now;
        }))
    × (count_where
          (is_unrevoked sample_request.case_id)
          (approve_contact_change alice 4 open_db).1.sessions
        ≡ 0)
unfolding find_request approve_contact_change find_first
approve_contact_change-revokes_example =
    approve_contact_change-revokes alice 4 open_db sample_request refl refl
