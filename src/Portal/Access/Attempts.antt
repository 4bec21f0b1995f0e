-- ===== src/Portal/Access/Attempts.antt =====
-- Who gets in, and what every attempt leaves behind.
use hpx_eigen_s1_foundation.Common.{
  ℕ, suc, ◌+◌, ◌-◌, ◌*◌, ◌≤◌, ◌≡◌, refl, true, false, some, [], Text, text_eq_iff, text_eq, leb,
  count_where, arith, ◌∙◌, if◌then◌else◌, length, only_digits, get_or_else, ◌↔◌,
}
use hpx_eigen_s1_foundation.Case.{DocCase}
use hpx_eigen_s1_foundation.CaseNumber.{is_valid_case_number}
use hpx_eigen_s1_foundation.Portal.Access.{
  VerifyInput, Verdict, admitted, refused, verify, judge, judge_case, settle_verdict, fail_attempt,
  create_session, record_attempt, typed_number, find_by_number, is_locked_out, is_recent_failure,
}
use hpx_eigen_s1_foundation.Portal.Rules.{
  is_portal_accessible, safe_compare_digits, max_attempts, lockout_minutes, minute_ms,
}
use hpx_eigen_s1_foundation.Store.{is_ok, Db}

-- What a request must show, apart from the order of the tests.
pub IsEntitled : (Text → Text) → VerifyInput → Db → DocCase → Type 0
IsEntitled sha256 input db c =
    (is_valid_case_number (typed_number input) ≡ true)
    × (length (only_digits input.phone_digits) ≡ 4)
    × (is_locked_out (typed_number input) input.ip input.now db ≡ false)
    × (find_by_number (typed_number input) db ≡ some c)
    × (is_portal_accessible c.portal_enabled_at c.portal_phone_last4 c.status ≡ true)
    × (safe_compare_digits sha256 (get_or_else c.portal_phone_last4 [])
          (only_digits input.phone_digits)
        ≡ true)

-- A request is admitted to a case exactly when it is entitled to it.
judge-admitted_iff :
    (sha256 : Text → Text) (input : VerifyInput) (db : Db) (c : DocCase)
    → (judge sha256 input db ≡ admitted c) ↔ IsEntitled sha256 input db c
unfolding judge judge_case IsEntitled
judge-admitted_iff sha256 input db c = ground arith

verdict_is_ok :
    (sha256 : Text → Text) (input : VerifyInput) (new_id : ℕ) (token : Text) (v : Verdict) (db : Db)
    → (is_ok (settle_verdict sha256 input new_id token v db).0 ≡ true)
      ↔ ((c : DocCase) × (v ≡ admitted c))
unfolding settle_verdict fail_attempt create_session record_attempt
verdict_is_ok sha256 input new_id token v db = ground arith

-- A token is handed out exactly when the request is entitled to some case.
pub verify-is_ok_iff :
    (sha256 : Text → Text) (input : VerifyInput) (new_id : ℕ) (token : Text) (db : Db)
    → (is_ok (verify sha256 input new_id token db).0 ≡ true)
      ↔ ((c : DocCase) × IsEntitled sha256 input db c)
unfolding verify
verify-is_ok_iff sha256 input new_id token db =
    let step = verdict_is_ok sha256 input new_id token (judge sha256 input db) db in
    (
      λ won. let (c, at) = step.0 won in (c, (judge-admitted_iff sha256 input db c).0 at),
      λ (c, entitled). step.1 (c, (judge-admitted_iff sha256 input db c).1 entitled),
    )

text_eq_self : (s : Text) → text_eq s s ≡ true
text_eq_self s = (text_eq_iff s s).1 refl

-- An attempt counts at an instant `t` that its half hour reaches, if it failed.
failures-settle_verdict :
    (sha256 : Text → Text) (input : VerifyInput) (new_id : ℕ) (token : Text) (v : Verdict) (t : ℕ)
    (db : Db)
    → leb (t - lockout_minutes * minute_ms) input.now ≡ true
    → count_where
        (is_recent_failure (typed_number input) input.ip t)
        (settle_verdict sha256 input new_id token v db).1.attempts
      ≡ (if is_ok (settle_verdict sha256 input new_id token v db).0 then 0 else 1)
        + count_where (is_recent_failure (typed_number input) input.ip t) db.attempts
unfolding settle_verdict fail_attempt create_session record_attempt is_recent_failure count_where
failures-settle_verdict sha256 input new_id token (refused found why) t db recent =
    rw (text_eq_self (typed_number input), text_eq_self input.ip, recent) (ground arith)
failures-settle_verdict sha256 input new_id token (admitted c) t db recent = ground arith

failures-verify :
    (sha256 : Text → Text) (input : VerifyInput) (new_id : ℕ) (token number ip : Text) (t : ℕ)
    (db : Db)
    → typed_number input ≡ number
    → input.ip ≡ ip
    → leb (t - lockout_minutes * minute_ms) input.now ≡ true
    → is_ok (verify sha256 input new_id token db).0 ≡ false
    → count_where (is_recent_failure number ip t) (verify sha256 input new_id token db).1.attempts
      ≡ suc (count_where (is_recent_failure number ip t) db.attempts)
unfolding verify
failures-verify sha256 input new_id token number ip t db same_number same_ip recent failed =
    rw (← same_number, ← same_ip)
      (failures-settle_verdict sha256 input new_id token (judge sha256 input db) t db recent
        ∙ rw failed (omega arith))

verify-locked_out :
    (sha256 : Text → Text) (input : VerifyInput) (new_id : ℕ) (token : Text) (db : Db)
    → is_locked_out (typed_number input) input.ip input.now db ≡ true
    → is_ok (verify sha256 input new_id token db).0 ≡ false
unfolding verify judge settle_verdict fail_attempt
verify-locked_out sha256 input new_id token db locked = ground arith

-- A request with the values that the server draws for it.
pub record Request : Type 0 where
  pub input : VerifyInput
  pub new_id : ℕ
  pub token : Text

module _ (sha256 : Text → Text) (number ip : Text) (t : ℕ) where
  -- A run of requests for one case number from one address, in the half hour before `t`, of which
  -- none is granted.
  pub data Refusals : Db → ℕ → Db → Type 0 where
    at_start : {db : Db} → Refusals db 0 db
    and_then :
        {start db : Db} {n : ℕ}
        → Refusals start n db
        → (r : Request) → typed_number r.input ≡ number
        → r.input.ip ≡ ip
        → leb (t - lockout_minutes * minute_ms) r.input.now ≡ true
        → is_ok (verify sha256 r.input r.new_id r.token db).0 ≡ false
        → Refusals start (suc n) (verify sha256 r.input r.new_id r.token db).1

  Refusals-counted :
      {start end : Db} {n : ℕ}
      → Refusals start n end
      → n ≤ count_where (is_recent_failure number ip t) end.attempts
  Refusals-counted at_start = ground arith
  Refusals-counted (and_then {start} {db} {n} run r same_number same_ip recent failed) =
      let counted =
        failures-verify sha256 r.input r.new_id r.token number ip t db same_number same_ip recent
          failed in
      let before = Refusals-counted run in rw counted (ground arith)

  -- Once five requests or more for one case number from one address were refused, none of them
  -- more than half an hour before an instant, a request at that instant for the same number from
  -- the same address is refused, whatever digits it shows.
  pub Refusals-lock_out :
      {start end : Db} {n : ℕ} (input : VerifyInput) (new_id : ℕ) (token : Text)
      → Refusals start n end
      → max_attempts ≤ n
      → typed_number input ≡ number
      → input.ip ≡ ip
      → input.now ≡ t
      → is_ok (verify sha256 input new_id token end).0 ≡ false
  unfolding is_locked_out
  Refusals-lock_out {start} {end} {n} input new_id token run many same_number same_ip same_now =
      let counted = Refusals-counted run in
      let locked : is_locked_out number ip t end ≡ true = ground arith in
      verify-locked_out sha256 input new_id token end (rw (same_number, same_ip, same_now) locked)
