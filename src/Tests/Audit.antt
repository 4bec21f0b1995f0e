-- ===== src/Tests/Audit.antt =====
-- The audit log on concrete rows.
use mathlib.Core.List.{Memᴰ}
use hpx_eigen_s1_foundation.Common.{
  ℕ, ◌≡◌, ◌≢◌, refl, sym, true, Option, none, some, List, [], ◌∷◌, Text, codes, arith, text_eq,
}
use hpx_eigen_s1_foundation.Store.{Result, ok}
use hpx_eigen_s1_foundation.Store.Keys.{HasUniqueKeys}
use hpx_eigen_s1_foundation.Fields.Types.{Json, null}
use hpx_eigen_s1_foundation.Audit.{
  AuditRow, AuditAppendInput, is_intact, verify_chain, new_row, append_in_tx, of_tenant,
}
use hpx_eigen_s1_foundation.Audit.Verified.{IsVerified, verify_chain-IsVerified, verify_chain-ends}
use hpx_eigen_s1_foundation.Audit.Append.{Picks, IsTip, append_in_tx-IsTip}

-- A digest that keeps the whole text.
abbrev whole : Text → Text
whole s = s

abbrev at_time : ℕ → Text
at_time t = t ∷ []

abbrev shown : Json → Text
shown v = codes "0"

abbrev entry_of : ℕ → AuditAppendInput
entry_of case_id = record {
  tenant_id = 1;
  event_type = codes "CASE_CLOSED";
  entity_type = codes "DocCase";
  entity_id = case_id;
  actor_user_id = some 7;
  operation = codes "UPDATE";
  payload = null;
  before_state = none;
  after_state = none;
}

abbrev first_row : AuditRow
first_row = new_row whole at_time shown 1 100 (entry_of 5) none

abbrev second_row : AuditRow
second_row = new_row whole at_time shown 2 200 (entry_of 6) (some first_row.current_hash)

abbrev log : List AuditRow
log = second_row ∷ first_row ∷ []

log-HasUniqueKeys : HasUniqueKeys AuditRow.id log
unfolding new_row
log-HasUniqueKeys = ((λ e. ground arith, tt), (tt, tt))

log_is_valid : verify_chain whole at_time shown log ≡ some []
unfolding verify_chain new_row text_eq
log_is_valid = refl

verify_chain-IsVerified_example : IsVerified whole at_time shown log second_row
verify_chain-IsVerified_example =
    verify_chain-IsVerified whole at_time shown log log-HasUniqueKeys log_is_valid second_row
      (Memᴰ.head refl)

verify_chain-ends_example : verify_chain whole at_time shown log ≢ none
verify_chain-ends_example = verify_chain-ends whole at_time shown log log-HasUniqueKeys

-- The first row of the list, as the newest.
abbrev head_row : List AuditRow → Option AuditRow
head_row [] = none
head_row (r ∷ rs) = some r

head_row-Picks : Picks head_row
head_row-Picks = record { member = member; empty = empty }
  where
    member : (rows : List AuditRow) (q : AuditRow) → head_row rows ≡ some q → Memᴰ q rows
    member [] q e = absurd (ground arith)
    member (r ∷ rs) q e = Memᴰ.head (sym (ground arith))

    empty : (rows : List AuditRow) → head_row rows ≡ none → rows ≡ []
    empty [] e = refl
    empty (r ∷ rs) e = absurd (ground arith)

second_is_appended :
    ◌≡◌ {A = Result AuditRow × List AuditRow}
      (append_in_tx whole at_time shown head_row 2 200 (entry_of 6) (first_row ∷ []))
      (ok second_row, log)
unfolding append_in_tx new_row
second_is_appended = refl

append_in_tx-IsTip_example :
    (log ≡ second_row ∷ first_row ∷ [])
    × (is_intact whole at_time shown second_row ≡ true)
    × IsTip (of_tenant 1 (first_row ∷ [])) second_row.previous_hash
append_in_tx-IsTip_example =
    append_in_tx-IsTip whole at_time shown head_row 2 200 (entry_of 6) (first_row ∷ []) log
      second_row head_row-Picks second_is_appended
