-- ===== src/CaseId.antt =====
-- The case number given on demand: `generateCaseIdInTx` and `generateCaseIdManual` of
-- src/services/case-id.service.ts.
pub mod Repeats
use hpx_eigen_s1_foundation.Common.{
  ℕ, zero, suc, ◌+◌, ◌≡◌, refl, sym, ap, ◌∙◌, Bool, true, false, List, [], ◌∷◌, Bool-cases, ==_iff,
  find_first-update_many_if, Option, none, some, Text, is_empty, arith, find_first,
  find_first_holds, find_first-update_many, update_many, Option-cases, inl, inr,
}
use hpx_eigen_s1_foundation.Case.{DocCase}
use hpx_eigen_s1_foundation.CaseNumber.{generate_case_number}
use hpx_eigen_s1_foundation.CaseNumber.Mint.{mint_case_number, mint_from, max_retries}
use hpx_eigen_s1_foundation.Handoff.Confirm.{is_case_number_taken}
use hpx_eigen_s1_foundation.Store.{
  Action, Result, ok, err, settle, pure, or_raise, transaction, ◌>>=◌, ◌>>◌, Db, Ctx, load_case,
  update_case, append_audit, find_case, is_live_case, has_id, business_rule_violation,
}

-- `if (docCase.caseNumber)`
unfoldable pub given_number : DocCase → Option Text
given_number c = elim c.case_number [
  | none ↦ none
  | some n ↦ elim (is_empty n) [ true ↦ none | false ↦ some n ]
]

unfoldable pub numbered_case : Text → DocCase → DocCase
numbered_case n row = record row { case_number = some n }

-- `mintUniqueCaseNumber(tx)`: the same five tries as at the hand-off.
unfoldable pub mint_unique_case_number : (ℕ → ℕ) → Action Db Text
unfolding mint_case_number is_case_number_taken
mint_unique_case_number draw db =
    or_raise (mint_case_number (is_case_number_taken db) draw)
      (business_rule_violation
        "Could not allocate a case number after maximum retries. Please retry.")
      db

-- The number, and whether the case had it already.
unfoldable pub generate_case_id_in_tx : Ctx → (ℕ → ℕ) → ℕ → Action Db (Text × Bool)
unfolding given_number numbered_case mint_unique_case_number
generate_case_id_in_tx ctx draw id = do
  c ← load_case ctx id
  elim (given_number c) [
    | some n ↦ pure (n, true)
    | none ↦ do
      n ← mint_unique_case_number draw
      update_case id (numbered_case n)
      append_audit ctx "CASE_ID_GENERATED" "DocCase" id
      pure (n, false)
  ]

unfoldable pub generate_case_id_manual : Ctx → (ℕ → ℕ) → ℕ → Action Db (Text × Bool)
unfolding generate_case_id_in_tx
generate_case_id_manual ctx draw id = transaction (generate_case_id_in_tx ctx draw id)
