-- ===== src/Tests/CaseIds.antt =====
-- A case number given on demand, on a concrete row.
use hpx_eigen_s1_foundation.Common.{
  ℕ, ◌≡◌, refl, Bool, true, false, none, List, [], ◌∷◌, Text, find_first,
}
use hpx_eigen_s1_foundation.CaseNumber.{generate_case_number}
use hpx_eigen_s1_foundation.CaseId.{generate_case_id_manual}
use hpx_eigen_s1_foundation.CaseId.Repeats.{generate_case_id_manual-again, MintCall, run_mints}
use hpx_eigen_s1_foundation.Store.{Result, Db, ok, find_case, is_live_case}
use hpx_eigen_s1_foundation.Tests.Samples.{alice, incoming_case, db_of}

abbrev first_draw : ℕ → ℕ
first_draw i = 3

abbrev second_draw : ℕ → ℕ
second_draw i = 4

abbrev unnumbered : Db
unnumbered = db_of (record incoming_case { case_number = none })

abbrev numbered : Db
numbered = (generate_case_id_manual alice first_draw 1 unnumbered).1

a_number_is_given :
    ◌≡◌ {A = Result (Text × Bool) × Db}
      (generate_case_id_manual alice first_draw 1 unnumbered)
      (ok (generate_case_number first_draw 0, false), numbered)
unfolding generate_case_id_manual find_case find_first is_live_case
a_number_is_given = refl

-- Somebody asks for the number again in between.
abbrev asked_again : List MintCall
asked_again = record { user_id = 6; now = 1200; draw = second_draw; case_id = 1 } ∷ []

generate_case_id_manual-again_example :
    ◌≡◌ {A = Result (Text × Bool) × Db}
      (generate_case_id_manual alice second_draw 1 (run_mints 1 asked_again numbered))
      (ok (generate_case_number first_draw 0, true), run_mints 1 asked_again numbered)
generate_case_id_manual-again_example =
    generate_case_id_manual-again alice alice first_draw second_draw 1 asked_again unnumbered
      numbered (generate_case_number first_draw 0) false refl a_number_is_given
