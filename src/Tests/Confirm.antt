-- ===== src/Tests/Confirm.antt =====
-- The hand-off of a lead and the override of a case, on concrete rows.
use hpx_eigen_s1_foundation.Common.{
  ℕ, ◌≡◌, refl, false, none, some, [], Text, codes, inl, find_first, trim,
}
use hpx_eigen_s1_foundation.CaseNumber.{generate_case_number}
use hpx_eigen_s1_foundation.Documentation.{manager_override, overridden_case}
use hpx_eigen_s1_foundation.Documentation.Override.{manager_override-incoherent}
use hpx_eigen_s1_foundation.Flow.Coherence.{is_coherent}
use hpx_eigen_s1_foundation.Store.{Db, find_case, is_live_case}
use hpx_eigen_s1_foundation.Tests.Samples.{alice, incoming_case, pending_case, db_of}

abbrev draw : ℕ → ℕ
draw i = 3

abbrev number : Text
number = generate_case_number draw 0

abbrev empty_db : Db
empty_db = record (db_of incoming_case) { cases = [] }

manager_override-incoherent_example :
    (find_case 1 1 (manager_override alice 1 (codes "urgent") none (db_of pending_case)).1
      ≡ some (overridden_case pending_case))
    × (is_coherent (overridden_case pending_case) ≡ false)
unfolding find_case find_first is_live_case trim
manager_override-incoherent_example =
    manager_override-incoherent alice 1 (codes "urgent") none (db_of pending_case) pending_case refl
      refl (inl refl)
