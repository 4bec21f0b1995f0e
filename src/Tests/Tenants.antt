-- ===== src/Tests/Tenants.antt =====
-- Two tenants in one table.
use hpx_eigen_s1_foundation.Common.{◌≡◌, [], ◌∷◌, arith}
use hpx_eigen_s1_foundation.Flow.{accepts}
use hpx_eigen_s1_foundation.Flow.Tenants.{Step-foreign_cases, foreign_cases}
use hpx_eigen_s1_foundation.Handoff.Service.{accept_handoff}
use hpx_eigen_s1_foundation.Store.{Db}
use hpx_eigen_s1_foundation.Tests.Samples.{alice, incoming_case, db_of}

-- The case of alice's tenant, and one of another.
abbrev shared_db : Db
shared_db = record (db_of incoming_case) {
  cases = incoming_case ∷ record incoming_case { id = 2; tenant_id = 9 } ∷ [];
}

Step-foreign_cases_example :
    foreign_cases 1 (accept_handoff alice 1 shared_db).1.cases ≡ foreign_cases 1 shared_db.cases
Step-foreign_cases_example =
    Step-foreign_cases (accepts alice 1 {db = shared_db}) (((λ e. ground arith), tt), (tt, tt))
