-- ===== src/Planning.antt =====
-- Planning over working days and the service levels of stages
-- (src/services/case-planning.dates.ts, src/services/case-sla.compute.ts).
pub mod Dates
pub mod WorkingDays
pub mod Schedule
pub mod Sla
