-- ===== src/Process.antt =====
-- The Documentation to Process handover (src/domain/process-handoff.ts,
-- src/services/process-handoff.service.ts, and transferToProcess of
-- src/services/documentation.service.ts).
pub mod Rules
pub mod Service
pub mod Effects
pub mod Outcomes
pub mod Races
