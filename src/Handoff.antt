-- ===== src/Handoff.antt =====
-- The Sales to Documentation handoff (src/domain/handoff.ts, src/services/handoff.service.ts).
pub mod Rules
pub mod Service
pub mod Effects
pub mod Outcomes
pub mod Confirm
