-- ===== src/Mandate.antt =====
-- The mandate that a client signs and uploads (src/domain/mandate.ts).
pub mod Rules
