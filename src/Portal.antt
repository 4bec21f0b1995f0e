-- ===== src/Portal.antt =====
-- The client portal (src/domain/portal.ts, src/services/portal.service.ts).
pub mod Rules
pub mod Access
pub mod Activation
pub mod Contacts
