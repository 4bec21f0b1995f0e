-- ===== src/Case.antt =====
-- The documentation case, the row that the handoff, process, lifecycle, portal and mandate services
-- share (prisma/schema.prisma, model DocCase), with its enumerations.
mod Status
mod Row
pub use Status.*
pub use Row.*
