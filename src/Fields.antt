-- ===== src/Fields.antt =====
-- The configurable case fields (src/services/case-field.validation.ts,
-- src/services/case-field.service.ts, src/services/case-field-value.validation.ts).
pub mod Types
pub mod Checks
pub mod Scalars
pub mod Rows
pub mod Definitions
pub mod Graph
pub mod Search
pub mod Options
pub mod OptionOps
pub mod RuleInput
pub mod RuleOps
pub mod Calls
pub mod Values
pub mod Conditions
pub mod Runtime
pub mod Validation
pub mod Patch
