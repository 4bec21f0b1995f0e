-- ===== src/Lib.antt =====
-- The case workflow of the HPX Eigen foundation: the documentation case that Sales hands to
-- Documentation and Documentation to Process, with its client portal and its closing.
--
-- The parts, and the file that models each.
--   Case (Case/Status, Case/Row): the row DocCase of prisma/schema.prisma and its enumerations. It is
--     what the services share: each of them is a transaction that reads and writes this row.
--   CaseNumber: src/domain/caseNumber.ts, and the mint of a number in src/services/handoff.service.ts
--     (CaseNumber/Mint). Minting tries five candidates, as the source's loop does.
--   Handoff: src/domain/handoff.ts (Handoff/Rules) and src/services/handoff.service.ts, whose calls
--     accept, reject, returnAfterAcceptance, resend and clearManagerReview are accept_handoff to
--     clear_manager_review of Handoff/Service, and whose confirmHandoff is in Handoff/Confirm.
--   Process: src/domain/process-handoff.ts (Process/Rules), src/services/process-handoff.service.ts and
--     transferToProcess of src/services/documentation.service.ts (Process/Service). The check of a row
--     and the conditional write stand apart, so that another call can come in between.
--   Lifecycle: closeWithoutDocs and reopenCase of src/services/case-lifecycle.service.ts. Closing calls
--     the portal's switch and supersedes the open mandate requests.
--   Portal: src/domain/portal.ts (Portal/Rules) and src/services/portal.service.ts: verification and
--     sessions (Portal/Access), publication and the switch of the portal (Portal/Activation), the
--     change of the contact (Portal/Contacts).
--   Mandate: the pure rules of src/domain/mandate.ts.
--   Documentation: managerOverride of src/services/documentation.service.ts.
--   Fields: the configurable fields of a case. src/services/case-field.validation.ts is Fields/Checks,
--     Fields/Scalars, Fields/Search (assertNoRuleCycle, over the graphs of Fields/Graph) and
--     Fields/Options (assertNoOptionCycle); src/services/case-field.service.ts is Fields/Definitions,
--     Fields/OptionOps, Fields/RuleInput and Fields/RuleOps over the tables of Fields/Rows, and
--     Fields/Calls runs its calls one after the other;
--     src/services/case-field-value.validation.ts is Fields/Values, Fields/Conditions and Fields/Runtime.
--     Of src/services/case-field-value.service.ts, patchValues is Fields/Patch and validateValues is
--     Fields/Validation.
--   Audit: the hash chain of src/services/audit.service.ts, on the rows of AuditLog; the other parts
--     append to a plain list of audit records.
--   Planning: src/services/case-planning.dates.ts (Planning/Dates) and the forward and reverse passes
--     of src/services/case-planning.service.ts (Planning/Schedule), and the service levels of
--     src/services/case-sla.compute.ts (Planning/Sla).
--   CaseId: src/services/case-id.service.ts, with the mint of CaseNumber/Mint; CaseId/Repeats runs its
--     calls one after the other.
--   Phones: src/services/phone.service.ts and normalizePhone of src/utils/phone.util.ts; Phones/Calls
--     runs its calls one after the other.
--   Flow: every call of the handoff, handover and lifecycle services but confirmHandoff is a step of
--     the database.
--     Flow/Preserved is about what the steps keep, Flow/Tenants about what they leave alone.
--   Handoff/Effects and Process/Effects say of each call by which function it writes the row (Store/Moves),
--     Handoff/Outcomes and Process/Outcomes what a caller reads back (Store/Commits).
--   Store: the tables, queries and updates of Prisma as functions on lists, and the calls as functions
--     from a database to a result and a database; a transaction takes back what it wrote when it
--     throws, and a call outside a transaction does not.
--   Common: lists, texts and tests that the parts share. Tests: runs on concrete rows.
--
-- How the code is read. A uuid is a number, since uuids are only compared; an instant is a number of
-- milliseconds; a text is its list of UTF-16 code units, and toUpperCase acts on ASCII letters, so
-- that what is said of a typed case number leaves out letters such as U+017F, which the source maps
-- to S. One
-- call reads the clock once. Random draws and new ids are arguments. The digest of node's crypto
-- module is a parameter. A call that returns the updated row leaves it in the table. The event and
-- the audit record of a call are kept without their JSON payloads. The mint has the
-- source's five tries; the two searches for a cycle run on one unit of fuel for each edge or option,
-- and one more, and have a verdict out_of_fuel, which the results exclude.
-- The walk over the audit log runs on one unit for each row, and one more. A walk over working days
-- runs on a fuel that the caller gives, one unit a day; n working days need n times the longest gap
-- between two of them. A JavaScript number is its
-- 64 bits, with the order and the equality of IEEE 754. Interpolated words of a message are left out.
-- new Date(s), new RegExp(p).test(s), toISOString, JSON.stringify of a scalar and the fields of a
-- civil date are parameters. A date of the planning counts milliseconds from the earliest date of
-- JavaScript, so that it is never negative.
--
-- Not modelled: routes and middleware, queries that write nothing, leads beyond what a handoff reads,
-- documents and their progress, the mandate service beyond its pure rules, case types, the timeline
-- of stages and its statistics, invoices, users and permissions, mail and storage.
pub mod Common
pub mod Case
pub mod CaseNumber
pub mod Handoff
pub mod Process
pub mod Store
pub mod Phones
pub mod Portal
pub mod Lifecycle
pub mod Fields
pub mod Audit
pub mod Planning
pub mod CaseId
pub mod Flow
pub mod Mandate
pub mod Documentation
pub mod Tests
