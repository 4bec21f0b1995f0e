-- ===== src/Tests.antt =====
-- Runs of the model on concrete rows, and each result at an input where its hypotheses hold.
mod Samples
mod Handoff
mod Process
mod Portal
mod Rules
mod Confirm
mod Tenants
mod Fields
mod Audit
mod Phones
mod Planning
mod CaseIds
mod Patching
