-- ===== src/Abuse.antt =====
-- crates/abuse-api: scan decisions and the quarantine workflow.
pub mod Models
pub mod Tables
pub mod Routes
pub mod Api
pub mod Statements
pub mod Effects
pub mod Outcomes
pub mod Decisions
pub mod Workflow
pub mod History
pub mod WellFormed
pub mod Invariant
pub mod Listing
pub mod Isolation
pub mod Live
mod Tests
