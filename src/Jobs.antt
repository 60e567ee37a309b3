-- ===== src/Jobs.antt =====
-- crates/job-runner: the retry of account provisioning.
pub mod Reconcile
pub mod Main
pub mod Effects
pub mod Outcome
pub mod Counts
pub mod Steps
pub mod Rows
pub mod Turns
pub mod Interleaving
pub mod Runs
mod Tests
