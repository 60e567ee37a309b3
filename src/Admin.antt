-- ===== src/Admin.antt =====
-- crates/admin-api: provisioning of tenants, domains, accounts and abuse policies.
pub mod Models
pub mod Validate
pub mod Checks
pub mod Tables
pub mod Routes
pub mod Api
pub mod Statements
pub mod Effects
pub mod Accounts
pub mod WellFormed
pub mod Listing
pub mod Invariant
pub mod Isolation
pub mod Trail
pub mod Emails
pub mod Backstop
pub mod Live
pub mod Conflicts
mod Tests
