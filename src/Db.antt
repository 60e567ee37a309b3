-- ===== src/Db.antt =====
-- crates/og-db: the one way in which the services reach Postgres.
pub mod Errors
pub mod World
pub mod Session
pub mod Connect
pub mod Transaction
pub mod Audit
pub mod Commits
pub mod Visible
pub mod Live
