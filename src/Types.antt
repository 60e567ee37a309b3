-- ===== src/Types.antt =====
-- crates/types: the domain types that every crate shares, and the provider interfaces.
pub mod Provider
pub mod Model
pub mod Mail
pub mod Identity
pub mod Abuse
pub mod Backup
pub mod Search
pub mod Storage
