-- ===== src/Wrappers.antt =====
-- crates/wrappers: the client of the identity service.
pub mod Sesame
pub mod Tokens
pub mod Stubs
pub mod Stalwart
pub mod StalwartMail
pub mod StalwartIdentity
pub mod StalwartBackup
pub mod RspamdAbuse
pub mod MinioStorage
pub mod TantivySearch
mod Tests
