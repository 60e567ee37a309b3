-- ===== src/Auth.antt =====
-- crates/og-auth: verification of bearer tokens, the cache of signing keys, and the middleware.
pub mod Caller
pub mod Outside
pub mod Keys
pub mod Verify
pub mod Lookup
pub mod Soundness
pub mod Cache
pub mod Json
pub mod Mock
pub mod RoundTrip
mod MockTests
mod Tests
