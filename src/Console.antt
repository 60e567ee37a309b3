-- ===== src/Console.antt =====
-- crates/admin-console: the read-only web console over the API of the control plane.
pub mod Client
pub mod Style
pub mod Views
pub mod Pages
pub mod Words
pub mod Outcomes
mod Tests
