-- ===== src/Service.antt =====
-- crates/service-kit and the entry points: what the services read from their environment.
pub mod Env
