-- ===== src/Compiler.antt =====
-- crates/config-compiler: the settings of the mail filter, made from the control plane's tables.
pub mod Policies
pub mod Render
pub mod Schema
pub mod Disk
pub mod Cycle
pub mod KeyOrder
pub mod Grouping
pub mod Identifiers
pub mod Atomic
pub mod Validated
pub mod Conforms
pub mod SchemaRows
pub mod SchemaTerms
mod Tests
