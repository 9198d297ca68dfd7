-- ===== src/Assemble.antt =====
-- src/binxml/assemble.rs
pub mod Expand
pub mod RecordModel
pub mod Parse
pub mod Steps
pub mod Flat
pub mod Filled
pub mod Forest
pub mod Names
pub mod Counts
pub mod Nesting
pub mod Fuel
