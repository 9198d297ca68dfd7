-- ===== src/Dump.antt =====
-- src/bin/evtx_dump.rs
pub mod Ranges
pub mod Target
pub mod Print
pub mod Options
pub mod Selected
