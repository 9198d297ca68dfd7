-- ===== src/Parser.antt =====
-- src/evtx_parser.rs
pub mod Settings
pub mod Chunks
pub mod Serialized
pub mod Search
pub mod Count
pub mod Endless
pub mod Records
pub mod InOrder
