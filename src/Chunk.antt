-- ===== src/Chunk.antt =====
-- src/evtx_chunk.rs and the record header of src/evtx_record.rs.
pub mod Header
pub mod Data
pub mod RecordHeader
pub mod Records
pub mod Ends
pub mod Checksums
