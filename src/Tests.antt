-- ===== src/Tests.antt =====
-- Runs of the model on small inputs, and the concrete crates that they use.
pub mod Sample
pub mod SampleJson
pub mod SampleChunk
pub mod Runs
pub mod Chunks
pub mod Formats
pub mod Reads
pub mod Records
pub mod SampleXml
pub mod Prints
pub mod Dumps
