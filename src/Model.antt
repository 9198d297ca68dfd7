-- ===== src/Model.antt =====
-- src/model: the data that the parser reads.
pub mod Raw
pub mod ValueType
pub mod Deserialized
pub mod Xml
pub mod Codes
