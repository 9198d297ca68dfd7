-- ===== src/Binxml.antt =====
-- src/binxml: the deserializer of binary XML.
pub mod Name
pub mod Tokens
pub mod Value
pub mod Deserializer
pub mod Format
