-- ===== src/Convert.antt =====
-- The conversions of a value in src/binxml/value_variant.rs.
pub mod Text
pub mod ToJson
