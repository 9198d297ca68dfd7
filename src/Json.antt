-- ===== src/Json.antt =====
-- src/json_output.rs: the JSON output.
pub mod Path
pub mod Insert
pub mod Visit
pub mod Keys
pub mod Reach
pub mod Slots
