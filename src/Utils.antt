-- ===== src/Utils.antt =====
-- src/utils: strings and times in the stream.
pub mod Strings
pub mod Time
pub mod Forward
pub mod Hexdump
